-- ===== src/Config/ValidEnhancement.antt =====
-- What a page enhancement is once Config.Validate of internal/config/config.go has accepted it, and
-- the checks of its parts that need no library.
-- A text that can stand in a header: no carriage return and no line feed.
use siteboost_core.Common.{
  is_empty, all, All, All-of_false, ok, passed, denied, ok_value, ℤ, is_positive, is_within, ◌≡◌,
  subst, ◌⊎◌, true, false, not, [], ◌∷◌,
}
use siteboost_core.Text.{Text, text, trim_space, has_prefix}
use siteboost_core.Config.Names.{pass_through, fail_closed}
use siteboost_core.Config.Types.{
  PageEnhanceAssetConfig, PageEnhanceMatchConfig, PageEnhanceTransformConfig, PageEnhanceConfig,
  asset_path, asset_file, asset_content_type, transform_path_prefix, transform_status_code,
  transform_replace_old, transform_no_operation,
}
use siteboost_core.Config.Normalizing.{one_of}
use siteboost_core.Config.Enhancement.{
  contains_header_control, validate_asset, has_operation, match_path_prefix, match_status_code,
  check_operation,
}

abbrev pub IsHeaderText : Text → Type 0
IsHeaderText value = contains_header_control value ≡ false

pub record IsAsset (asset : PageEnhanceAssetConfig) : Type 0 where
  pub path : has_prefix (text "/") asset.path ≡ true
  pub file : is_empty asset.file ≡ false
  pub content_type : IsHeaderText asset.content_type

pub record IsMatch (cfg : PageEnhanceMatchConfig) : Type 0 where
  pub providers : All (λ p. (is_empty p ≡ false) × IsHeaderText p) cfg.providers
  pub path_prefixes : All (λ p. has_prefix (text "/") p ≡ true) cfg.path_prefixes
  pub content_types : All IsHeaderText cfg.content_types
  pub status_codes : All (λ code. is_within 100 999 code ≡ true) cfg.status_codes

pub record IsTransform (transform : PageEnhanceTransformConfig) : Type 0 where
  pub matches : IsMatch transform.matches
  pub set_values : All (λ header. IsHeaderText header.1) transform.headers.set
  pub remove_given : All (λ key. is_empty key ≡ false) transform.headers.remove
  pub replace_given : All (λ r. is_empty r.old ≡ false) transform.replace
  pub operation : has_operation transform ≡ true

pub record IsEnhancement (cfg : PageEnhanceConfig) : Type 0 where
  pub on_error : one_of cfg.on_error (pass_through ∷ fail_closed ∷ []) ≡ true
  pub body_size : is_positive cfg.max_body_size ≡ true
  pub contents : (cfg.enabled ≡ false) ⊎ (All IsAsset cfg.assets × All IsTransform cfg.transforms)

pub validate_asset-IsAsset : (a b : PageEnhanceAssetConfig) → validate_asset a ≡ ok b → IsAsset b
unfolding validate_asset
validate_asset-IsAsset a b h =
    let (path, h1) = passed (has_prefix (text "/") (trim_space a.path)) asset_path _ h in
    let (file, h2) = denied (is_empty (trim_space a.file)) asset_file _ h1 in
    let (content_type, h3) =
      denied (contains_header_control (trim_space a.content_type)) asset_content_type _ h2 in
    subst IsAsset (ok_value h3) (record { path = path; file = file; content_type = content_type })

pub match_path_prefix_ok :
    (a b : Text) → match_path_prefix a ≡ ok b → has_prefix (text "/") b ≡ true
unfolding match_path_prefix
match_path_prefix_ok a b h =
    let (slash, h1) = passed (has_prefix (text "/") a) transform_path_prefix _ h in
    subst (λ b. has_prefix (text "/") b ≡ true) (ok_value h1) slash

pub match_status_code_ok : (a b : ℤ) → match_status_code a ≡ ok b → is_within 100 999 b ≡ true
unfolding match_status_code
match_status_code_ok a b h =
    let (within, h1) = passed (is_within 100 999 a) transform_status_code _ h in
    subst (λ b. is_within 100 999 b ≡ true) (ok_value h1) within

pub check_operation_ok :
    (a b : PageEnhanceTransformConfig)
    → check_operation a ≡ ok b
    → (a ≡ b) × All (λ r. is_empty r.old ≡ false) a.replace × (has_operation a ≡ true)
unfolding check_operation
check_operation_ok a b h =
    let (olds, h1) = passed (all (λ r. not (is_empty r.old)) a.replace) transform_replace_old _ h in
    let (operation, h2) = passed (has_operation a) transform_no_operation _ h1 in
    (ok_value h2, All-of_false (λ r. is_empty r.old) a.replace olds, operation)

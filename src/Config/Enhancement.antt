-- ===== src/Config/Enhancement.antt =====
-- validatePageEnhanceConfig of internal/config/config.go, with the helpers on hosts and headers. The
-- indexes in its messages are not modelled.
use siteboost_core.Common.{
  ◌==◌, if◌then◌else◌, is_empty, all, Result, ok, require, ◌>>=◌, ◌>>◌, map_error, map_results, ℤ,
  pos, negsuc, is_negative, is_within, insert, ◌*◌, Bool, false, not, ◌||◌, List, [], ◌∷◌, ◌++◌,
}
use siteboost_core.Text.{Text, text, trim_space, has_prefix, trim_prefix, contains_any, to_lower}
use siteboost_core.Text.Laws.{text_key}
use siteboost_core.External.{Externals}
use siteboost_core.Rules.{RuleError, normalize_host}
use siteboost_core.Config.Names.{pass_through, fail_closed}
use siteboost_core.Config.Types.{
  PageEnhanceAssetConfig, PageEnhanceMatchConfig, PageEnhanceHeadersConfig,
  PageEnhanceTransformConfig, PageEnhanceConfig, ConfigError, unsupported_on_error,
  negative_body_size, asset_path, asset_file, asset_content_type, transform_provider,
  transform_path_prefix, transform_content_type, transform_status_code, transform_header_name,
  transform_header_value, transform_replace_old, transform_no_operation, transform_host,
}
use siteboost_core.Config.Normalizing.{one_of, trim_strings, normalize_page_enhance_on_error}

unfoldable pub contains_header_control : Text → Bool
contains_header_control value = contains_any (13 ∷ 10 ∷ []) value

abbrev pub default_body_size : ℤ
default_body_size = pos (1024 * 1024)

unfoldable pub validate_asset : PageEnhanceAssetConfig → Result ConfigError PageEnhanceAssetConfig
validate_asset asset = do
  require (has_prefix (text "/") (trim_space asset.path)) asset_path
  require (not (is_empty (trim_space asset.file))) asset_file
  require (not (contains_header_control (trim_space asset.content_type))) asset_content_type
  ok (record {
    path = trim_space asset.path;
    file = trim_space asset.file;
    content_type = trim_space asset.content_type;
  })

-- At least one operation.
abbrev pub has_operation : PageEnhanceTransformConfig → Bool
has_operation transform =
    not (is_empty transform.headers.set)
    || not (is_empty transform.headers.remove)
    || not (is_empty transform.inject_head)
    || not (is_empty transform.inject_body)
    || not (is_empty transform.replace)

unfoldable pub match_path_prefix : Text → Result ConfigError Text
match_path_prefix prefix = do
  require (has_prefix (text "/") prefix) transform_path_prefix
  ok prefix

unfoldable pub match_status_code : ℤ → Result ConfigError ℤ
match_status_code code = do require (is_within 100 999 code) transform_status_code; ok code

unfoldable pub check_operation :
    PageEnhanceTransformConfig → Result ConfigError PageEnhanceTransformConfig
check_operation transform = do
  require (all (λ r. not (is_empty r.old)) transform.replace) transform_replace_old
  require (has_operation transform) transform_no_operation
  ok transform

abbrev pub is_zero : ℤ → Bool
is_zero (pos n) = n == 0
is_zero (negsuc n) = false

module _ (x : Externals) where
  unfoldable pub normalize_enhance_host : Text → Result RuleError Text
  normalize_enhance_host host =
      if has_prefix (text "*.") (trim_space host)
      then (do
        normalized ← normalize_host x (trim_prefix (text "*.") (trim_space host))
        ok (text "*." ++ normalized))
      else normalize_host x (trim_space host)

  unfoldable pub normalize_header_key : Text → Result ConfigError Text
  normalize_header_key key = do
    require (not (is_empty (trim_space key))) transform_header_name
    require (not (contains_header_control (trim_space key))) transform_header_name
    require (not (is_empty (x.canonical_header (trim_space key)))) transform_header_name
    ok (x.canonical_header (trim_space key))

  -- One pass of the loop over match.providers.
  unfoldable pub match_provider : Text → Result ConfigError Text
  match_provider provider = do
    require (not (is_empty (to_lower x.lower_rune provider))) transform_provider
    require (not (contains_header_control (to_lower x.lower_rune provider))) transform_provider
    ok (to_lower x.lower_rune provider)

  unfoldable pub match_content_type : Text → Result ConfigError Text
  match_content_type content_type = do
    require (not (contains_header_control (to_lower x.lower_rune content_type)))
        transform_content_type
    ok (to_lower x.lower_rune content_type)

  unfoldable pub validate_match : PageEnhanceMatchConfig → Result ConfigError PageEnhanceMatchConfig
  validate_match cfg = do
    providers ← map_results match_provider (trim_strings cfg.providers)
    hosts ←
        map_results (λ h. map_error transform_host (normalize_enhance_host h))
          (trim_strings cfg.hosts)
    path_prefixes ← map_results match_path_prefix (trim_strings cfg.path_prefixes)
    content_types ← map_results match_content_type (trim_strings cfg.content_types)
    status_codes ← map_results match_status_code cfg.status_codes
    ok (record {
      providers = providers;
      hosts = hosts;
      path_prefixes = path_prefixes;
      content_types = content_types;
      status_codes = status_codes;
    })

  -- The loop over headers.set; `normalized` is the map built so far.
  unfoldable pub normalize_set :
      List (Text × Text) → List (Text × Text) → Result ConfigError (List (Text × Text))
  normalize_set normalized [] = ok normalized
  normalize_set normalized ((key, value) ∷ set) = do
    canonical ← normalize_header_key key
    require (not (contains_header_control value)) transform_header_value
    normalize_set (insert text_key canonical value normalized) set

  unfoldable pub validate_headers :
      PageEnhanceHeadersConfig → Result ConfigError PageEnhanceHeadersConfig
  validate_headers cfg = do
    remove ← map_results normalize_header_key (trim_strings cfg.remove)
    set ← normalize_set [] cfg.set
    ok (record { set = set; remove = remove })

  unfoldable pub validate_transform :
      PageEnhanceTransformConfig → Result ConfigError PageEnhanceTransformConfig
  validate_transform transform = do
    matches ← validate_match transform.matches
    headers ← validate_headers transform.headers
    check_operation (record {
      name = trim_space transform.name;
      matches = matches;
      headers = headers;
      inject_head = trim_space transform.inject_head;
      inject_body = trim_space transform.inject_body;
      replace = transform.replace;
    })

  -- The fields that are set whether the enhancement is enabled or not.
  abbrev pub normalize_enhance : PageEnhanceConfig → PageEnhanceConfig
  normalize_enhance cfg = record cfg {
    on_error = normalize_page_enhance_on_error x cfg.on_error;
    max_body_size = if is_zero cfg.max_body_size then default_body_size else cfg.max_body_size;
  }

  unfoldable pub validate_contents : PageEnhanceConfig → Result ConfigError PageEnhanceConfig
  validate_contents cfg = do
    assets ← map_results validate_asset cfg.assets
    transforms ← map_results validate_transform cfg.transforms
    ok (record cfg { assets = assets; transforms = transforms })

  unfoldable pub validate_page_enhance_config :
      PageEnhanceConfig → Result ConfigError PageEnhanceConfig
  validate_page_enhance_config cfg = do
    require
        (one_of (normalize_page_enhance_on_error x cfg.on_error) (pass_through ∷ fail_closed ∷ []))
        unsupported_on_error
    require (not (is_negative cfg.max_body_size)) negative_body_size
    if cfg.enabled then validate_contents (normalize_enhance cfg) else ok (normalize_enhance cfg)

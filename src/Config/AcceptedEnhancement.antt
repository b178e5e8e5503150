-- ===== src/Config/AcceptedEnhancement.antt =====
-- What validatePageEnhanceConfig of internal/config/config.go accepts.
use siteboost_core.Common.{
  if◌then◌else◌, Bool-cases, taken, skipped, is_empty, All, ok, map_error, >>=-eq-ok, passed,
  denied, ok_value, map_results, map_results-All, ℤ, pos, negsuc, is_positive, is_negative,
  is_within, lookup, insert, lookup-insert, All-insert, ◌≡◌, refl, sym, ap, ◌∙◌, subst, inl, inr,
  true, false, Option, none, some, List, [], ◌∷◌, arith,
}
use siteboost_core.Text.{Text, text, text_eq, trim_space, has_prefix, to_lower}
use siteboost_core.Text.Laws.{text_key}
use siteboost_core.External.{Externals}
use siteboost_core.Config.Names.{pass_through, fail_closed}
use siteboost_core.Config.Types.{
  PageEnhanceMatchConfig, PageEnhanceHeadersConfig, PageEnhanceTransformConfig, PageEnhanceConfig,
  unsupported_on_error, negative_body_size, transform_provider, transform_content_type,
  transform_header_name, transform_header_value, transform_host,
}
use siteboost_core.Config.Normalizing.{one_of, trim_strings, normalize_page_enhance_on_error}
use siteboost_core.Config.Enhancement.{
  contains_header_control, default_body_size, validate_asset, match_path_prefix, match_status_code,
  is_zero, normalize_enhance_host, normalize_header_key, match_provider, match_content_type,
  validate_match, normalize_set, validate_headers, validate_transform, normalize_enhance,
  validate_contents, validate_page_enhance_config,
}
use siteboost_core.Config.ValidEnhancement.{
  IsHeaderText, IsAsset, IsMatch, IsTransform, IsEnhancement, validate_asset-IsAsset,
  match_path_prefix_ok, match_status_code_ok, check_operation_ok,
}

module _ (x : Externals) where
  match_provider_ok :
      (a b : Text) → match_provider x a ≡ ok b → (is_empty b ≡ false) × IsHeaderText b
  unfolding match_provider
  match_provider_ok a b h =
      let lower = to_lower x.lower_rune a in
      let (given, h1) = denied (is_empty lower) transform_provider _ h in
      let (plain, h2) = denied (contains_header_control lower) transform_provider _ h1 in
      subst (λ b. (is_empty b ≡ false) × IsHeaderText b) (ok_value h2) (given, plain)

  match_content_type_ok : (a b : Text) → match_content_type x a ≡ ok b → IsHeaderText b
  unfolding match_content_type
  match_content_type_ok a b h =
      let lower = to_lower x.lower_rune a in
      let (plain, h1) = denied (contains_header_control lower) transform_content_type _ h in
      subst IsHeaderText (ok_value h1) plain

  normalize_header_key_ok : (a b : Text) → normalize_header_key x a ≡ ok b → is_empty b ≡ false
  unfolding normalize_header_key
  normalize_header_key_ok a b h =
      let (_, h1) = denied (is_empty (trim_space a)) transform_header_name _ h in
      let (_, h2) = denied (contains_header_control (trim_space a)) transform_header_name _ h1 in
      let (given, h3) =
        denied (is_empty (x.canonical_header (trim_space a))) transform_header_name _ h2 in
      subst (λ b. is_empty b ≡ false) (ok_value h3) given

  validate_match-IsMatch : (a b : PageEnhanceMatchConfig) → validate_match x a ≡ ok b → IsMatch b
  unfolding validate_match
  validate_match-IsMatch a b h =
      let (providers, e1, h1) =
        >>=-eq-ok (map_results (match_provider x) (trim_strings a.providers)) _ h in
      let (hosts, _, h2) =
        >>=-eq-ok
          (map_results (λ h. map_error transform_host (normalize_enhance_host x h))
            (trim_strings a.hosts))
          _ h1 in
      let (prefixes, e3, h3) =
        >>=-eq-ok (map_results match_path_prefix (trim_strings a.path_prefixes)) _ h2 in
      let (types, e4, h4) =
        >>=-eq-ok (map_results (match_content_type x) (trim_strings a.content_types)) _ h3 in
      let (codes, e5, h5) = >>=-eq-ok (map_results match_status_code a.status_codes) _ h4 in
      subst IsMatch (ok_value h5) (record {
        providers =
            map_results-All (match_provider x) (λ p. (is_empty p ≡ false) × IsHeaderText p)
              match_provider_ok (trim_strings a.providers) providers e1;
        path_prefixes =
            map_results-All match_path_prefix (λ p. has_prefix (text "/") p ≡ true)
              match_path_prefix_ok (trim_strings a.path_prefixes) prefixes e3;
        content_types =
            map_results-All (match_content_type x) IsHeaderText match_content_type_ok
              (trim_strings a.content_types) types e4;
        status_codes =
            map_results-All match_status_code (λ code. is_within 100 999 code ≡ true)
              match_status_code_ok a.status_codes codes e5;
      })

  normalize_set-All :
      (normalized set last : List (Text × Text))
      → All (λ header. IsHeaderText header.1) normalized
      → normalize_set x normalized set ≡ ok last
      → All (λ header. IsHeaderText header.1) last
  unfolding normalize_set
  normalize_set-All normalized [] last clean h =
      subst (All (λ header. IsHeaderText header.1)) (ok_value h) clean
  normalize_set-All normalized ((key, value) ∷ set) last clean h =
      let (canonical, _, h1) = >>=-eq-ok (normalize_header_key x key) _ h in
      let (plain, h2) = denied (contains_header_control value) transform_header_value _ h1 in
      normalize_set-All (insert text_key canonical value normalized) set last
        (All-insert text_key (λ header. IsHeaderText header.1) canonical value normalized plain
          clean)
        h2

  validate_headers_ok :
      (a b : PageEnhanceHeadersConfig)
      → validate_headers x a ≡ ok b
      → All (λ header. IsHeaderText header.1) b.set × All (λ key. is_empty key ≡ false) b.remove
  unfolding validate_headers
  validate_headers_ok a b h =
      let (remove, e1, h1) =
        >>=-eq-ok (map_results (normalize_header_key x) (trim_strings a.remove)) _ h in
      let (set, e2, h2) = >>=-eq-ok (normalize_set x [] a.set) _ h1 in
      subst
        (λ b.
          All (λ header. IsHeaderText header.1) b.set × All (λ key. is_empty key ≡ false) b.remove)
        (ok_value h2)
        (
          normalize_set-All [] a.set set tt e2,
          map_results-All (normalize_header_key x) (λ key. is_empty key ≡ false)
              normalize_header_key_ok (trim_strings a.remove) remove e1,
        )

  abbrev checked_transform :
      PageEnhanceTransformConfig
      → PageEnhanceMatchConfig
      → PageEnhanceHeadersConfig
      → PageEnhanceTransformConfig
  checked_transform a matches headers = record {
    name = trim_space a.name;
    matches = matches;
    headers = headers;
    inject_head = trim_space a.inject_head;
    inject_body = trim_space a.inject_body;
    replace = a.replace;
  }

  validate_transform-IsTransform :
      (a b : PageEnhanceTransformConfig) → validate_transform x a ≡ ok b → IsTransform b
  unfolding validate_transform
  validate_transform-IsTransform a b h =
      let (matches, e1, h1) = >>=-eq-ok (validate_match x a.matches) _ h in
      let (headers, e2, h2) = >>=-eq-ok (validate_headers x a.headers) _ h1 in
      let (same, olds, operation) = check_operation_ok (checked_transform a matches headers) b h2 in
      let (set, remove) = validate_headers_ok a.headers headers e2 in
      subst IsTransform same (record {
        matches = validate_match-IsMatch a.matches matches e1;
        set_values = set;
        remove_given = remove;
        replace_given = olds;
        operation = operation;
      })

  validate_contents_ok :
      (a b : PageEnhanceConfig)
      → validate_contents x a ≡ ok b
      → (b ≡ record a { assets = b.assets; transforms = b.transforms })
        × All IsAsset b.assets
        × All IsTransform b.transforms
  unfolding validate_contents
  validate_contents_ok a b h =
      let (assets, e1, h1) = >>=-eq-ok (map_results validate_asset a.assets) _ h in
      let (transforms, e2, h2) = >>=-eq-ok (map_results (validate_transform x) a.transforms) _ h1 in
      subst
        (λ b.
          (b ≡ record a { assets = b.assets; transforms = b.transforms })
          × All IsAsset b.assets
          × All IsTransform b.transforms)
        (ok_value h2)
        (
          refl,
          map_results-All validate_asset IsAsset validate_asset-IsAsset a.assets assets e1,
          map_results-All (validate_transform x) IsTransform validate_transform-IsTransform
              a.transforms transforms e2,
        )

  body_size_positive :
      (size : ℤ)
      → is_negative size ≡ false
      → is_positive (if is_zero size then default_body_size else size) ≡ true
  body_size_positive (pos n) h = ground arith
  body_size_positive (negsuc n) h = cc

  -- A page enhancement that Validate accepts says what happens on an error in one of two ways, and
  -- has a positive bound on bodies; and where it is enabled, every asset has a path that starts
  -- with a slash, a file, and a content type with no line break, and every transform does at least
  -- one thing, matches providers that are not empty, path prefixes that start with a slash and
  -- status codes from 100 to 999, sets headers to values with no line break, removes headers
  -- with a name, and replaces texts that are not empty.
  pub validate_page_enhance_config-IsEnhancement :
      (cfg c : PageEnhanceConfig) → validate_page_enhance_config x cfg ≡ ok c → IsEnhancement c
  unfolding validate_page_enhance_config
  validate_page_enhance_config-IsEnhancement cfg c h =
      let choice =
        one_of (normalize_page_enhance_on_error x cfg.on_error) (pass_through ∷ fail_closed ∷ []) in
      let (known, h1) = passed choice unsupported_on_error _ h in
      let (size, h2) = denied (is_negative cfg.max_body_size) negative_body_size _ h1 in
      elim (Bool-cases cfg.enabled) [
        | inr off ↦ subst IsEnhancement (ok_value (skipped cfg.enabled _ _ off h2)) (record {
          on_error = known;
          body_size = body_size_positive cfg.max_body_size size;
          contents = inl off;
        })
        | inl on ↦
            let normal = normalize_enhance x cfg in
            let (same, assets, transforms) =
              validate_contents_ok normal c (taken cfg.enabled _ _ on h2) in
            record {
              on_error =
                  subst (λ c. one_of c.on_error (pass_through ∷ fail_closed ∷ []) ≡ true) (sym same)
                    known;
              body_size =
                  subst (λ c. is_positive c.max_body_size ≡ true) (sym same)
                    (body_size_positive cfg.max_body_size size);
              contents = inr (assets, transforms);
            }
      ]

  -- The value of the last key whose canonical form is the name, or what there was before.
  unfoldable pub last_value : Text → Option Text → List (Text × Text) → Option Text
  last_value name found [] = found
  last_value name found ((key, value) ∷ set) =
      last_value name
        (if text_eq (x.canonical_header (trim_space key)) name then some value else found) set

  normalize_header_key-canonical :
      (key canonical : Text)
      → normalize_header_key x key ≡ ok canonical
      → x.canonical_header (trim_space key) ≡ canonical
  unfolding normalize_header_key
  normalize_header_key-canonical key canonical h = ground arith

  lookup-normalize_set :
      (name : Text) (normalized set out : List (Text × Text))
      → normalize_set x normalized set ≡ ok out
      → lookup text_key name out ≡ last_value name (lookup text_key name normalized) set
  unfolding normalize_set last_value
  lookup-normalize_set name normalized [] out h =
      ap (λ headers. lookup text_key name headers) (sym (ok_value h))
  lookup-normalize_set name normalized ((key, value) ∷ set) out h =
      let (canonical, named, h1) = >>=-eq-ok (normalize_header_key x key) _ h in
      let (_, h2) = denied (contains_header_control value) transform_header_value _ h1 in
      let later =
        lookup-normalize_set name (insert text_key canonical value normalized) set out h2 in
      later
      ∙ ap (λ found. last_value name found set)
          (lookup-insert text_key canonical name value normalized
            ∙ ap (λ form. if text_eq form name then some value else lookup text_key name normalized)
                (sym (normalize_header_key-canonical key canonical named)))

  -- What is left of headers.set when it is accepted: under each name, the value of the key met last
  -- among those whose canonical form is the name, wherever they stand among the others, and none
  -- where there is no such key. The value depends on the order in which the keys are met.
  pub normalize_set_last :
      (name : Text) (set out : List (Text × Text))
      → normalize_set x [] set ≡ ok out
      → lookup text_key name out ≡ last_value name none set
  unfolding lookup
  normalize_set_last name set out h = lookup-normalize_set name [] set out h

-- ===== src/Tests/Enhancing.antt =====
-- The theorems on page enhancement at a concrete configuration.
use siteboost_core.Tests.Inputs.{externals}
use siteboost_core.Common.{
  ok, map_results, pos, negsuc, lookup, insert, ◌*◌, ◌≡◌, refl, true, none, List, [], ◌∷◌,
}
use siteboost_core.Text.{
  Text, text, text_eq, is_space, trim_left, push_trimmed, trim_right, trim_space, strip_prefix,
  has_prefix, trim_prefix, trim_suffix, contains, contains_any, to_lower,
}
use siteboost_core.Text.Laws.{text_key}
use siteboost_core.Text.Address.{has_char, cut, cut_last, split_bracketed, split_host_port}
use siteboost_core.Rules.{strip_port, normalize_host}
use siteboost_core.Config.Types.{PageEnhanceConfig}
use siteboost_core.Config.Names.{fail_closed}
use siteboost_core.Config.Normalizing.{switch, trim_strings, normalize_page_enhance_on_error}
use siteboost_core.Config.Enhancement.{
  contains_header_control, validate_asset, match_path_prefix, match_status_code, check_operation,
  normalize_enhance_host, normalize_header_key, match_provider, match_content_type, validate_match,
  normalize_set, validate_headers, validate_transform, validate_contents,
  validate_page_enhance_config,
}
use siteboost_core.Config.ValidEnhancement.{IsEnhancement}
use siteboost_core.Config.AcceptedEnhancement.{
  validate_page_enhance_config-IsEnhancement, last_value, normalize_set_last,
}

abbrev raw : PageEnhanceConfig
raw = record {
  enabled = true;
  on_error = text "Fail-Closed";
  max_body_size = pos 0;
  assets = record { path = text " /a.js"; file = text "a.js"; content_type = [] } ∷ [];
  transforms =
      record {
        name = text "t";
        matches = record {
          providers = text "Steam" ∷ [];
          hosts = text "*.A.b" ∷ [];
          path_prefixes = text "/p" ∷ [];
          content_types = text "text/HTML" ∷ [];
          status_codes = pos 200 ∷ [];
        };
        headers = record { set = (text "X-A", text "1") ∷ []; remove = text " X-B" ∷ [] };
        inject_head = [];
        inject_body = [];
        replace = record { old = text "o"; new = text "n"; count = negsuc 0 } ∷ [];
      }
      ∷ [];
}

abbrev checked : PageEnhanceConfig
checked = record {
  enabled = true;
  on_error = fail_closed;
  max_body_size = pos (1024 * 1024);
  assets = record { path = text "/a.js"; file = text "a.js"; content_type = [] } ∷ [];
  transforms =
      record {
        name = text "t";
        matches = record {
          providers = text "steam" ∷ [];
          hosts = text "*.a.b" ∷ [];
          path_prefixes = text "/p" ∷ [];
          content_types = text "text/html" ∷ [];
          status_codes = pos 200 ∷ [];
        };
        headers = record { set = (text "X-A", text "1") ∷ []; remove = text "X-B" ∷ [] };
        inject_head = [];
        inject_body = [];
        replace = record { old = text "o"; new = text "n"; count = negsuc 0 } ∷ [];
      }
      ∷ [];
}

raw_accepted : validate_page_enhance_config externals raw ≡ ok checked
unfolding validate_page_enhance_config normalize_page_enhance_on_error switch validate_contents
    map_results validate_asset contains_header_control validate_transform validate_match
    trim_strings match_provider normalize_enhance_host insert check_operation match_content_type
    match_path_prefix match_status_code normalize_header_key normalize_set validate_headers
    normalize_host strip_port cut cut_last has_char split_bracketed split_host_port contains
    contains_any has_prefix is_space push_trimmed strip_prefix trim_left trim_prefix trim_right
    trim_suffix trim_space text_eq to_lower
raw_accepted = refl

validate_page_enhance_config-IsEnhancement_example : IsEnhancement checked
validate_page_enhance_config-IsEnhancement_example =
    validate_page_enhance_config-IsEnhancement externals raw checked raw_accepted

-- Two keys of one form, which differ in the space around them.
abbrev headers : List (Text × Text)
headers = (text "A", text "1") ∷ (text "B", text "2") ∷ (text " A", text "3") ∷ []

headers_normalised :
    normalize_set externals [] headers ≡ ok ((text "A", text "3") ∷ (text "B", text "2") ∷ [])
unfolding normalize_set insert normalize_header_key contains_header_control contains_any trim_space
    is_space push_trimmed trim_left trim_right text_eq
headers_normalised = refl

normalize_set_last_example :
    lookup text_key (text "A") ((text "A", text "3") ∷ (text "B", text "2") ∷ [])
    ≡ last_value externals (text "A") none headers
normalize_set_last_example = normalize_set_last externals (text "A") headers _ headers_normalised

-- ===== src/Tests/HostsFile.antt =====
-- The theorems on the hosts file at concrete files.

use siteboost_core.Text.Address.{split_host_port}
use siteboost_core.Rules.{sort_slice, normalize_host}
use siteboost_core.Tests.Inputs.{externals, disk}
use siteboost_core.Hosts.{
  Entry, marker_end, crlf_to_lf, remove_managed_block, entry_line, append_managed_block,
  domain_host, collect_entries, entries_from_domains,
}
use siteboost_core.Hosts.Block.{IsPlainEntry, HasCleanLineEnds}
use siteboost_core.Hosts.Restoring.{remove-append_managed_block}
use siteboost_core.Hosts.Entries.{HasDistinctHosts, entries_from_domains-AreMapped}
use siteboost_core.Hosts.Platform.{
  Config, write_failed, no_state, done, broken, Platform, World, windows_name, validate_config,
  check_request, preflight, prepare, apply, restore,
}
use siteboost_core.Hosts.Applying.{apply_failed}
use siteboost_core.Rollback.{absent, write_state}
use siteboost_core.Text.{
  Text, text, text_eq, trim_space, trim_prefix, trim_suffix, contains, contains_any, to_lower,
}
use siteboost_core.Common.{
  ◌==◌, is_empty, All, All-of_false, ok, err, ◌≡◌, refl, ◌⊎◌, true, false, List, [], ◌∷◌, ◌++◌,
}

abbrev entry : Entry
entry = record { ip = text "127.0.0.1"; host = text "a.b" }

abbrev entries : List Entry
entries = entry ∷ []

abbrev body : Text
body = text "1 x" ++ 13 ∷ 10 ∷ []

abbrev config : Config
config = record {
  path = text "hosts";
  rollback_path = text "r";
  map_ip = text "127.0.0.1";
  entries = entries;
}

abbrev windows : Platform
windows = record { name = text "windows"; can_read = true; can_probe = true; write = done }

-- The write breaks off behind the first character.
abbrev full : Platform
full = record {
  name = text "windows";
  can_read = true;
  can_probe = true;
  write = broken (text "1");
}

abbrev world : World
world = record { hosts = body; rollback = absent }

body-HasCleanLineEnds : HasCleanLineEnds body
unfolding crlf_to_lf
body-HasCleanLineEnds = All-of_false (λ c. c == 13) (crlf_to_lf body) refl

entries-ArePlain : All IsPlainEntry entries
unfolding text_eq trim_space marker_end
entries-ArePlain = (
  record {
    no_cr = All-of_false (λ c. c == 13) (entry_line entry) refl;
    no_lf = All-of_false (λ c. c == 10) (entry_line entry) refl;
    not_end = refl;
  },
  tt,
)

preflight_passes : preflight full disk config ≡ ok tt
unfolding preflight check_request text_eq windows_name validate_config trim_space
preflight_passes = refl

apply_stops : (apply full disk config world).0 ≡ err write_failed
unfolding apply prepare check_request text_eq windows_name validate_config trim_space write_state
apply_stops = refl

apply_failed_example :
    ((apply full disk config world).1.hosts ≡ body)
    ⊎ ((write_failed ≡ write_failed)
        × (restore windows disk (apply full disk config world).1
            ≡ (err no_state, (apply full disk config world).1)))
apply_failed_example =
    apply_failed full windows disk disk config world write_failed refl apply_stops

remove-append_managed_block_example :
    remove_managed_block (append_managed_block body entries) ≡ remove_managed_block body
remove-append_managed_block_example =
    remove-append_managed_block body entries body-HasCleanLineEnds entries-ArePlain

domains_entries :
    entries_from_domains externals (text "A.b" ∷ text "a.b." ∷ []) (text "127.0.0.1") ≡ ok entries
unfolding entries_from_domains trim_space collect_entries domain_host contains normalize_host
    to_lower trim_suffix trim_prefix split_host_port contains_any sort_slice
domains_entries = refl

entries_from_domains-AreMapped_example :
    HasDistinctHosts entries
    × All (λ made. made.ip ≡ text "127.0.0.1") entries
    × (is_empty (trim_space (text "127.0.0.1")) ≡ false)
entries_from_domains-AreMapped_example =
    entries_from_domains-AreMapped externals (text "127.0.0.1") (text "A.b" ∷ text "a.b." ∷ [])
      entries domains_entries

-- ===== src/Tests/Inputs.antt =====
-- Inputs that several tests share.
use siteboost_core.SystemProxy.Windows.{RegistryCalls}
use siteboost_core.Common.{if◌then◌else◌, true, none, some, List, [], ◌∷◌}
use siteboost_core.Text.{text, text_eq}
use siteboost_core.External.{Ip, Externals}
use siteboost_core.Rules.{RuleGroup, RuleEntry, Matcher}
use siteboost_core.Rollback.{written, Disk}

abbrev pub loopback_ip : Ip
loopback_ip = 0 ∷ 0 ∷ 0 ∷ 0 ∷ 0 ∷ 0 ∷ 0 ∷ 0 ∷ 0 ∷ 0 ∷ 0xff ∷ 0xff ∷ 127 ∷ 0 ∷ 0 ∷ 1 ∷ []

-- No letters outside ASCII, no internationalised names, one URL and one address.
abbrev pub externals : Externals
externals = record {
  lower_rune = λ c. c;
  to_ascii = λ s. some s;
  url_parse = λ s. some (record { scheme = text "http"; host = text "h"; user = none });
  parse_ip = λ s. if text_eq s (text "127.0.0.1") then some loopback_ip else none;
  equal_fold = λ s t. text_eq s t;
  ip_text = λ ip. text "127.0.0.1";
  canonical_header = λ s. s;
}

abbrev pub disk : Disk
disk = record { write = written; probes = true; readable = true; removable = true }

abbrev pub groups : List RuleGroup
groups = record { name = text "g"; domains = text "*.a.b" ∷ text "c.d" ∷ [] } ∷ []

abbrev pub wildcard_entry : RuleEntry
wildcard_entry = record { group = text "g"; rule = text "*.a.b"; host = text "a.b" }

abbrev pub exact_entry : RuleEntry
exact_entry = record { group = text "g"; rule = text "c.d"; host = text "c.d" }

abbrev pub matcher : Matcher
matcher = record { exact = (text "c.d", exact_entry) ∷ []; wildcard = wildcard_entry ∷ [] }

-- Every call of the registry succeeds.
abbrev pub registry : RegistryCalls
registry = record { reads = true; opens = true; writes = λ _. true; notifies = true }

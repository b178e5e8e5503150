-- ===== src/Hosts.antt =====
-- internal/hosts/hosts.go: the managed block of the hosts file, and the entries put into it.
pub mod Lines
pub mod Block
pub mod Restoring
pub mod Entries
pub mod Platform
pub mod Ending
pub mod Applying
use siteboost_core.Common.{
  ◌==◌, if◌then◌else◌, is_empty, any, Result, ok, err, ◌>>=◌, ◌>>◌, require, ℕ, ◌*◌, Bool, true,
  false, not, ◌&&◌, ◌||◌, Option, none, some, List, [], ◌∷◌, ◌++◌, map,
}
use siteboost_core.Text.{Text, text, text_eq, text_lt, trim_right, trim_space, contains}
use siteboost_core.External.{Externals}
use siteboost_core.Rules.{CompiledRules, RuleError, sort_slice, rules, normalize_host}

pub record Entry : Type 0 where
  pub ip : Text
  pub host : Text

unfoldable pub marker_start : Text
marker_start = text "# BEGIN steam-accelerator-core"

unfoldable pub marker_end : Text
marker_end = text "# END steam-accelerator-core"

unfoldable pub notice : Text
notice = text "# Managed by steam-accelerator-core. Do not edit this block manually."

unfoldable pub starts_with_newline : Text → Bool
starts_with_newline [] = false
starts_with_newline (c ∷ s) = c == 10

-- strings.ReplaceAll(s, "\r\n", "\n"): every carriage return before a newline goes.
unfoldable pub crlf_to_lf : Text → Text
unfolding starts_with_newline
crlf_to_lf [] = []
crlf_to_lf (c ∷ s) =
    let rest = crlf_to_lf s in if c == 13 && starts_with_newline s then rest else c ∷ rest

unfoldable pub push_char : ℕ → List Text → List Text
push_char c [] = (c ∷ []) ∷ []
push_char c (line ∷ lines) = (c ∷ line) ∷ lines

-- strings.Split(s, "\n")
unfoldable pub split_lines : Text → List Text
unfolding push_char
split_lines [] = [] ∷ []
split_lines (c ∷ s) = let rest = split_lines s in if c == 10 then [] ∷ rest else push_char c rest

-- strings.Join(lines, "\n")
unfoldable pub join_lines : List Text → Text
join_lines [] = []
join_lines (line ∷ []) = line
join_lines (line ∷ next ∷ lines) = line ++ (10 ∷ join_lines (next ∷ lines))

abbrev pub is_start : Text → Bool
is_start line = text_eq (trim_space line) marker_start

abbrev pub is_end : Text → Bool
is_end line = text_eq (trim_space line) marker_end

-- inBlock behind the line.
abbrev pub next_in_block : Bool → Text → Bool
next_in_block in_block line = is_start line || (in_block && not (is_end line))

-- The loop of removeManagedBlock, with its flag inBlock.
unfoldable pub keep_outside : Bool → List Text → List Text
keep_outside in_block [] = []
keep_outside in_block (line ∷ lines) =
    let rest = keep_outside (next_in_block in_block line) lines in
    if is_start line || in_block then rest else line ∷ rest

abbrev pub is_lf : ℕ → Bool
is_lf c = c == 10

abbrev pub is_crlf : ℕ → Bool
is_crlf c = c == 13 || c == 10

abbrev pub end_line : Text → Text
end_line joined = if is_empty joined then [] else joined ++ 10 ∷ []

unfoldable pub kept_text : Text → Text
kept_text body = trim_right is_lf (join_lines (keep_outside false (split_lines (crlf_to_lf body))))

unfoldable pub remove_managed_block : Text → Text
remove_managed_block body = end_line (kept_text body)

abbrev pub entry_line : Entry → Text
entry_line entry = entry.ip ++ (32 ∷ entry.host)

abbrev pub block_lines : List Entry → List Text
block_lines entries = marker_start ∷ notice ∷ (map entry_line entries ++ marker_end ∷ [])

-- The lines that the builder writes, each with its newline.
unfoldable pub render_lines : List Text → Text
render_lines [] = []
render_lines (line ∷ lines) = line ++ (10 ∷ render_lines lines)

unfoldable pub render_block : List Entry → Text
render_block entries = render_lines (block_lines entries)

unfoldable pub append_managed_block : Text → List Entry → Text
append_managed_block original entries =
    let base = trim_right is_crlf (remove_managed_block original) in
    if is_empty base then render_block entries else base ++ (10 ∷ 10 ∷ render_block entries)

pub data HostsError : Type 0 where
  map_ip_required wildcard_domain : HostsError
  bad_domain : RuleError → HostsError

-- The comparison of sort.Slice.
unfoldable pub entry_lt : Entry → Entry → Bool
entry_lt a b = if not (text_eq a.host b.host) then text_lt a.host b.host else text_lt a.ip b.ip

abbrev pub contains_text : Text → List Text → Bool
contains_text host seen = any (λ s. text_eq s host) seen

module _ (x : Externals) where
  -- The host that a listed domain gives, if the domain is not blank.
  unfoldable pub domain_host : Text → Result HostsError (Option Text)
  domain_host raw =
      let domain = trim_space raw in
      elim (is_empty domain) [
        | true ↦ ok none
        | false ↦ elim (contains (text "*") domain) [
          | true ↦ err wildcard_domain
          | false ↦ elim (normalize_host x domain) [
            | err cause ↦ err (bad_domain cause)
            | ok host ↦ ok (some host)
          ]
        ]
      ]

  -- The loop of EntriesFromDomains; `seen` holds the hosts met so far.
  unfoldable pub collect_entries : Text → List Text → List Text → Result HostsError (List Entry)
  collect_entries map_ip seen [] = ok []
  collect_entries map_ip seen (raw ∷ domains) = elim (domain_host raw) [
    | err cause ↦ err cause
    | ok none ↦ collect_entries map_ip seen domains
    | ok (some host) ↦ elim (contains_text host seen) [
      | true ↦ collect_entries map_ip seen domains
      | false ↦ collect_entries map_ip (host ∷ seen) domains >>= λ entries.
          ok (record { ip = map_ip; host = host } ∷ entries)
    ]
  ]

  unfoldable pub entries_from_domains : List Text → Text → Result HostsError (List Entry)
  entries_from_domains domains map_ip = do
    require (not (is_empty (trim_space map_ip))) map_ip_required
    entries ← collect_entries map_ip [] domains
    ok (sort_slice entry_lt entries)

  -- The entries, and the wildcard rules that the hosts file cannot hold.
  unfoldable pub entries_from_rules :
      CompiledRules → Text → Result HostsError (List Entry) × List Text
  unfolding entries_from_domains
  entries_from_rules compiled map_ip = (
    entries_from_domains (map (λ rule. rule.host) compiled.exact) map_ip,
    map (λ rule. rule.rule) compiled.wildcard,
  )

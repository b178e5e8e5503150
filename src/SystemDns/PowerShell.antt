-- ===== src/SystemDns/PowerShell.antt =====
-- internal/systemdns/windows_platform.go: the selection of interfaces and the texts that go into the
-- PowerShell scripts. An index is a natural number.

use siteboost_core.Common.{◌==◌, if◌then◌else◌, List, [], ◌∷◌, ◌++◌, map}
use siteboost_core.Text.{Text, text}

-- strings.ReplaceAll(value, "'", "''")
unfoldable pub double_quotes : Text → Text
double_quotes [] = []
double_quotes (c ∷ s) = let rest = double_quotes s in if c == 39 then 39 ∷ 39 ∷ rest else c ∷ rest

unfoldable pub ps_quote : Text → Text
ps_quote value = 39 ∷ (double_quotes value ++ 39 ∷ [])

-- strings.Join(values, ", ")
unfoldable pub join_comma : List Text → Text
join_comma [] = []
join_comma (value ∷ []) = value
join_comma (value ∷ next ∷ values) = value ++ (44 ∷ 32 ∷ join_comma (next ∷ values))

unfoldable pub ps_string_array : List Text → Text
ps_string_array values = text "@(" ++ (join_comma (map ps_quote values) ++ text ")")

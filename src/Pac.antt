-- ===== src/Pac.antt =====
-- internal/pac/pac.go: the data of the generated script, the script's JavaScript function, and
-- HostMatches. The script's text is not modelled: `Script` holds what Generate puts into the
-- template, and `find_proxy` is the template's function over it.
pub mod Agreement
use siteboost_core.Common.{
  ltb, if◌then◌else◌, is_some, length, is_empty, any, Result, ok, err, ◌>>=◌, ◌>>◌, require, Bool,
  false, not, ◌&&◌, ◌||◌, List, [], ◌∷◌, ◌++◌,
}
use siteboost_core.Text.{Text, text, text_eq, trim_space, has_suffix, trim_suffix}
use siteboost_core.Text.Address.{split_host_port}
use siteboost_core.External.{Externals}
use siteboost_core.Rules.{CompiledRule, CompiledRules, rules, is_subdomain, normalize_host}

pub record Script : Type 0 where
  -- the keys of the object `exact`
  pub exact : List Text
  pub wildcard : List Text
  pub proxy : Text

pub data PacError : Type 0 where
  proxy_address_required invalid_proxy_address : PacError

pub data Decision : Type 0 where
  proxy : Text → Decision
  direct : Decision

-- The hosts of the compiled rules that are not empty.
unfoldable pub hosts_of : List CompiledRule → List Text
hosts_of [] = []
hosts_of (rule ∷ compiled) =
    if not (is_empty rule.host) then rule.host ∷ hosts_of compiled else hosts_of compiled

unfoldable pub script_of : Text → CompiledRules → Script
unfolding hosts_of
script_of proxy_addr compiled = record {
  exact = hosts_of compiled.exact;
  wildcard = hosts_of compiled.wildcard;
  proxy = text "PROXY " ++ proxy_addr;
}

unfoldable pub generate : Text → CompiledRules → Result PacError Script
unfolding script_of
generate proxy_addr compiled = do
  require (not (is_empty (trim_space proxy_addr))) proxy_address_required
  require (is_some (split_host_port proxy_addr)) invalid_proxy_address
  ok (script_of proxy_addr compiled)

-- A property that a JavaScript object inherits, spelled without capitals.
unfoldable pub is_inherited : Text → Bool
is_inherited host = text_eq (text "constructor") host || text_eq (text "__proto__") host

-- `exact[host]` is true: an own key, or an inherited property.
unfoldable pub exact_has : List Text → Text → Bool
unfolding is_inherited
exact_has keys host = any (λ key. text_eq host key) keys || is_inherited host

-- host.length > suffix.length and the last suffix.length characters of the host are the suffix
unfoldable pub ends_with_proper : Text → Text → Bool
ends_with_proper suffix host = ltb (length suffix) (length host) && has_suffix suffix host

-- FindProxyForURL of the template; `js_lower` is the browser's toLowerCase.
unfoldable pub find_proxy : (Text → Text) → Script → Text → Decision
unfolding exact_has ends_with_proper
find_proxy js_lower script raw =
    let host = trim_suffix (text ".") (js_lower raw) in
    if exact_has script.exact host
    then proxy script.proxy
    else if any (λ w. ends_with_proper (text "." ++ w) host) script.wildcard
    then proxy script.proxy
    else direct

-- The loops of HostMatches.
unfoldable pub matches_normalized : CompiledRules → Text → Bool
matches_normalized compiled host =
    any (λ rule. text_eq host rule.host) compiled.exact
    || any (λ rule. is_subdomain host rule.host) compiled.wildcard

unfoldable pub host_matches : Externals → CompiledRules → Text → Bool
unfolding matches_normalized
host_matches x compiled raw_host = elim (normalize_host x raw_host) [
  | err _ ↦ false
  | ok host ↦ matches_normalized compiled host
]

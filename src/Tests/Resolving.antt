-- ===== src/Tests/Resolving.antt =====
-- The theorems on the resolver at concrete answers.

use siteboost_core.Text.Address.{split_host_port}
use siteboost_core.Tests.Inputs.{loopback_ip, externals}
use siteboost_core.Resolver.{Config, keep_usable, apply_policy, get_cache, resolve}
use siteboost_core.Resolver.Policy.{AreAllowed, apply_policy-AreAllowed}
use siteboost_core.Resolver.Caching.{resolve_again}
use siteboost_core.Config.Names.{resolver_doh}
use siteboost_core.Rules.{sort_slice, normalize_host}
use siteboost_core.External.{Ip, to4}
use siteboost_core.Text.{
  Text, text, text_eq, trim_space, trim_prefix, trim_suffix, contains, contains_any, to_lower,
}
use siteboost_core.Common.{
  is_empty, ok, lookup, ℕ, ◌≤◌, ◌≡◌, refl, true, false, Option, none, some, List, [], ◌∷◌, arith,
}

abbrev config : Config
config = record {
  mode = resolver_doh;
  servers = [];
  prefer_ipv4 = true;
  prefer_ipv6 = false;
  disable_ipv6 = true;
  cache_ttl = 600;
  timeout = 5;
}

abbrev answers : List Ip
answers = loopback_ip ∷ (127 ∷ 0 ∷ 0 ∷ 1 ∷ []) ∷ (0 ∷ []) ∷ []

abbrev network : Text → Option (List Ip × ℕ)
network host = some (answers, 30)

abbrev silent : Text → Option (List Ip × ℕ)
silent host = none

apply_policy-AreAllowed_example : AreAllowed config (apply_policy config answers)
apply_policy-AreAllowed_example = apply_policy-AreAllowed config answers

host_normalised : normalize_host externals (text "A.b") ≡ ok (text "a.b")
unfolding normalize_host trim_space contains to_lower trim_suffix trim_prefix split_host_port
    contains_any
host_normalised = refl

nothing_cached : (get_cache 5 (text "a.b") []).0 ≡ none
unfolding get_cache lookup
nothing_cached = refl

answers_usable : is_empty (apply_policy config answers) ≡ false
unfolding apply_policy sort_slice keep_usable to4 text_eq
answers_usable = refl

resolve_again_example :
    (resolve externals config
        (20, 20)
        (text "A.b")
        silent
        (resolve externals config (5, 10) (text "A.b") network []).1
      ≡ resolve externals config (5, 10) (text "A.b") network [])
    × ((get_cache 41 (text "a.b") (resolve externals config (5, 10) (text "A.b") network []).1).0
        ≡ none)
    × (30 ≤ 600)
unfolding text_eq
resolve_again_example =
    resolve_again externals config 5 10 (text "A.b") (text "a.b") answers 30 network silent [] 20 41
      host_normalised refl nothing_cached refl answers_usable (omega arith) (omega arith)

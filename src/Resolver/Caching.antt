-- ===== src/Resolver/Caching.antt =====
-- The resolver's cache over time.
use siteboost_core.Rules.{normalize_host}
use siteboost_core.Resolver.{
  Config, Cache, apply_policy, get_cache, put_cache, entry_ttl, resolve_missed, resolve_name,
  resolve,
}
use siteboost_core.Common.{
  ltb, is_empty, ok, lookup, lookup-insert_self, ℕ, ◌+◌, ◌≤◌, ◌<◌, ◌≡◌, refl, ap, true, false,
  Option, none, some, List, arith,
}
use siteboost_core.Text.{Text}
use siteboost_core.Text.Laws.{text_key}
use siteboost_core.External.{Ip, Externals}

-- The lifetime of an entry is the answer's, or the configured one where the answer has none, and
-- never longer than the configured one.
entry_ttl_bound : (cfg : Config) (ttl : ℕ) → entry_ttl cfg ttl ≤ cfg.cache_ttl
entry_ttl_bound cfg ttl = ground arith

-- The entry that is found behind putCache.
lookup-put_cache :
    (stored : ℕ) (host : Text) (ips : List Ip) (ttl : ℕ) (cache : Cache)
    → lookup text_key host (put_cache stored host ips ttl cache)
      ≡ some (record { ips = ips; expire = stored + ttl })
unfolding put_cache
lookup-put_cache stored host ips ttl cache =
    lookup-insert_self text_key host (record { ips = ips; expire = stored + ttl }) cache

get_cache_live :
    (now stored : ℕ) (host : Text) (ips : List Ip) (ttl : ℕ) (cache : Cache)
    → now ≤ stored + ttl
    → get_cache now host (put_cache stored host ips ttl cache)
      ≡ (some ips, put_cache stored host ips ttl cache)
unfolding get_cache
get_cache_live now stored host ips ttl cache h =
    let live : ltb (stored + ttl) now ≡ false = ground arith in
    rw (lookup-put_cache stored host ips ttl cache, get_cache) (rw (live, get_cache) refl)

get_cache_expired :
    (now stored : ℕ) (host : Text) (ips : List Ip) (ttl : ℕ) (cache : Cache)
    → stored + ttl < now
    → (get_cache now host (put_cache stored host ips ttl cache)).0 ≡ none
unfolding get_cache
get_cache_expired now stored host ips ttl cache h =
    let over : ltb (stored + ttl) now ≡ true = ground arith in
    rw (lookup-put_cache stored host ips ttl cache, get_cache) (rw (over, get_cache) refl)

module _ (x : Externals) (cfg : Config) where
  -- What Resolve does with a fresh answer that has usable addresses.
  resolve_fresh_answer :
      (looked_up stored : ℕ) (host normalized : Text) (answers : List Ip) (ttl : ℕ)
      → (network : Text → Option (List Ip × ℕ)) (cache : Cache)
      → normalize_host x host ≡ ok normalized
      → x.parse_ip normalized ≡ none
      → (get_cache looked_up normalized cache).0 ≡ none
      → network normalized ≡ some (answers, ttl)
      → is_empty (apply_policy cfg answers) ≡ false
      → resolve x cfg (looked_up, stored) host network cache ≡ (
        ok (apply_policy cfg answers),
        put_cache stored normalized
            (apply_policy cfg answers)
            (entry_ttl cfg ttl)
            (get_cache looked_up normalized cache).1,
      )
  unfolding resolve resolve_name resolve_missed
  resolve_fresh_answer looked_up stored host normalized answers ttl network cache named no_ip missed
        answered usable =
      rw (named, resolve)
        (rw (no_ip, resolve)
          (rw (missed, resolve_name)
            (rw (answered, resolve_missed) (rw (usable, resolve_missed) refl))))

  resolve_cached :
      (looked_up stored : ℕ) (host normalized : Text) (ips : List Ip)
      → (network : Text → Option (List Ip × ℕ)) (cache : Cache)
      → normalize_host x host ≡ ok normalized
      → x.parse_ip normalized ≡ none
      → get_cache looked_up normalized cache ≡ (some ips, cache)
      → resolve x cfg (looked_up, stored) host network cache ≡ (ok ips, cache)
  unfolding resolve resolve_name
  resolve_cached looked_up stored host normalized ips network cache named no_ip hit =
      rw (named, resolve)
        (rw (no_ip, resolve) (rw (hit, resolve_name) (ap (λ r. (ok ips, r.1)) hit)))

  -- After Resolve answered a host name from the network, with addresses that the policy lets
  -- through, a Resolve of the same name that reads the clock no later than the entry's lifetime after
  -- the entry was stored gives the same addresses, whatever the network would answer then, and
  -- leaves the cache as it is; a lookup later than that finds nothing; and the lifetime is at most
  -- the configured one.
  pub resolve_again :
      (looked_up stored : ℕ) (host normalized : Text) (answers : List Ip) (ttl : ℕ)
      → (network later_network : Text → Option (List Ip × ℕ)) (cache : Cache) (now later : ℕ)
      → normalize_host x host ≡ ok normalized
      → x.parse_ip normalized ≡ none
      → (get_cache looked_up normalized cache).0 ≡ none
      → network normalized ≡ some (answers, ttl)
      → is_empty (apply_policy cfg answers) ≡ false
      → now ≤ stored + entry_ttl cfg ttl
      → stored + entry_ttl cfg ttl < later
      → (resolve x cfg
            (now, now)
            host
            later_network
            (resolve x cfg (looked_up, stored) host network cache).1
          ≡ resolve x cfg (looked_up, stored) host network cache)
        × ((get_cache later normalized (resolve x cfg (looked_up, stored) host network cache).1).0
            ≡ none)
        × (entry_ttl cfg ttl ≤ cfg.cache_ttl)
  resolve_again looked_up stored host normalized answers ttl network later_network cache now later
        named no_ip missed answered usable soon late =
      let old = (get_cache looked_up normalized cache).1 in
      let ips = apply_policy cfg answers in
      let first =
        resolve_fresh_answer looked_up stored host normalized answers ttl network cache named no_ip
          missed answered usable in
      rw first (
        resolve_cached now now host normalized ips later_network
            (put_cache stored normalized ips (entry_ttl cfg ttl) old) named no_ip
            (get_cache_live now stored normalized ips (entry_ttl cfg ttl) old soon),
        get_cache_expired later stored normalized ips (entry_ttl cfg ttl) old late,
        entry_ttl_bound cfg ttl,
      )

-- ===== src/DnsIntercept/Caching.antt =====
-- The cache: what is stored, what a lookup finds, and what holds of every entry.
use siteboost_core.DnsIntercept.Lifetimes.{OnRecords, cap_fresh}
use siteboost_core.Rules.{Matcher}
use siteboost_core.Common.{
  leb, ◌==◌, if◌then◌else◌, ==_iff, Bool-cases, Option-cases, eq_of_some_eq, All, lookup,
  lookup-insert_self, All-insert, All-delete, ◌+◌, ◌*◌, ◌≤◌, ◌<◌, ◌≡◌, refl, sym, ◌∙◌, subst, inl,
  inr, true, false, none, some, List, [], ◌∷◌, arith,
}
use siteboost_core.External.{Externals}
use siteboost_core.DnsIntercept.{
  second, rcode_success, Question, Msg, DnsLibrary, Forwarded, failed, no_response, answered,
  Config, CacheKey, CacheEntry, Server, bump, Times, cache_key_of, all_records, cap_response_ttl,
  response_ttl, remaining_seconds, cache_key, get_cache, put_cache, ask_forwarder, forward_response,
  should_forward_target_query, target_response, handle_target, is_target, handle_questions, handle,
}

-- What the cache holds: successful responses without an id.
abbrev pub IsCacheable : CacheKey × CacheEntry → Type 0
IsCacheable (key, entry) = (entry.resp.rcode ≡ rcode_success) × (entry.resp.id ≡ 0)

abbrev pub IsSound : Server → Type 0
IsSound s = All IsCacheable s.cache

module _ (x : Externals) (cfg : Config) (times : Times) (req : Msg) where
  get_cache-IsSound : (s : Server) → IsSound s → IsSound (get_cache x times req s).1
  unfolding get_cache
  get_cache-IsSound s h = elim (Option-cases (cache_key x req)) [
    | inl e ↦ rw (e, get_cache) h
    | inr (key, e) ↦ elim (Option-cases (lookup cache_key_of key s.cache)) [
      | inl missing ↦ rw (e, get_cache) (rw (missing, get_cache) h)
      | inr (entry, found) ↦ elim (Bool-cases (leb entry.expires times.looked_up)) [
        | inl over ↦
            rw (e, get_cache)
              (rw (found, get_cache) (rw over (All-delete cache_key_of IsCacheable key s.cache h)))
        | inr live ↦ rw (e, get_cache) (rw (found, get_cache) (rw live h))
      ]
    ]
  ]

  put_cache-IsSound :
      (resp : Msg) (s : Server) → IsSound s → IsSound (put_cache x cfg times req resp s)
  unfolding put_cache
  put_cache-IsSound resp s h = elim (Bool-cases (resp.rcode == rcode_success)) [
    | inr failure ↦ rw failure h
    | inl success ↦ elim (Option-cases (cache_key x req)) [
      | inl e ↦ rw success (rw (e, put_cache) h)
      | inr (key, e) ↦ elim (Bool-cases (response_ttl resp cfg.cache_ttl == 0)) [
        | inl brief ↦ rw success (rw (e, put_cache) (rw brief h))
        | inr lasting ↦ rw success (
            rw (e, put_cache)
              (rw lasting (
                All-insert cache_key_of IsCacheable key _ s.cache
                  ((==_iff resp.rcode rcode_success).0 success, refl) h)))
      ]
    ]
  ]

module _ (x : Externals) (lib : DnsLibrary) (cfg : Config) (matcher : Matcher)
    (forward : Msg → Forwarded) (times : Times) (req : Msg) where
  ask_forwarder-IsSound :
      (s : Server) → IsSound s → IsSound (ask_forwarder x lib cfg forward times req s).1
  unfolding ask_forwarder
  ask_forwarder-IsSound s h = step (forward req) refl
    where
      asked : Server
      asked = record s { forwarded_queries = bump s.forwarded_queries }

      step :
          (f : Forwarded)
          → forward req ≡ f
          → IsSound (ask_forwarder x lib cfg forward times req s).1
      step failed e = rw (e, ask_forwarder) h
      step no_response e = rw (e, ask_forwarder) h
      step (answered resp) e =
          rw (e, ask_forwarder)
            (put_cache-IsSound x cfg times req (record resp { id = req.id }) asked h)

  forward_response-IsSound :
      (s : Server) → IsSound s → IsSound (forward_response x lib cfg forward times req s).1
  unfolding forward_response
  forward_response-IsSound s h =
      let looked = get_cache-IsSound x cfg times req s h in
      elim (Option-cases (get_cache x times req s).0) [
        | inl missed ↦ rw (missed, forward_response) (ask_forwarder-IsSound _ looked)
        | inr (resp, hit) ↦ rw (hit, forward_response) looked
      ]

  target_response-IsSound :
      (q : Question) (s : Server) → IsSound s → IsSound (target_response x lib cfg req q s).1
  unfolding target_response
  target_response-IsSound q s h = ground (arith, h)

  handle_questions-IsSound :
      (qs : List Question) (s : Server)
      → IsSound s
      → IsSound (handle_questions x lib cfg matcher forward times req qs s).1
  handle_questions-IsSound [] s h = h
  handle_questions-IsSound (q ∷ qs) s h = elim (Bool-cases (is_target x matcher q)) [
    | inr other ↦ rw other (forward_response-IsSound s h)
    | inl target ↦ elim (Bool-cases (should_forward_target_query x cfg q)) [
      | inl passed ↦ rw target (unfold handle_target in rw passed (forward_response-IsSound _ h))
      | inr kept ↦ rw target (unfold handle_target in rw kept (target_response-IsSound q _ h))
    ]
  ]

  -- The cache holds successful responses only, each without an id: every query keeps this, whatever
  -- the forwarder answers, failures and nil responses included.
  pub handle-IsSound :
      (s : Server) → IsSound s → IsSound (handle x lib cfg matcher forward times req s).1
  unfolding handle
  handle-IsSound s h = handle_questions-IsSound req.question s h

-- A lookup that finds an entry.
get_cache_found :
    (x : Externals) (times : Times) (req : Msg) (s : Server) (key : CacheKey) (entry : CacheEntry)
    → cache_key x req ≡ some key
    → lookup cache_key_of key s.cache ≡ some entry
    → (get_cache x times req s).0 ≡ (
        if leb entry.expires times.looked_up
        then none
        else some (
            cap_response_ttl
              (remaining_seconds entry.expires times.capped)
              (record entry.resp { id = req.id })))
unfolding get_cache
get_cache_found x times req s key entry keyed found =
    elim (Bool-cases (leb entry.expires times.looked_up)) [
      | inl over ↦ rw (keyed, get_cache) (rw (found, get_cache) (rw over))
      | inr live ↦ rw (keyed, get_cache) (rw (found, get_cache) (rw live))
    ]

lookup-put_cache :
    (x : Externals) (cfg : Config) (times : Times) (req resp : Msg) (s : Server) (key : CacheKey)
    → cache_key x req ≡ some key
    → resp.rcode ≡ rcode_success
    → 0 < response_ttl resp cfg.cache_ttl
    → lookup cache_key_of key (put_cache x cfg times req resp s).cache
      ≡ some (record {
        resp = record resp { id = 0 };
        expires = times.stored + response_ttl resp cfg.cache_ttl;
      })
unfolding put_cache
lookup-put_cache x cfg times req resp s key keyed success lasting =
    let positive : (response_ttl resp cfg.cache_ttl == 0) ≡ false = ground arith in
    let fine : (resp.rcode == rcode_success) ≡ true = ground arith in
    rw (fine, put_cache)
      (rw (keyed, put_cache)
        (rw (positive, put_cache) (lookup-insert_self cache_key_of key _ s.cache)))

-- A successful response that may be kept for some time is found again by every request with the
-- same key until that time is over, and not from then on: the lookup gives the stored response
-- under the id of the new request, with its TTLs capped by the time that remains.
pub get_cache-put_cache :
    (x : Externals) (cfg : Config) (times later : Times) (req again resp : Msg) (s : Server)
    (key : CacheKey)
    → cache_key x req ≡ some key
    → cache_key x again ≡ some key
    → resp.rcode ≡ rcode_success
    → 0 < response_ttl resp cfg.cache_ttl
    → (get_cache x later again (put_cache x cfg times req resp s)).0 ≡ (
        if leb (times.stored + response_ttl resp cfg.cache_ttl) later.looked_up
        then none
        else some (
            cap_response_ttl
              (remaining_seconds (times.stored + response_ttl resp cfg.cache_ttl) later.capped)
              (record resp { id = again.id })))
get_cache-put_cache x cfg times later req again resp s key keyed keyed' success lasting =
    get_cache_found x later again (put_cache x cfg times req resp s) key _ keyed'
      (lookup-put_cache x cfg times req resp s key keyed success lasting)

-- A cached reply never shows a lifetime beyond the time for which its entry may be kept: each
-- record's TTL, counted from when the reply is made, ends by the expiry of the entry, if that has
-- not passed when the TTLs are capped.
pub get_cache_fresh :
    (x : Externals) (times : Times) (req resp : Msg) (s : Server) (key : CacheKey)
    (entry : CacheEntry)
    → cache_key x req ≡ some key
    → lookup cache_key_of key s.cache ≡ some entry
    → times.capped ≤ entry.expires
    → (get_cache x times req s).0 ≡ some resp
    → OnRecords (λ rr. times.capped + rr.ttl * second ≤ entry.expires) (all_records resp)
get_cache_fresh x times req resp s key entry keyed found fits hit =
    let given = sym (get_cache_found x times req s key entry keyed found) ∙ hit in
    elim (Bool-cases (leb entry.expires times.looked_up)) [
      | inl over ↦ cc (rw over at given)
      | inr live ↦
          let same : cap_response_ttl (remaining_seconds entry.expires times.capped)
                (record entry.resp { id = req.id })
              ≡ resp =
            eq_of_some_eq _ _ (rw live at given) in
          subst
            (λ m. OnRecords (λ rr. times.capped + rr.ttl * second ≤ entry.expires) (all_records m))
            same (cap_fresh entry.expires times.capped (record entry.resp { id = req.id }) fits)
    ]

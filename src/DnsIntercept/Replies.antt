-- ===== src/DnsIntercept/Replies.antt =====
-- What a client is answered.

use siteboost_core.Common.{
  Bool-cases, Option-cases, passed, ◌/◌, ◌%◌, ◌^◌, ◌≡◌, sym, ap, ◌∙◌, inl, inr, true, false, some,
  List, [], ◌∷◌, arith,
}
use siteboost_core.External.{Ip, Externals, to4}
use siteboost_core.Rules.{Matcher}
use siteboost_core.DnsIntercept.{
  type_a, class_inet, rcode_success, rcode_server_failure, Question, a, Msg, DnsLibrary, Forwarded,
  Config, Server, bump, Times, cap_response_ttl, get_cache, ask_forwarder, forward_response,
  should_forward_target_query, target_response, handle_target, is_target, handle_questions, handle,
}
use siteboost_core.DnsIntercept.Library.{IsDnsLibrary}

module _ (x : Externals) (lib : DnsLibrary) (laws : IsDnsLibrary lib) (cfg : Config)
    (matcher : Matcher) (forward : Msg → Forwarded) (times : Times) (req : Msg) where
  get_cache-id :
      (s : Server) (resp : Msg) → (get_cache x times req s).0 ≡ some resp → resp.id ≡ req.id
  unfolding get_cache cap_response_ttl
  get_cache-id s resp h = ground arith

  ask_forwarder-id : (s : Server) → (ask_forwarder x lib cfg forward times req s).0.id ≡ req.id
  unfolding ask_forwarder
  ask_forwarder-id s = ground (arith, laws.set_rcode_id req rcode_server_failure)

  forward_response-id :
      (s : Server) → (forward_response x lib cfg forward times req s).0.id ≡ req.id
  unfolding forward_response
  forward_response-id s = elim (Option-cases (get_cache x times req s).0) [
    | inl missed ↦ rw (missed, forward_response) (ask_forwarder-id (get_cache x times req s).1)
    | inr (resp, hit) ↦ rw (hit, forward_response) (get_cache-id s resp hit)
  ]

  target_response-id :
      (q : Question) (s : Server) → (target_response x lib cfg req q s).0.id ≡ req.id
  unfolding target_response
  target_response-id q s = ground (arith, laws.set_reply_id req)

  handle_target-id :
      (q : Question) (s : Server) → (handle_target x lib cfg forward times req q s).0.id ≡ req.id
  unfolding handle_target
  handle_target-id q s = elim (Bool-cases (should_forward_target_query x cfg q)) [
    | inl passed ↦ rw (passed, handle_target) (forward_response-id _)
    | inr kept ↦ rw (kept, handle_target) (target_response-id q _)
  ]

  handle_questions-id :
      (qs : List Question) (s : Server)
      → (handle_questions x lib cfg matcher forward times req qs s).0.id ≡ req.id
  handle_questions-id [] s = laws.set_reply_id req
  handle_questions-id (q ∷ qs) s = elim (Bool-cases (is_target x matcher q)) [
    | inl target ↦ rw target (handle_target-id q s)
    | inr other ↦ rw other (forward_response-id s)
  ]

  -- Whatever the query, the cache and the forwarder, the reply carries the id of the request, if
  -- the replies that the DNS library builds do.
  pub handle-id : (s : Server) → (handle x lib cfg matcher forward times req s).0.id ≡ req.id
  unfolding handle
  handle-id s = handle_questions-id req.question s

module _ (x : Externals) (lib : DnsLibrary) (cfg : Config) (matcher : Matcher) (req : Msg)
    (q : Question) (qs : List Question) (asked : req.question ≡ q ∷ qs)
    (target : is_target x matcher q ≡ true)
    (kept : should_forward_target_query x cfg q ≡ false) where
  handle_is_target_response :
      (forward : Msg → Forwarded) (times : Times) (s : Server)
      → handle x lib cfg matcher forward times req s
        ≡ target_response x lib cfg req q (record s { target_queries = bump s.target_queries })
  unfolding handle handle_target
  handle_is_target_response forward times s =
      ap (λ l. handle_questions x lib cfg matcher forward times req l s) asked ∙ rw target (rw kept)

  target_response-cache : (s : Server) → (target_response x lib cfg req q s).1.cache ≡ s.cache
  unfolding target_response
  target_response-cache s = ground arith

  target_response_reply :
      (s t : Server) → (target_response x lib cfg req q s).0 ≡ (target_response x lib cfg req q t).0
  unfolding target_response
  target_response_reply s t = ground arith

  -- A query whose first question is for a covered host, and is not an HTTPS or SVCB query of class
  -- IN that the configuration lets through, never reaches the forwarder or the cache: its reply is
  -- the same whatever the forwarder would answer, at whatever time and whatever the server holds,
  -- and the cache stays as it was.
  pub handle_target_local :
      (forward other : Msg → Forwarded) (times later : Times) (s t : Server)
      → ((handle x lib cfg matcher forward times req s).0
          ≡ (handle x lib cfg matcher other later req t).0)
        × ((handle x lib cfg matcher forward times req s).1.cache ≡ s.cache)
  handle_target_local forward other times later s t = (
    ap (λ r. r.0) (handle_is_target_response forward times s)
        ∙ target_response_reply _ _
        ∙ ap (λ r. r.0) (sym (handle_is_target_response other later t)),
    ap (λ r. r.1.cache) (handle_is_target_response forward times s) ∙ target_response-cache _,
  )

  -- If that question asks for the A record in class IN, and the mapped address is an IPv4 address, the
  -- server answers with success and exactly one record of type A and class IN: the four bytes of the
  -- mapped address under the question's own name, with the configured lifetime, which is in
  -- nanoseconds, in whole seconds modulo 2 ^ 32.
  pub handle_target_a :
      (forward : Msg → Forwarded) (times : Times) (s : Server) (ip four : Ip)
      → IsDnsLibrary lib
      → q.qclass ≡ class_inet
      → q.qtype ≡ type_a
      → cfg.map_ipv4 ≡ some ip
      → to4 ip ≡ some four
      → ((handle x lib cfg matcher forward times req s).0.answer
          ≡ some (record {
            name = q.name;
            rrtype = 1;
            class = 1;
            ttl = cfg.ttl / 1000000000 % 2 ^ 32;
            content = a four;
          })
            ∷ [])
        × ((handle x lib cfg matcher forward times req s).0.rcode ≡ rcode_success)
  unfolding target_response
  handle_target_a forward times s ip four laws inet is_a mapped printed =
      rw (handle_is_target_response forward times s)
        (ground (arith, printed, laws.set_reply_answer req, laws.set_reply_rcode req))

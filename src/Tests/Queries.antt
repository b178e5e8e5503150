-- ===== src/Tests/Queries.antt =====
-- The theorems on the DNS server at concrete queries.

use siteboost_core.Rules.{match_wildcard, normalize_host, match_host}
use siteboost_core.Text.Address.{split_host_port}
use siteboost_core.Tests.Inputs.{loopback_ip, externals, matcher}
use siteboost_core.DnsIntercept.{
  second, rcode_success, Question, a, opaque, Msg, Forwarded, failed, answered, Config, CacheKey,
  Server, Times, cache_key_of, all_records, cap_response_ttl, response_ttl, remaining_seconds,
  cache_key, get_cache, put_cache, should_forward_target_query, is_target, handle,
}
use siteboost_core.DnsIntercept.Library.{plain_library, plain_library-IsDnsLibrary}
use siteboost_core.DnsIntercept.Replies.{handle_target_local, handle_target_a}
use siteboost_core.DnsIntercept.Lifetimes.{OnRecords}
use siteboost_core.DnsIntercept.Caching.{
  IsSound, handle-IsSound, get_cache-put_cache, get_cache_fresh,
}
use siteboost_core.External.{to4}
use siteboost_core.Text.{
  text, text_eq, trim_space, has_suffix, trim_prefix, trim_suffix, contains, contains_any, to_lower,
}
use siteboost_core.Common.{
  leb, if◌then◌else◌, lookup, ℕ, ◌+◌, ◌*◌, ◌≤◌, ◌<◌, ◌≡◌, refl, true, false, none, some, [], ◌∷◌,
  arith,
}

abbrev config : Config
config = record {
  map_ipv4 = some loopback_ip;
  map_ipv6 = none;
  ttl = 60 * second;
  cache_ttl = 100 * second;
  block_https_records = true;
}

abbrev question : Question
question = record { name = text "x.a.b."; qtype = 1; qclass = 1 }

abbrev other_question : Question
other_question = record { name = text "e.f."; qtype = 1; qclass = 1 }

abbrev query_of : ℕ → Question → Msg
query_of id q = record {
  id = id;
  rcode = 0;
  authoritative = false;
  recursion_available = false;
  question = q ∷ [];
  answer = [];
  ns = [];
  extra = [];
}

abbrev request : Msg
request = query_of 7 question

abbrev other_request : Msg
other_request = query_of 7 other_question

abbrev response : Msg
response = record other_request {
  answer =
      some (record { name = text "e.f."; rrtype = 1; class = 1; ttl = 30; content = opaque [] })
      ∷ [];
}

abbrev server : Server
server = record {
  cache = [];
  target_queries = 0;
  forwarded_queries = 0;
  cache_hits = 0;
  blocked_queries = 0;
  error_queries = 0;
}

abbrev times : Times
times = record { looked_up = 0; capped = 0; stored = 0 }

abbrev later : Times
later = record { looked_up = 10 * second; capped = 10 * second; stored = 10 * second }

abbrev upstream : Msg → Forwarded
upstream msg = answered response

abbrev dead : Msg → Forwarded
dead msg = failed

question_covered : is_target externals matcher question ≡ true
unfolding match_host normalize_host trim_space trim_suffix contains to_lower trim_prefix
    split_host_port contains_any lookup match_wildcard has_suffix
question_covered = refl

question_kept : should_forward_target_query externals config question ≡ false
unfolding should_forward_target_query
question_kept = refl

handle_target_local_example :
    ((handle externals plain_library config matcher upstream times request server).0
      ≡ (handle externals plain_library config matcher dead later request server).0)
    × ((handle externals plain_library config matcher upstream times request server).1.cache ≡ [])
handle_target_local_example =
    handle_target_local externals plain_library config matcher request question [] refl
      question_covered question_kept upstream dead times later server server

handle_target_a_example :
    ((handle externals plain_library config matcher dead times request server).0.answer
      ≡ some (record {
        name = text "x.a.b.";
        rrtype = 1;
        class = 1;
        ttl = 60;
        content = a (127 ∷ 0 ∷ 0 ∷ 1 ∷ []);
      })
        ∷ [])
    × ((handle externals plain_library config matcher dead times request server).0.rcode
        ≡ rcode_success)
unfolding to4
handle_target_a_example =
    handle_target_a externals plain_library config matcher request question [] refl question_covered
      question_kept dead times server loopback_ip (127 ∷ 0 ∷ 0 ∷ 1 ∷ []) plain_library-IsDnsLibrary
      refl refl refl refl

handle-IsSound_example :
    IsSound (handle externals plain_library config matcher upstream times other_request server).1
handle-IsSound_example =
    handle-IsSound externals plain_library config matcher upstream times other_request server tt

abbrev key : CacheKey
key = record { name = text "e.f."; qtype = 1; qclass = 1 }

request_key : cache_key externals other_request ≡ some key
unfolding cache_key to_lower
request_key = refl

response_kept : 0 < response_ttl response config.cache_ttl
unfolding response_ttl
response_kept = omega arith

get_cache-put_cache_example :
    (get_cache externals later other_request
      (put_cache externals config times other_request response server)).0
    ≡ (if leb (0 + response_ttl response (100 * second)) (10 * second)
        then none
        else some (
            cap_response_ttl
              (remaining_seconds (0 + response_ttl response (100 * second)) (10 * second))
              (record response { id = 7 })))
get_cache-put_cache_example =
    get_cache-put_cache externals config times later other_request other_request response server key
      request_key request_key refl response_kept

abbrev full : Server
full = record server { cache = (key, record { resp = response; expires = 30 * second }) ∷ [] }

abbrev aged : Msg
aged = record response {
  answer =
      some (record { name = text "e.f."; rrtype = 1; class = 1; ttl = 20; content = opaque [] })
      ∷ [];
}

full_entry :
    lookup cache_key_of key full.cache ≡ some (record { resp = response; expires = 30 * second })
unfolding lookup text_eq
full_entry = refl

aged_found : (get_cache externals later other_request full).0 ≡ some aged
unfolding get_cache cache_key lookup text_eq to_lower cap_response_ttl remaining_seconds
aged_found = refl

get_cache_fresh_example :
    OnRecords (λ rr. 10 * second + rr.ttl * second ≤ 30 * second) (all_records aged)
get_cache_fresh_example =
    get_cache_fresh externals later other_request aged full key
      (record { resp = response; expires = 30 * second }) request_key full_entry (omega arith)
      aged_found

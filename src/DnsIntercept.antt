-- ===== src/DnsIntercept.antt =====
-- internal/dnsintercept/server.go: the DNS server's handling of one query, its cache and counters.
-- Durations and clock readings are natural numbers of nanoseconds. The records of the library
-- github.com/miekg/dns hold the fields that the program reads or writes.
pub mod Library
pub mod Replies
pub mod Caching
pub mod Lifetimes
pub mod Starting
use siteboost_core.Text.Laws.{text_eq_iff}
use siteboost_core.Common.{
  ltb, leb, ◌==◌, if◌then◌else◌, is_some, any, Key, lookup, insert, delete, ℕ, ◌+◌, ◌-◌, ◌*◌, ◌/◌,
  ◌%◌, ◌^◌, ◌≡◌, ◌↔◌, Bool, true, not, ◌&&◌, ◌||◌, Option, none, some, List, [], ◌∷◌, ◌++◌, map,
  arith,
}
use siteboost_core.Text.{Text, text, text_eq, trim_suffix, to_lower}
use siteboost_core.External.{Ip, Externals, to4, or_nil, to16}
use siteboost_core.Rules.{Matcher, rules, match_host}

abbrev pub second : ℕ
second = 1000000000

abbrev pub type_a : ℕ
type_a = 1

abbrev pub type_aaaa : ℕ
type_aaaa = 28

abbrev pub type_svcb : ℕ
type_svcb = 64

abbrev pub type_https : ℕ
type_https = 65

abbrev pub class_inet : ℕ
class_inet = 1

abbrev pub rcode_success : ℕ
rcode_success = 0

abbrev pub rcode_server_failure : ℕ
rcode_server_failure = 2

pub record Question : Type 0 where
  pub name : Text
  pub qtype : ℕ
  pub qclass : ℕ

pub data RecordData : Type 0 where
  a : Ip → RecordData
  aaaa : Ip → RecordData
  opaque : Text → RecordData

pub record ResourceRecord : Type 0 where
  pub name : Text
  pub rrtype : ℕ
  pub class : ℕ
  pub ttl : ℕ
  pub content : RecordData

-- A section of a message; `none` is a nil record.
abbrev pub Section : Type 0
Section = List (Option ResourceRecord)

pub record Msg : Type 0 where
  pub id : ℕ
  pub rcode : ℕ
  pub authoritative : Bool
  pub recursion_available : Bool
  pub question : List Question
  pub answer : Section
  pub ns : Section
  pub extra : Section

-- The calls of the library that build a reply: SetReply and SetRcode on a new message.
pub record DnsLibrary : Type 0 where
  pub set_reply : Msg → Msg
  pub set_rcode : Msg → ℕ → Msg

-- What Forward reports.
pub data Forwarded : Type 0 where
  failed : Forwarded
  no_response : Forwarded
  answered : Msg → Forwarded

pub record Config : Type 0 where
  pub map_ipv4 : Option Ip
  pub map_ipv6 : Option Ip
  pub ttl : ℕ
  pub cache_ttl : ℕ
  pub block_https_records : Bool

-- The key that fmt.Sprintf prints: the lower-case name, the type and the class.
pub record CacheKey : Type 0 where
  pub name : Text
  pub qtype : ℕ
  pub qclass : ℕ

pub record CacheEntry : Type 0 where
  pub resp : Msg
  pub expires : ℕ

pub record Server : Type 0 where
  pub cache : List (CacheKey × CacheEntry)
  pub target_queries : ℕ
  pub forwarded_queries : ℕ
  pub cache_hits : ℕ
  pub blocked_queries : ℕ
  pub error_queries : ℕ

-- Add(1) on an atomic.Uint64.
abbrev pub bump : ℕ → ℕ
bump n = (n + 1) % 2 ^ 64

-- The clock as one query reads it: for the cache's lookup, for the cap of the cached TTLs, and for
-- the expiry of a new entry.
pub record Times : Type 0 where
  pub looked_up : ℕ
  pub capped : ℕ
  pub stored : ℕ

abbrev pub key_eq : CacheKey → CacheKey → Bool
key_eq k j = text_eq k.name j.name && k.qtype == j.qtype && k.qclass == j.qclass

pub key_eq_iff : (k j : CacheKey) → (key_eq k j ≡ true) ↔ (k ≡ j)
key_eq_iff k j = ground (arith, text_eq_iff k.name j.name)

abbrev pub cache_key_of : Key CacheKey
cache_key_of = record { eq = key_eq; eq_iff = key_eq_iff }

abbrev pub all_records : Msg → Section
all_records m = m.answer ++ (m.ns ++ m.extra)

abbrev pub cap_record : ℕ → Option ResourceRecord → Option ResourceRecord
cap_record remaining none = none
cap_record remaining (some rr) =
    if ltb remaining rr.ttl then some (record rr { ttl = remaining }) else some rr

-- capResponseTTL
unfoldable pub cap_response_ttl : ℕ → Msg → Msg
cap_response_ttl remaining m = record m {
  answer = map (cap_record remaining) m.answer;
  ns = map (cap_record remaining) m.ns;
  extra = map (cap_record remaining) m.extra;
}

-- The loop of responseTTL: the least TTL seen so far, if any.
unfoldable pub least_ttl : Option ℕ → Section → Option ℕ
least_ttl seen [] = seen
least_ttl seen (none ∷ records) = least_ttl seen records
least_ttl none (some rr ∷ records) = least_ttl (some rr.ttl) records
least_ttl (some ttl) (some rr ∷ records) =
    least_ttl (some (if ltb rr.ttl ttl then rr.ttl else ttl)) records

unfoldable pub response_ttl : Msg → ℕ → ℕ
unfolding least_ttl
response_ttl resp configured =
    let max_ttl = if configured == 0 then 600 * second else configured in
    elim (least_ttl none (all_records resp)) [
      | none ↦ max_ttl
      | some ttl ↦ if ltb max_ttl (ttl * second) then max_ttl else ttl * second
    ]

-- uint32(d / time.Second) of the time left until `expires`, which is negative once it has passed.
unfoldable pub remaining_seconds : ℕ → ℕ → ℕ
remaining_seconds expires now =
    if leb now expires
    then (expires - now) / second % 2 ^ 32
    else (2 ^ 32 - (now - expires) / second % 2 ^ 32) % 2 ^ 32

module _ (x : Externals) where
  abbrev pub key_of_questions : List Question → Option CacheKey
  key_of_questions (q ∷ []) =
      some (record { name = to_lower x.lower_rune q.name; qtype = q.qtype; qclass = q.qclass })
  key_of_questions _ = none

  unfoldable pub cache_key : Msg → Option CacheKey
  cache_key req = key_of_questions req.question

  -- getCache
  unfoldable pub get_cache : Times → Msg → Server → Option Msg × Server
  get_cache times req s = elim (cache_key req) [
    | none ↦ (none, s)
    | some key ↦ elim (lookup cache_key_of key s.cache) [
      | none ↦ (none, s)
      | some entry ↦
          if leb entry.expires times.looked_up
          then (none, record s { cache = delete cache_key_of key s.cache })
          else (
            some (
                cap_response_ttl (remaining_seconds entry.expires times.capped)
                  (record entry.resp { id = req.id })),
            s,
          )
    ]
  ]

  -- putCache
  unfoldable pub put_cache : Config → Times → Msg → Msg → Server → Server
  put_cache cfg times req resp s =
      if not (resp.rcode == rcode_success) then s else elim (cache_key req) [
        | none ↦ s
        | some key ↦
            let ttl = response_ttl resp cfg.cache_ttl in
            if ttl == 0 then s else record s {
              cache =
                  insert cache_key_of key
                    (record { resp = record resp { id = 0 }; expires = times.stored + ttl })
                    s.cache;
            }
      ]

  -- forwardResponse behind a cache miss
  unfoldable pub ask_forwarder :
      DnsLibrary → Config → (Msg → Forwarded) → Times → Msg → Server → Msg × Server
  ask_forwarder lib cfg forward times req s =
      let asked = record s { forwarded_queries = bump s.forwarded_queries } in
      let broken = record asked { error_queries = bump asked.error_queries } in
      elim (forward req) [
        | failed ↦ (lib.set_rcode req rcode_server_failure, broken)
        | no_response ↦ (lib.set_rcode req rcode_server_failure, broken)
        | answered resp ↦
            let own = record resp { id = req.id } in (own, put_cache cfg times req own asked)
      ]

  unfoldable pub forward_response :
      DnsLibrary → Config → (Msg → Forwarded) → Times → Msg → Server → Msg × Server
  forward_response lib cfg forward times req s =
      let (cached, looked) = get_cache times req s in
      elim cached [
        | some resp ↦ (resp, record looked { cache_hits = bump looked.cache_hits })
        | none ↦ ask_forwarder lib cfg forward times req looked
      ]

  abbrev pub is_service_type : ℕ → Bool
  is_service_type qtype = qtype == type_https || qtype == type_svcb

  unfoldable pub should_forward_target_query : Config → Question → Bool
  should_forward_target_query cfg q =
      q.qclass == class_inet && is_service_type q.qtype && not cfg.block_https_records

  abbrev pub block : Server → Server
  block s = record s { blocked_queries = bump s.blocked_queries }

  abbrev pub record_ttl : Config → ℕ
  record_ttl cfg = cfg.ttl / second % 2 ^ 32

  abbrev pub mapped_record : Config → Question → ℕ → RecordData → Option ResourceRecord
  mapped_record cfg q rrtype content = some (record {
    name = q.name;
    rrtype = rrtype;
    class = class_inet;
    ttl = record_ttl cfg;
    content = content;
  })

  -- targetResponse
  unfoldable pub target_response : DnsLibrary → Config → Msg → Question → Server → Msg × Server
  target_response lib cfg req q s =
      let resp = record (lib.set_reply req) { authoritative = true; recursion_available = true } in
      if not (q.qclass == class_inet)
      then (resp, block s)
      else if q.qtype == type_a
      then elim cfg.map_ipv4 [
        | none ↦ (resp, block s)
        | some ip ↦ (
          record resp {
            answer = resp.answer ++ mapped_record cfg q type_a (a (or_nil (to4 ip))) ∷ [];
          },
          s,
        )
      ]
      else if q.qtype == type_aaaa
      then elim cfg.map_ipv6 [
        | none ↦ (resp, block s)
        | some ip ↦ (
          record resp {
            answer = resp.answer ++ mapped_record cfg q type_aaaa (aaaa (or_nil (to16 ip))) ∷ [];
          },
          s,
        )
      ]
      else if is_service_type q.qtype
      then (if cfg.block_https_records then (resp, block s) else (resp, s))
      else (resp, block s)

  -- The query for a host that the rules cover.
  unfoldable pub handle_target :
      DnsLibrary → Config → (Msg → Forwarded) → Times → Msg → Question → Server → Msg × Server
  handle_target lib cfg forward times req q s =
      let counted = record s { target_queries = bump s.target_queries } in
      if should_forward_target_query cfg q
      then forward_response lib cfg forward times req counted
      else target_response lib cfg req q counted

  abbrev pub is_target : Matcher → Question → Bool
  is_target matcher q = is_some (match_host x matcher (trim_suffix (text ".") q.name))

  abbrev pub handle_questions :
      DnsLibrary
      → Config
      → Matcher
      → (Msg → Forwarded)
      → Times
      → Msg
      → List Question
      → Server
      → Msg × Server
  handle_questions lib cfg matcher forward times req [] s = (lib.set_reply req, s)
  handle_questions lib cfg matcher forward times req (q ∷ _) s =
      if is_target matcher q
      then handle_target lib cfg forward times req q s
      else forward_response lib cfg forward times req s

  unfoldable pub handle :
      DnsLibrary → Config → Matcher → (Msg → Forwarded) → Times → Msg → Server → Msg × Server
  handle lib cfg matcher forward times req s =
      handle_questions lib cfg matcher forward times req req.question s

-- ===== src/Resolver.antt =====
-- internal/resolver/resolver.go: the IP policy, the cache and one resolution. What the network
-- answers is a parameter; durations and clock readings are natural numbers of nanoseconds.
pub mod Policy
pub mod Caching
pub mod Starting
use siteboost_core.Text.Address.{split_host_port, join_host_port}
use siteboost_core.Config.Names.{resolver_system, resolver_udp, resolver_tcp, resolver_doh}
use siteboost_core.Common.{
  ltb, ◌==◌, if◌then◌else◌, is_some, is_empty, any, Result, ok, err, lookup, insert, delete, ℕ, ◌+◌,
  ◌*◌, String, Bool, true, false, not, ◌&&◌, ◌||◌, Option, none, some, List, [], ◌∷◌, ◌++◌,
}
use siteboost_core.Text.{Text, text, text_eq, trim_left, trim_right}
use siteboost_core.Text.Laws.{text_key}
use siteboost_core.External.{Ip, Externals, to4}
use siteboost_core.Rules.{RuleError, sort_slice, normalize_host}

pub record Config : Type 0 where
  pub mode : Text
  pub servers : List Text
  pub prefer_ipv4 : Bool
  pub prefer_ipv6 : Bool
  pub disable_ipv6 : Bool
  pub cache_ttl : ℕ
  pub timeout : ℕ

pub record CacheEntry : Type 0 where
  pub ips : List Ip
  pub expire : ℕ

abbrev pub Cache : Type 0
Cache = List (Text × CacheEntry)

pub data ResolveError : Type 0 where
  bad_host : RuleError → ResolveError
  no_usable_ips : ResolveError
  lookup_failed : ResolveError

-- The address that ip.String() prints: an IPv4 address and its IPv6-mapped form print alike.
abbrev pub ip_string : Ip → Ip
ip_string ip = elim (to4 ip) [ some b ↦ b | none ↦ ip ]

abbrev pub is_ipv4 : Ip → Bool
is_ipv4 ip = is_some (to4 ip)

abbrev pub seen_ip : Ip → List Ip → Bool
seen_ip ip seen = any (λ s. text_eq s (ip_string ip)) seen

abbrev pub is_usable : Config → Ip → Bool
is_usable cfg ip = not (is_empty ip) && not (cfg.disable_ipv6 && not (is_ipv4 ip))

-- The loop of applyPolicy; `seen` holds the printed addresses met so far.
unfoldable pub keep_usable : Config → List Ip → List Ip → List Ip
keep_usable cfg seen [] = []
keep_usable cfg seen (ip ∷ ips) = elim (is_usable cfg ip && not (seen_ip ip seen)) [
  | true ↦ ip ∷ keep_usable cfg (ip_string ip ∷ seen) ips
  | false ↦ keep_usable cfg seen ips
]

abbrev pub ipv4_first : Ip → Ip → Bool
ipv4_first i j = is_ipv4 i && not (is_ipv4 j)

abbrev pub ipv6_first : Ip → Ip → Bool
ipv6_first i j = not (is_ipv4 i) && is_ipv4 j

-- `sort_slice` keeps the order of elements that compare alike, as sort.SliceStable does.
unfoldable pub apply_policy : Config → List Ip → List Ip
apply_policy cfg ips =
    let filtered = keep_usable cfg [] ips in
    let four = if cfg.prefer_ipv4 then sort_slice ipv4_first filtered else filtered in
    if cfg.prefer_ipv6 then sort_slice ipv6_first four else four

-- getCache: the addresses, and the cache without an entry that has expired.
unfoldable pub get_cache : ℕ → Text → Cache → Option (List Ip) × Cache
get_cache now host cache = elim (lookup text_key host cache) [
  | none ↦ (none, cache)
  | some entry ↦
      if ltb entry.expire now then (none, delete text_key host cache) else (some entry.ips, cache)
]

unfoldable pub put_cache : ℕ → Text → List Ip → ℕ → Cache → Cache
put_cache now host ips ttl cache =
    insert text_key host (record { ips = ips; expire = now + ttl }) cache

-- The lifetime of a new entry.
abbrev pub entry_ttl : Config → ℕ → ℕ
entry_ttl cfg ttl =
    let positive = if ttl == 0 then cfg.cache_ttl else ttl in
    if ltb cfg.cache_ttl positive then cfg.cache_ttl else positive

module _ (x : Externals) (cfg : Config) where
  -- Resolve behind a cache miss; `fresh` is what the network answers, with its lifetime.
  unfoldable pub resolve_missed :
      ℕ → Text → Option (List Ip × ℕ) → Cache → Result ResolveError (List Ip) × Cache
  resolve_missed now host none cache = (err lookup_failed, cache)
  resolve_missed now host (some (answers, ttl)) cache =
      let ips = apply_policy cfg answers in
      if is_empty ips
      then (err no_usable_ips, cache)
      else (ok ips, put_cache now host ips (entry_ttl cfg ttl) cache)

  -- Resolve for a host that is no address.
  unfoldable pub resolve_name :
      (ℕ × ℕ) → Text → (Text → Option (List Ip × ℕ)) → Cache → Result ResolveError (List Ip) × Cache
  resolve_name (looked_up, stored) host network cache =
      let (cached, looked) = get_cache looked_up host cache in
      elim cached [
        | some ips ↦ (ok ips, looked)
        | none ↦ resolve_missed stored host (network host) looked
      ]

  -- The result for a host that is an address itself.
  abbrev pub resolve_address : Ip → Result ResolveError (List Ip)
  resolve_address ip =
      let ips = apply_policy cfg (ip ∷ []) in if is_empty ips then err no_usable_ips else ok ips

  -- Resolve, with the clock as it is read for the lookup and for the new entry.
  unfoldable pub resolve :
      (ℕ × ℕ) → Text → (Text → Option (List Ip × ℕ)) → Cache → Result ResolveError (List Ip) × Cache
  resolve times host network cache = elim (normalize_host x host) [
    | err cause ↦ (err (bad_host cause), cache)
    | ok normalized ↦ elim (x.parse_ip normalized) [
      | some ip ↦ (resolve_address ip, cache)
      | none ↦ resolve_name times normalized network cache
    ]
  ]

abbrev pub min_duration : ℕ → ℕ → ℕ
min_duration a b = if a == 0 then b else if b == 0 then a else if ltb a b then a else b

abbrev pub min_positive_ttl : ℕ → ℕ → ℕ
min_positive_ttl current ttl =
    let next = ttl * 1000000000 in if current == 0 || ltb next current then next else current

-- A record of an answer section, as parseDNSResponse distinguishes them.
pub data Answer : Type 0 where
  a aaaa : Ip → ℕ → Answer
  skipped : Answer

-- The loop of parseDNSResponse for queries of type A (`v4`) or AAAA.
unfoldable pub collect_answers : Bool → List Answer → List Ip × ℕ → List Ip × ℕ
collect_answers v4 [] found = found
collect_answers v4 (a ip ttl ∷ records) (ips, least) =
    collect_answers v4 records
      (if v4 then (ips ++ ip ∷ [], min_positive_ttl least ttl) else (ips, least))
collect_answers v4 (aaaa ip ttl ∷ records) (ips, least) =
    collect_answers v4 records
      (if v4 then (ips, least) else (ips ++ ip ∷ [], min_positive_ttl least ttl))
collect_answers v4 (skipped ∷ records) found = collect_answers v4 records found

-- parseDNSResponse of a response with its code and answers.
unfoldable pub parse_dns_response : ℕ → Bool → List Answer → Option (List Ip × ℕ)
unfolding collect_answers
parse_dns_response rcode v4 records =
    if not (rcode == 0)
    then none
    else (let found = collect_answers v4 records ([], 0) in
        if is_empty found.0 then none else some found)

-- resolveByQueries, with the results of the A and the AAAA query.
unfoldable pub resolve_by_queries :
    Config → Option (List Ip × ℕ) → Option (List Ip × ℕ) → Option (List Ip × ℕ)
resolve_by_queries cfg v4 v6 =
    let add : Option (List Ip × ℕ) → List Ip × ℕ → List Ip × ℕ = λ found sum. elim found [
      | none ↦ sum
      | some (ips, ttl) ↦ (sum.0 ++ ips, min_duration sum.1 ttl)
    ] in
    let first = add v4 ([], cfg.cache_ttl) in
    let all_found = if cfg.disable_ipv6 then first else add v6 first in
    if is_empty all_found.0 then none else some all_found

-- The query of resolveDNS and resolveDoH: the answer of the first server that has one.
unfoldable pub query_servers : (Text → Option (List Ip × ℕ)) → List Text → Option (List Ip × ℕ)
query_servers query [] = none
query_servers query (server ∷ servers) = elim (query server) [
  | none ↦ query_servers query servers
  | some found ↦ some found
]

abbrev pub is_bracket : ℕ → Bool
is_bracket c = c == b'[' || c == b']'

unfoldable pub normalize_dns_server : Text → Text
normalize_dns_server server = elim (split_host_port server) [
  | some _ ↦ server
  | none ↦ join_host_port (trim_right is_bracket (trim_left is_bracket server)) (text "53")
]

-- What the network answers: the system's resolver; a DNS server by its address, for A records or
-- not; and a DoH server by its URL. A DNS answer is a response code and the records.
pub record Network : Type 0 where
  pub system : Text → Option (List Ip)
  pub exchange : Text → Text → Bool → Option (ℕ × List Answer)
  pub doh : Text → Text → Bool → Option (ℕ × List Answer)

abbrev pub parse_answer : Bool → Option (ℕ × List Answer) → Option (List Ip × ℕ)
parse_answer v4 none = none
parse_answer v4 (some (rcode, records)) = parse_dns_response rcode v4 records

-- queryDoH: only an http or https server is asked.
unfoldable pub query_doh : Externals → Network → Text → Bool → Text → Option (List Ip × ℕ)
query_doh x net host v4 server = elim (x.url_parse server) [
  | none ↦ none
  | some endpoint ↦
      if text_eq endpoint.scheme (text "http") || text_eq endpoint.scheme (text "https")
      then parse_answer v4 (net.doh server host v4)
      else none
]

unfoldable pub query_dns : Network → Text → Bool → Text → Option (List Ip × ℕ)
query_dns net host v4 server = parse_answer v4 (net.exchange (normalize_dns_server server) host v4)

unfoldable pub resolve_fresh : Externals → Config → Network → Text → Option (List Ip × ℕ)
resolve_fresh x cfg net host =
    if text_eq cfg.mode resolver_system
    then elim (net.system host) [ none ↦ none | some ips ↦ some (ips, cfg.cache_ttl) ]
    else if text_eq cfg.mode resolver_udp || text_eq cfg.mode resolver_tcp
    then resolve_by_queries cfg (query_servers (query_dns net host true) cfg.servers)
        (query_servers (query_dns net host false) cfg.servers)
    else if text_eq cfg.mode resolver_doh
    then resolve_by_queries cfg (query_servers (query_doh x net host true) cfg.servers)
        (query_servers (query_doh x net host false) cfg.servers)
    else none

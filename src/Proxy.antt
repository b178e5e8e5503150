-- ===== src/Proxy.antt =====
-- internal/proxy/server.go: the local HTTP proxy, with the decision on a host, the headers that are not
-- passed on, and the handlers of requests. What the upstream answers, and how far the connection of the
-- client can be taken over, are parameters.
pub mod Authority
pub mod Forwarding
use siteboost_core.Config.Types.{Config as AppConfig}
use siteboost_core.Common.{
  ◌==◌, if◌then◌else◌, is_some, taken, is_empty, Result, ok, err, require, ◌>>=◌, ◌>>◌, of_option,
  passed, lookup, insert, delete, ℕ, Bool, true, false, not, ◌&&◌, ◌||◌, Option, none, some, List,
  [], ◌∷◌, ◌++◌,
}
use siteboost_core.Text.{Text, text, text_eq, trim_space}
use siteboost_core.Text.Address.{split_host_port, join_host_port}
use siteboost_core.Text.Laws.{text_key}
use siteboost_core.External.{Url, Externals}
use siteboost_core.Rules.{MatchResult, Matcher, RuleError, normalize_host, match_host}
use siteboost_core.Config.Types.{Duration}
use siteboost_core.Config.Names.{non_target_reject}

-- http.Header: the values of each key, in canonical form.
abbrev pub Header : Type 0
Header = List (Text × List Text)

pub record Config : Type 0 where
  pub listen_addr : Text
  pub non_target_behavior : Text
  pub read_header_timeout : Duration
  pub idle_timeout : Duration
  pub shutdown_timeout : Duration

unfoldable pub config_from_app : AppConfig → Config
config_from_app cfg = record {
  listen_addr = cfg.proxy.listen_addr;
  non_target_behavior = cfg.proxy.non_target_behavior;
  read_header_timeout = cfg.proxy.read_header_timeout;
  idle_timeout = cfg.proxy.idle_timeout;
  shutdown_timeout = cfg.proxy.shutdown_timeout;
}

-- The fields that a request depends on, and whether there is an HTTP server.
pub record Server : Type 0 where
  pub cfg : Config
  pub matcher : Matcher
  pub serving : Bool
  pub addr : Text

unfoldable pub new_server : Config → Matcher → Server
new_server cfg matcher = record { cfg = cfg; matcher = matcher; serving = false; addr = [] }

pub data ProxyError : Type 0 where
  already_started listen_failed : ProxyError

-- Start, with the address that net.Listen gives for the configured one.
unfoldable pub start : (Text → Option Text) → Server → Result ProxyError Server
start listen s = do
  require (not s.serving) already_started
  bound ← of_option listen_failed (listen s.cfg.listen_addr)
  ok (record s { serving = true; addr = bound })

-- Stop as far as the fields go; the error of the shutdown is I/O.
unfoldable pub stop : Server → Server
stop s = record s { serving = false }

pub record Request : Type 0 where
  pub method : Text
  pub host : Text
  pub url : Option Url
  pub request_uri : Text
  pub header : Header
  pub body : Text

pub record Response : Type 0 where
  pub status : ℕ
  pub header : Header
  pub body : Text

-- What the client gets: an error page, a response, nothing, or the tunnel.
pub data Reply : Type 0 where
  url_not_absolute unsupported_scheme forbidden bad_target bad_gateway : Reply
  hijack_unsupported disconnected tunnelled : Reply
  relayed : Response → Reply

-- What goes to the upstream: a request, or the dialing of an address.
pub data Sent : Type 0 where
  nothing : Sent
  forwarded : Request → Sent
  dialled : Text → Sent

-- How taking over the connection of the client turns out.
pub data Hijack : Type 0 where
  no_hijacker hijack_failed client_wrote_early write_failed hijacked : Hijack

-- strings.Split at one character
unfoldable pub split_on : ℕ → Text → List Text
split_on c [] = [] ∷ []
split_on c (d ∷ s) = elim (split_on c s) [
  | [] ↦ []
  | part ∷ parts ↦ if d == c then [] ∷ part ∷ parts else (d ∷ part) ∷ parts
]

-- The names in one value of the Connection header.
unfoldable pub nonblank_names : List Text → List Text
nonblank_names [] = []
nonblank_names (part ∷ parts) =
    let rest = nonblank_names parts in
    if is_empty (trim_space part) then rest else trim_space part ∷ rest

unfoldable pub connection_names : List Text → List Text
connection_names [] = []
connection_names (token ∷ tokens) = nonblank_names (split_on b',' token) ++ connection_names tokens

abbrev pub hop_by_hop_names : List Text
hop_by_hop_names =
    text "Connection"
    ∷ text "Keep-Alive"
    ∷ text "Proxy-Authenticate"
    ∷ text "Proxy-Authorization"
    ∷ text "Proxy-Connection"
    ∷ text "Te"
    ∷ text "Trailer"
    ∷ text "Transfer-Encoding"
    ∷ text "Upgrade"
    ∷ []

module _ (x : Externals) where
  -- Header.Values
  unfoldable pub header_values : Text → Header → List Text
  header_values name header = elim (lookup text_key (x.canonical_header name) header) [
    | none ↦ []
    | some values ↦ values
  ]

  -- Header.Add
  unfoldable pub add_value : Text → Text → Header → Header
  add_value name value header =
      insert text_key (x.canonical_header name) (header_values name header ++ value ∷ []) header

  -- Header.Del for each name in turn
  unfoldable pub delete_headers : List Text → Header → Header
  delete_headers [] header = header
  delete_headers (name ∷ names) header =
      delete_headers names (delete text_key (x.canonical_header name) header)

  unfoldable pub remove_hop_by_hop_headers : Header → Header
  remove_hop_by_hop_headers header =
      delete_headers hop_by_hop_names
        (delete_headers (connection_names (header_values (text "Connection") header)) header)

  unfoldable pub copy_values : Text → List Text → Header → Header
  copy_values name [] dst = dst
  copy_values name (value ∷ values) dst = copy_values name values (add_value name value dst)

  unfoldable pub copy_header : Header → Header → Header
  copy_header dst [] = dst
  copy_header dst ((name, values) ∷ src) = copy_header (copy_values name values dst) src

  unfoldable pub address_with_default_port : Text → Text → Result RuleError Text
  address_with_default_port raw default_port = elim (split_host_port raw) [
    | none ↦ do normalized ← normalize_host x raw; ok (join_host_port normalized default_port)
    | some (host, port) ↦ do normalized ← normalize_host x host; ok (join_host_port normalized port)
  ]

  -- The match, if the host is allowed, and the host.
  unfoldable pub match_request_host : Server → Text → Option MatchResult × Text
  match_request_host s raw_host = elim (normalize_host x raw_host) [
    | err _ ↦ (none, raw_host)
    | ok normalized ↦ (match_host x s.matcher normalized, normalized)
  ]

  unfoldable pub is_refused : Server → Text → Bool
  is_refused s raw_host =
      not (is_some (match_request_host s raw_host).0)
      && text_eq s.cfg.non_target_behavior non_target_reject

  -- The request as it goes to the upstream, and the response as it goes to the client.
  unfoldable pub outgoing : Request → Request
  outgoing req = record req { request_uri = []; header = remove_hop_by_hop_headers req.header }

  unfoldable pub relay : Option Response → Reply
  relay none = bad_gateway
  relay (some resp) =
      relayed (record resp { header = copy_header [] (remove_hop_by_hop_headers resp.header) })

  unfoldable pub handle_http : (Request → Option Response) → Server → Request → Reply × Sent
  handle_http round_trip s req = elim req.url [
    | none ↦ (url_not_absolute, nothing)
    | some url ↦
        if is_empty url.host || is_empty url.scheme
        then (url_not_absolute, nothing)
        else if not (text_eq url.scheme (text "http") || text_eq url.scheme (text "https"))
        then (unsupported_scheme, nothing)
        else if is_refused s url.host
        then (forbidden, nothing)
        else (relay (round_trip (outgoing req)), forwarded (outgoing req))
  ]

  unfoldable pub take_over : Hijack → Reply
  take_over no_hijacker = hijack_unsupported
  take_over hijack_failed = disconnected
  take_over client_wrote_early = disconnected
  take_over write_failed = disconnected
  take_over hijacked = tunnelled

  unfoldable pub handle_connect : (Text → Bool) → Hijack → Server → Request → Reply × Sent
  handle_connect dial hijack s req =
      if is_refused s req.host
      then (forbidden, nothing)
      else elim (address_with_default_port req.host (text "443")) [
        | err _ ↦ (bad_target, nothing)
        | ok target ↦
            if dial target
            then (take_over hijack, dialled target)
            else (bad_gateway, dialled target)
      ]

  unfoldable pub serve_http :
      (Request → Option Response) → (Text → Bool) → Hijack → Server → Request → Reply × Sent
  serve_http round_trip dial hijack s req =
      if text_eq req.method (text "CONNECT")
      then handle_connect dial hijack s req
      else handle_http round_trip s req

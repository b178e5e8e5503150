-- ===== src/DnsIntercept/Starting.antt =====
-- ConfigFromApp, New and NewRawForwarder of internal/dnsintercept/server.go. The matcher and the
-- forwarder that New wants are given always.
use siteboost_core.Config.Types.{Config as AppConfig}
use siteboost_core.Resolver.{Config as ResolverConfig}
use siteboost_core.DnsIntercept.{second, Msg, Forwarded, failed, no_response, answered, Config}
use siteboost_core.Common.{
  if◌then◌else◌, is_some, is_empty, Result, ok, require, ◌>>◌, nanoseconds, or_default, ℕ, ◌*◌,
  Bool, not, ◌&&◌, ◌||◌, Option, none, some, List, [], ◌∷◌, map,
}
use siteboost_core.Text.{Text, text, text_eq, trim_space}
use siteboost_core.Text.Address.{split_host_port, join_host_port}
use siteboost_core.External.{Ip, Externals, to4, or_nil, to16}
use siteboost_core.Config.Names.{
  resolver_system, resolver_udp, resolver_tcp, resolver_doh, default_doh_servers,
}

pub record ServerConfig : Type 0 where
  pub strategy : Text
  pub listen_addr : Text
  -- the part that answering a query reads
  pub answering : Config
  pub forward_timeout : ℕ

pub data StartError : Type 0 where
  listen_addr_required map_address_required servers_required : StartError

abbrev pub mapped_ipv4 : Externals → Text → Option Ip
mapped_ipv4 x address = if is_empty address then none else to4 (or_nil (x.parse_ip address))

abbrev pub mapped_ipv6 : Externals → Text → Option Ip
mapped_ipv6 x address = if is_empty address then none else to16 (or_nil (x.parse_ip address))

unfoldable pub config_from_app : Externals → AppConfig → ServerConfig
config_from_app x cfg = record {
  strategy = cfg.dns.strategy;
  listen_addr = trim_space cfg.dns.listen_addr;
  answering = record {
    map_ipv4 = mapped_ipv4 x cfg.dns.map_ipv4;
    map_ipv6 = mapped_ipv6 x cfg.dns.map_ipv6;
    ttl = or_default (nanoseconds cfg.dns.ttl) (30 * second);
    cache_ttl = nanoseconds cfg.resolver.cache_ttl;
    block_https_records = cfg.dns.block_https_records;
  };
  forward_timeout = or_default (nanoseconds cfg.resolver.timeout) (5 * second);
}

abbrev pub with_defaults : ServerConfig → ServerConfig
with_defaults cfg = record cfg {
  answering = record cfg.answering {
    ttl = or_default cfg.answering.ttl (30 * second);
    cache_ttl = or_default cfg.answering.cache_ttl (600 * second);
  };
  forward_timeout = or_default cfg.forward_timeout (5 * second);
}

-- The configuration of the new server.
unfoldable pub new_server : ServerConfig → Result StartError ServerConfig
new_server cfg = do
  require (not (is_empty (trim_space cfg.listen_addr))) listen_addr_required
  require (is_some cfg.answering.map_ipv4 || is_some cfg.answering.map_ipv6) map_address_required
  ok (with_defaults cfg)

pub record RawForwarder : Type 0 where
  pub mode : Text
  pub servers : List Text
  pub timeout : ℕ

-- A host without a port gets port 53.
unfoldable pub with_default_dns_port : Text → Text
with_default_dns_port server = elim (split_host_port server) [
  | some _ ↦ server
  | none ↦ join_host_port server (text "53")
]

abbrev pub is_plain_dns : Text → Bool
is_plain_dns mode = text_eq mode resolver_udp || text_eq mode resolver_tcp

abbrev pub forwarder_server : Text → Text → Text
forwarder_server mode server =
    if is_plain_dns mode then with_default_dns_port (trim_space server) else trim_space server

abbrev pub forwarder_of : Text → List Text → ℕ → RawForwarder
forwarder_of mode servers timeout = record {
  mode = mode;
  servers = map (forwarder_server mode) servers;
  timeout = or_default timeout (5 * second);
}

-- What is left of NewRawForwarder once the system's resolver is replaced.
unfoldable pub build_forwarder : Text → List Text → ℕ → Result StartError RawForwarder
build_forwarder mode servers timeout = do
  require (not (is_empty servers)) servers_required
  ok (forwarder_of mode servers timeout)

abbrev pub doh_servers : Text → List Text → List Text
doh_servers mode servers =
    if text_eq mode resolver_doh && is_empty servers then default_doh_servers else servers

unfoldable pub new_raw_forwarder : ResolverConfig → Result StartError RawForwarder
new_raw_forwarder cfg =
    if is_empty cfg.mode || text_eq cfg.mode resolver_system
    then build_forwarder resolver_doh default_doh_servers cfg.timeout
    else build_forwarder cfg.mode (doh_servers cfg.mode cfg.servers) cfg.timeout

-- What a server answers to a query that is sent to it: over "udp" or "tcp", and as a DoH request.
pub record Transport : Type 0 where
  pub exchange : Text → Text → Msg → Option Msg
  pub doh : Text → Msg → Option Msg

-- forwardOne
unfoldable pub forward_one : Transport → RawForwarder → Text → Msg → Option Msg
forward_one net forwarder server req =
    if text_eq forwarder.mode resolver_tcp
    then net.exchange (text "tcp") server req
    else if text_eq forwarder.mode resolver_udp
    then net.exchange (text "udp") server req
    else if text_eq forwarder.mode resolver_doh
    then net.doh server req
    else none

-- The loop of Forward; `last` is what it returns when no server is left.
unfoldable pub forward_from : Transport → RawForwarder → List Text → Forwarded → Msg → Forwarded
forward_from net forwarder [] last req = last
forward_from net forwarder (server ∷ servers) last req =
    elim (forward_one net forwarder server req) [
      | some resp ↦ answered resp
      | none ↦ forward_from net forwarder servers failed req
    ]

-- Forward: with no server, the joined error is nil, and so is the response.
unfoldable pub forward : Transport → RawForwarder → Msg → Forwarded
forward net forwarder req = forward_from net forwarder forwarder.servers no_response req

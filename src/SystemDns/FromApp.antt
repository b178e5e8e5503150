-- ===== src/SystemDns/FromApp.antt =====
-- ConfigFromApp of internal/systemdns/systemdns.go.
use siteboost_core.Config.Types.{Config as AppConfig}
use siteboost_core.SystemDns.{
  Config, DnsError, listen_addr_syntax, not_ipv4_loopback, clean_strings, validate_config,
}
use siteboost_core.Common.{is_some, Result, ok, require, ◌>>=◌, ◌>>◌, of_option, ◌&&◌, [], ◌∷◌}
use siteboost_core.Text.Address.{split_host_port}
use siteboost_core.External.{Externals, to4, is_loopback}
use siteboost_core.Config.Intercept.{local_host}

unfoldable pub config_from_app : Externals → AppConfig → Result DnsError Config
config_from_app x cfg = do
  (host, port) ← of_option listen_addr_syntax (split_host_port cfg.dns.listen_addr)
  ip ← of_option not_ipv4_loopback (x.parse_ip (local_host x host))
  require (is_loopback ip && is_some (to4 ip)) not_ipv4_loopback
  checked (record {
    rollback_path = cfg.runtime.rollback_path;
    interfaces = clean_strings x cfg.dns.interfaces;
    server_ips = x.ip_text ip ∷ [];
  })
  where
    checked : Config → Result DnsError Config
    checked out = do validate_config x out; ok out

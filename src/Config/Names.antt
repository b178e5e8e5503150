-- ===== src/Config/Names.antt =====
-- The names that configurations are written with, and the default DoH servers.
use siteboost_core.Common.{List, [], ◌∷◌}
use siteboost_core.Text.{Text, text}

abbrev pub mode_proxy_only : Text
mode_proxy_only = text "proxy_only"

abbrev pub mode_pac : Text
mode_pac = text "pac"

abbrev pub mode_system : Text
mode_system = text "system"

abbrev pub mode_hosts : Text
mode_hosts = text "hosts"

abbrev pub mode_dns : Text
mode_dns = text "dns"

abbrev pub resolver_system : Text
resolver_system = text "system"

abbrev pub resolver_udp : Text
resolver_udp = text "udp"

abbrev pub resolver_tcp : Text
resolver_tcp = text "tcp"

abbrev pub resolver_doh : Text
resolver_doh = text "doh"

unfoldable pub default_doh_servers : List Text
default_doh_servers =
    text "https://dns.alidns.com/dns-query"
    ∷ text "https://doh.pub/dns-query"
    ∷ text "https://cloudflare-dns.com/dns-query"
    ∷ text "https://dns.google/dns-query"
    ∷ []

abbrev pub non_target_reject : Text
non_target_reject = text "reject"

abbrev pub non_target_direct : Text
non_target_direct = text "direct"

abbrev pub strategy_manual : Text
strategy_manual = text "manual"

abbrev pub strategy_system : Text
strategy_system = text "system"

abbrev pub strategy_external : Text
strategy_external = text "external"

abbrev pub pass_through : Text
pass_through = text "pass_through"

abbrev pub fail_closed : Text
fail_closed = text "fail_closed"

abbrev pub upstream_direct : Text
upstream_direct = text "direct"

abbrev pub upstream_http : Text
upstream_http = text "http"

abbrev pub upstream_socks5 : Text
upstream_socks5 = text "socks5"

abbrev pub cert_store_machine : Text
cert_store_machine = text "machine"

abbrev pub cert_store_user : Text
cert_store_user = text "user"

-- ===== src/Upstream/Starting.antt =====
-- ConfigFromApp, NewDialer and parseProxyAddress of internal/upstream/upstream.go. The resolver of the
-- direct dialer is given always.
use siteboost_core.Config.Types.{Config as AppConfig}
use siteboost_core.Upstream.Profile.{Profile, CompiledProfile, ProfileError, compile_profiles}
use siteboost_core.Common.{
  if◌then◌else◌, is_some, is_empty, Result, ok, err, require, ◌>>=◌, ◌>>◌, of_option, map_error,
  nanoseconds, or_default, ℕ, ◌*◌, not, ◌||◌, Option, none, some, List, ◌++◌, map,
}
use siteboost_core.Text.{Text, text, text_eq, trim_space, contains}
use siteboost_core.Text.Address.{split_host_port, join_host_port}
use siteboost_core.External.{Externals}
use siteboost_core.Config.Names.{upstream_direct, upstream_http, upstream_socks5}
use siteboost_core.Config.Types.{OutboundProfileConfig}
use siteboost_core.Config.Defaults.{second}

pub record Config : Type 0 where
  pub type : Text
  pub address : Text
  pub username : Text
  pub password : Text
  pub timeout : ℕ
  pub profiles : List Profile

pub data DialerError : Type 0 where
  address_required proxy_address_syntax host_required unsupported_type : DialerError
  bad_profile : ProfileError → DialerError

pub record ProxyAccess : Type 0 where
  pub proxy_addr : Text
  pub username : Text
  pub password : Text
  pub timeout : ℕ

pub data Dialer : Type 0 where
  direct_dialer : List CompiledProfile → ℕ → Dialer
  http_dialer socks5_dialer : ProxyAccess → Dialer

abbrev pub profile_of : OutboundProfileConfig → Profile
profile_of profile = record {
  match_domains = profile.match_domains;
  candidate_ips = profile.candidate_ips;
  forward_host = profile.forward_host;
  tls_server_name = profile.tls_server_name;
  ignore_tls_name_mismatch = profile.ignore_tls_name_mismatch;
}

unfoldable pub config_from_app : AppConfig → List Profile → Config
config_from_app cfg provider_profiles = record {
  type = cfg.upstream.type;
  address = cfg.upstream.address;
  username = cfg.upstream.username;
  password = cfg.upstream.password;
  timeout = nanoseconds cfg.proxy.dial_timeout;
  profiles = provider_profiles ++ map profile_of cfg.upstream.profiles;
}

abbrev pub default_port_for_scheme : Text → Text
default_port_for_scheme scheme =
    if text_eq scheme upstream_http
    then text "8080"
    else if text_eq scheme upstream_socks5
    then text "1080"
    else text "0"

-- The name and the password, each from the URL where the configuration has none.
abbrev pub user_name : Option (Text × Option Text) → Text → Text
user_name none username = username
user_name (some (name, password)) username = if is_empty username then name else username

abbrev pub user_password : Option (Text × Option Text) → Text → Text
user_password (some (name, some word)) password = if is_empty password then word else password
user_password _ password = password

abbrev pub with_port : Text → Text → Text
with_port scheme host =
    if is_some (split_host_port host)
    then host
    else join_host_port host (default_port_for_scheme scheme)

module _ (x : Externals) where
  unfoldable pub parse_proxy_address :
      Text → Text → Text → Text → Result DialerError (Text × Text × Text)
  parse_proxy_address address default_scheme username password = do
    let given = trim_space address
    require (not (is_empty given)) address_required
    let full = if contains (text "://") given then given else default_scheme ++ text "://" ++ given
    url ← of_option proxy_address_syntax (x.url_parse full)
    require (not (is_empty url.host)) host_required
    ok (
      with_port default_scheme url.host,
      user_name url.user username,
      user_password url.user password,
    )

  unfoldable pub new_proxy_access : Text → Config → Result DialerError ProxyAccess
  new_proxy_access scheme cfg = do
    (addr, username, password) ← parse_proxy_address cfg.address scheme cfg.username cfg.password
    ok (record {
      proxy_addr = addr;
      username = username;
      password = password;
      timeout = or_default cfg.timeout (30 * second);
    })

  unfoldable pub new_dialer : Config → Result DialerError Dialer
  new_dialer cfg =
      if is_empty cfg.type || text_eq cfg.type upstream_direct
      then (do
        compiled ← map_error bad_profile (compile_profiles x cfg.profiles)
        ok (direct_dialer compiled (or_default cfg.timeout (30 * second))))
      else if text_eq cfg.type upstream_http
      then (do access ← new_proxy_access upstream_http cfg; ok (http_dialer access))
      else if text_eq cfg.type upstream_socks5
      then (do access ← new_proxy_access upstream_socks5 cfg; ok (socks5_dialer access))
      else err unsupported_type

-- ===== src/Tests/Outbound.antt =====
-- The theorems on providers, outbound profiles, the resolver and the SOCKS5 messages at concrete
-- inputs.

use siteboost_core.Tests.Inputs.{loopback_ip, externals}
use siteboost_core.Provider.{unknown_provider, normalize_id, resolve_enabled}
use siteboost_core.Provider.Builtin.{Provider}
use siteboost_core.Provider.Resolving.{provider_for, IsEnabled, resolve_enabled_cases}
use siteboost_core.Upstream.Profile.{
  Profile, CompiledProfile, collect, has_effect, compile_domain, compile_candidate,
  normalize_profile_host, compile_parts, compile_profile, compile_profiles,
}
use siteboost_core.Upstream.Socks.{
  Bytes, Conn, parse_port, socks5_connect_request, read_socks5_reply,
}
use siteboost_core.Upstream.Requests.{
  domain_name, decode_request, destination, decode-socks5_connect_request, encode_reply,
  read_socks5_reply-encode_reply,
}
use siteboost_core.Rules.{normalize_host}
use siteboost_core.External.{Ip}
use siteboost_core.Text.{
  Text, text, text_eq, trim_space, trim_prefix, trim_suffix, contains, contains_any, to_lower,
}
use siteboost_core.Text.Address.{split_host_port}
use siteboost_core.Common.{
  Bool-cases, eq_of_some_eq, length, is_empty, All, In, ok, err, ◌≡◌, refl, subst, ◌⊎◌, inl, inr,
  true, false, none, some, List, [], ◌∷◌, ◌++◌, arith,
}

abbrev enabled : List Text
enabled = text " GitHub" ∷ text "steam" ∷ text "github" ∷ []

resolve_enabled_cases_example :
    ((providers : List Provider) × (resolve_enabled externals (some enabled) ≡ ok providers)
      × All
          (λ raw.
            (is_empty (normalize_id externals raw) ≡ true) ⊎ IsEnabled externals providers raw)
          enabled)
    ⊎ ((bad : Text) × (resolve_enabled externals (some enabled) ≡ err (unknown_provider bad))
        × In bad enabled
        × (provider_for externals bad ≡ none)
        × (is_empty (normalize_id externals bad) ≡ false))
resolve_enabled_cases_example = resolve_enabled_cases externals enabled

abbrev profiles : List Profile
profiles =
    record {
      match_domains = text "*.a.b" ∷ [];
      candidate_ips = text "127.0.0.1" ∷ [];
      forward_host = [];
      tls_server_name = [];
      ignore_tls_name_mismatch = false;
    }
    ∷ []

abbrev compiled : List CompiledProfile
compiled =
    record {
      match_domains = record { host = text "a.b"; wildcard = true } ∷ [];
      candidate_ips = loopback_ip ∷ [];
      forward_host = [];
      tls_server_name = [];
      ignore_tls_name_mismatch = false;
    }
    ∷ []

compile_profiles_works : compile_profiles externals profiles ≡ ok compiled
unfolding compile_profiles compile_profile compile_parts collect compile_domain trim_space contains
    normalize_host trim_prefix to_lower trim_suffix split_host_port contains_any compile_candidate
    normalize_profile_host has_effect
compile_profiles_works = refl

host_normalised : normalize_host externals (text "X.a.b") ≡ ok (text "x.a.b")
unfolding normalize_host trim_space contains to_lower trim_suffix trim_prefix split_host_port
    contains_any
host_normalised = refl

loopback_long : (s : Text) (ip : Ip) → externals.parse_ip s ≡ some ip → length ip ≡ 16
loopback_long s ip h = elim (Bool-cases (text_eq s (text "127.0.0.1"))) [
  | inl same ↦
      let e : loopback_ip ≡ ip = eq_of_some_eq loopback_ip ip (rw same at h) in
      subst (λ found. length found ≡ 16) e refl
  | inr different ↦ cc (rw different at h)
]

target_split : split_host_port (text "a.b:443") ≡ some (text "a.b", text "443")
unfolding split_host_port
target_split = refl

target_port : parse_port (text "443") ≡ some 443
unfolding parse_port
target_port = refl

decode-socks5_connect_request_example :
    (request : Bytes) × (socks5_connect_request externals (text "a.b:443") ≡ ok request)
    × (decode_request request ≡ some (destination externals (text "a.b"), 443))
decode-socks5_connect_request_example =
    decode-socks5_connect_request externals loopback_long (text "a.b:443") (text "a.b") (text "443")
      443 target_split target_port (omega arith)

abbrev conn : Conn
conn = record {
  incoming = encode_reply 0 0 (domain_name (text "ab")) 1 187 ++ 9 ∷ [];
  sent = [];
  writes = 1;
}

read_socks5_reply-encode_reply_example :
    read_socks5_reply conn ≡ (ok tt, record conn { incoming = 9 ∷ [] })
read_socks5_reply-encode_reply_example =
    read_socks5_reply-encode_reply conn (domain_name (text "ab")) 0 1 187 (9 ∷ []) tt refl

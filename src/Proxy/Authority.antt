-- ===== src/Proxy/Authority.antt =====
-- The normal form of the host of a request to the proxy of internal/proxy/server.go, with and without
-- its port.
use siteboost_core.Common.{is_empty, ◌≡◌, refl, false, none, some, [], ◌∷◌}
use siteboost_core.Text.{Text, text, trim_space, trim_prefix, trim_suffix, contains, to_lower}
use siteboost_core.Text.Address.{split_host_port}
use siteboost_core.External.{Externals}
use siteboost_core.Rules.{strip_port, normalize_host}

-- What net/http hands on as the host of a request: a name or an address, with a port or not, with
-- no scheme and no space around it.
pub record IsAuthority (raw : Text) : Type 0 where
  pub trimmed : trim_space raw ≡ raw
  pub no_scheme : contains (text "://") raw ≡ false
  pub name :
      (host port : Text)
      → split_host_port raw ≡ some (host, port)
      → (trim_space host ≡ host)
        × (contains (text "://") host ≡ false)
        × (split_host_port host ≡ none)

given_of : (raw name port : Text) → split_host_port raw ≡ some (name, port) → is_empty raw ≡ false
unfolding split_host_port
given_of [] name port parts = cc parts
given_of (c ∷ raw) name port parts = refl

stripped : (raw name port : Text) → split_host_port raw ≡ some (name, port) → strip_port raw ≡ name
unfolding strip_port
stripped raw name port parts = rw (parts, strip_port) refl

strip_port_bare : (name : Text) → split_host_port name ≡ none → strip_port name ≡ name
unfolding strip_port
strip_port_bare name bare = rw (bare, strip_port) refl

module _ (x : Externals) where
  -- The port does not matter for the normal form of an authority.
  pub normalize_host_name :
      (raw name port : Text)
      → IsAuthority raw
      → split_host_port raw ≡ some (name, port)
      → normalize_host x raw ≡ normalize_host x name
  unfolding normalize_host strip_port trim_space to_lower trim_suffix trim_prefix
  normalize_host_name raw [] port authority parts =
      rw
        (
          authority.trimmed,
          authority.no_scheme,
          given_of raw [] port parts,
          stripped raw [] port parts,
        )
        refl
  normalize_host_name raw (c ∷ name) port authority parts =
      let (trimmed, no_scheme, bare) = authority.name (c ∷ name) port parts in
      rw
        (
          authority.trimmed,
          authority.no_scheme,
          given_of raw (c ∷ name) port parts,
          stripped raw (c ∷ name) port parts,
          trimmed,
          no_scheme,
          strip_port_bare (c ∷ name) bare,
        )
        refl

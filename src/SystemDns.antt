-- ===== src/SystemDns.antt =====
-- internal/systemdns/systemdns.go: setting the system's DNS servers with a rollback state. The time
-- stamp CreatedAt and the context are not modelled; errors keep their cause.
pub mod PowerShell
pub mod Quoting
pub mod Applying
pub mod Cleaning
pub mod FromApp
use siteboost_core.Config.Names.{mode_dns}
use siteboost_core.Rollback.{
  StateFile, Disk, FileError, not_exist, write_state, read_state, remove_state,
}
use siteboost_core.Common.{
  if◌then◌else◌, is_some, length, is_empty, any, all, Result, ok, err, require, ◌>>=◌, ◌>>◌, ℕ,
  Bool, true, false, not, ◌&&◌, ◌||◌, none, some, List, [], ◌∷◌,
}
use siteboost_core.Text.{Text, text, text_eq, trim_space, to_lower}
use siteboost_core.External.{Externals, to4, is_loopback}

pub record Config : Type 0 where
  pub rollback_path : Text
  pub interfaces : List Text
  pub server_ips : List Text

pub record Outcome : Type 0 where
  pub interfaces : ℕ
  pub server_ips : List Text

pub record InterfaceState : Type 0 where
  pub interface_alias : Text
  pub interface_index : ℕ
  pub interface_guid : Text
  pub address_family : Text
  pub source : Text
  pub servers : List Text
  pub static_servers : List Text
  pub static_name_server : Text

pub record State : Type 0 where
  pub kind : Text
  pub version : ℕ
  pub os : Text
  pub mode : Text
  pub interfaces : List InterfaceState
  pub server_ips : List Text

pub data DnsError : Type 0 where
  rollback_path_required interfaces_required interface_empty : DnsError
  servers_required server_not_loopback : DnsError
  file : FileError → DnsError
  no_state other_kind other_mode other_platform : DnsError
  interface_not_found platform_failed : DnsError
  listen_addr_syntax not_ipv4_loopback : DnsError

-- A platform over the state `S` of the system: what each call reports, and the system behind it.
pub record Platform (S : Type 0) : Type 0 where
  pub name : Text
  pub snapshot : Config → S → Result DnsError State
  pub apply : Config → State → S → Result DnsError (Unit {0}) × S
  pub restore : State → S → Result DnsError (Unit {0}) × S

pub record World (S : Type 0) : Type 0 where
  pub rollback : StateFile State
  pub system : S

unfoldable pub state_kind : Text
state_kind = text "system_dns"

abbrev pub contains_key : Text → List Text → Bool
contains_key key seen = any (λ s. text_eq s key) seen

unfoldable pub complete_state : Text → Config → State → State
complete_state name cfg snapshot = record snapshot {
  kind = state_kind;
  version = 1;
  os = name;
  mode = mode_dns;
  server_ips = cfg.server_ips;
}

abbrev pub outcome_of : State → Outcome
outcome_of state = record { interfaces = length state.interfaces; server_ips = state.server_ips }

module _ (x : Externals) where
  -- The loop of cleanStrings; `seen` holds the lower-case texts met so far.
  unfoldable pub clean_from : List Text → List Text → List Text
  clean_from seen [] = []
  clean_from seen (raw ∷ values) =
      let value = trim_space raw in
      let key = to_lower x.lower_rune value in
      elim (is_empty value || contains_key key seen) [
        | true ↦ clean_from seen values
        | false ↦ value ∷ clean_from (key ∷ seen) values
      ]

  unfoldable pub clean_strings : List Text → List Text
  clean_strings values = clean_from [] values

  unfoldable pub normalize_config : Config → Config
  normalize_config cfg = record {
    rollback_path = trim_space cfg.rollback_path;
    interfaces = clean_strings cfg.interfaces;
    server_ips = clean_strings cfg.server_ips;
  }

  unfoldable pub is_loopback_server : Text → Bool
  is_loopback_server server = elim (x.parse_ip server) [
    | none ↦ false
    | some ip ↦ is_loopback ip && is_some (to4 ip)
  ]

  unfoldable pub validate_config : Config → Result DnsError (Unit {0})
  validate_config cfg = do
    require (not (is_empty (trim_space cfg.rollback_path))) rollback_path_required
    require (not (is_empty cfg.interfaces)) interfaces_required
    require (all (λ iface. not (is_empty (trim_space iface))) cfg.interfaces) interface_empty
    require (not (is_empty cfg.server_ips)) servers_required
    require (all is_loopback_server cfg.server_ips) server_not_loopback

module _ {S : Type 0} (x : Externals) (p : Platform S) (disk : Disk) where
  -- What Preflight and Apply begin with: the completed snapshot.
  unfoldable pub take_snapshot : Config → S → Result DnsError State
  take_snapshot cfg system = do
    let normalized = normalize_config x cfg
    validate_config x normalized
    snapshot ← p.snapshot normalized system
    ok (complete_state p.name normalized snapshot)

  -- PreflightWithPlatform
  unfoldable pub preflight : Config → S → Result DnsError Outcome
  preflight cfg system = take_snapshot cfg system >>= λ state. ok (outcome_of state)

  -- ApplyWithPlatform; the outcome that it returns beside an error of the platform is not modelled.
  unfoldable pub apply : Config → World S → Result DnsError Outcome × World S
  apply cfg w = elim (take_snapshot cfg w.system) [
    | err cause ↦ (err cause, w)
    | ok state ↦
        let normalized = normalize_config x cfg in
        let (outcome, left) = write_state disk normalized.rollback_path state w.rollback in
        elim outcome [
          | err cause ↦ (err (file cause), record w { rollback = left })
          | ok _ ↦
              let (done, changed) = p.apply normalized state w.system in
              ((done >>= λ _. ok (outcome_of state)), record { rollback = left; system = changed })
        ]
  ]

  unfoldable pub check_state : State → Result DnsError State
  check_state state = do
    require (is_empty state.kind || text_eq state.kind state_kind) other_kind
    require (is_empty state.mode || text_eq state.mode mode_dns) other_mode
    require (is_empty state.os || text_eq state.os p.name) other_platform
    ok state

  unfoldable pub read_checked : World S → Result DnsError State
  read_checked w = elim (read_state disk w.rollback) [
    | err not_exist ↦ err no_state
    | err cause ↦ err (file cause)
    | ok state ↦ check_state state
  ]

  -- RestoreWithPlatform
  unfoldable pub restore : World S → Result DnsError Outcome × World S
  restore w = elim (read_checked w) [
    | err cause ↦ (err cause, w)
    | ok state ↦
        let (done, changed) = p.restore state w.system in
        elim done [
          | err cause ↦ (err cause, record w { system = changed })
          | ok _ ↦ elim (remove_state disk w.rollback) [
            | err cause ↦ (err (file cause), record w { system = changed })
            | ok gone ↦ (ok (outcome_of state), record { rollback = gone; system = changed })
          ]
        ]
  ]

  -- HasState
  unfoldable pub has_state : Text → StateFile State → Bool
  has_state path rollback =
      if is_empty (trim_space path) then false else elim (read_state disk rollback) [
        | err _ ↦ false
        | ok state ↦ text_eq state.kind state_kind || text_eq state.mode mode_dns
      ]

-- ===== src/SystemProxy.antt =====
-- internal/systemproxy/systemproxy.go: setting the system proxy with a rollback state.
-- The time stamp CreatedAt and the context are not modelled; errors keep their cause.
pub mod Windows
pub mod Registry
pub mod Applying
use siteboost_core.Config.Names.{mode_pac, mode_system}
use siteboost_core.Common.{
  if◌then◌else◌, is_some, is_empty, Result, ok, err, require, ◌>>=◌, ◌>>◌, of_option, ℕ, Bool,
  false, not, ◌&&◌, Option, List,
}
use siteboost_core.Text.{Text, text, text_eq, trim_space}
use siteboost_core.Text.Address.{split_host_port}
use siteboost_core.External.{Externals}
use siteboost_core.Rollback.{
  StateFile, Disk, FileError, not_exist, write_state, read_state, remove_state,
}

pub record Config : Type 0 where
  pub mode : Text
  pub proxy_addr : Text
  pub pac_url : Text
  pub rollback_path : Text
  pub services : List Text

-- `none` stands for Exists being false.
pub record WindowsState : Type 0 where
  pub proxy_enable : Option ℕ
  pub proxy_server : Option Text
  pub auto_config_url : Option Text

pub record MacosProxyState : Type 0 where
  pub enabled : Bool
  pub server : Text
  pub port : Text
  pub authenticated : Bool

pub record MacosAutoState : Type 0 where
  pub enabled : Bool
  pub url : Text

pub record MacosServiceState : Type 0 where
  pub name : Text
  pub web : MacosProxyState
  pub secure : MacosProxyState
  pub auto : MacosAutoState

pub record State : Type 0 where
  pub version : ℕ
  pub os : Text
  pub mode : Text
  pub proxy_addr : Text
  pub pac_url : Text
  pub services : List Text
  pub windows : Option WindowsState
  pub macos : Option (List MacosServiceState)

pub data ProxyError : Type 0 where
  rollback_path_required pac_url_required pac_url_invalid : ProxyError
  proxy_addr_invalid unsupported_mode : ProxyError
  file : FileError → ProxyError
  no_state other_platform : ProxyError
  platform_failed : ProxyError

-- A platform over the state `S` of the system: what each call reports, and the system behind it.
pub record Platform (S : Type 0) : Type 0 where
  pub name : Text
  pub snapshot : Config → S → Result ProxyError State
  pub apply_pac : Config → S → Result ProxyError (Unit {0}) × S
  pub apply_system : Config → S → Result ProxyError (Unit {0}) × S
  pub restore : State → S → Result ProxyError (Unit {0}) × S

pub record World (S : Type 0) : Type 0 where
  pub rollback : StateFile State
  pub system : S

unfoldable pub validate_config : Externals → Config → Result ProxyError (Unit {0})
validate_config x cfg = do
  require (not (is_empty (trim_space cfg.rollback_path))) rollback_path_required
  if text_eq cfg.mode mode_pac
      then (do
        require (not (is_empty (trim_space cfg.pac_url))) pac_url_required
        url ← of_option pac_url_invalid (x.url_parse cfg.pac_url)
        require (text_eq url.scheme (text "http") && not (is_empty url.host)) pac_url_invalid)
      else if text_eq cfg.mode mode_system
      then require (is_some (split_host_port cfg.proxy_addr)) proxy_addr_invalid
      else err unsupported_mode

module _ {S : Type 0} (x : Externals) (p : Platform S) (disk : Disk) where
  -- The state that is written: the snapshot with the configuration's fields.
  unfoldable pub complete_state : Config → State → State
  complete_state cfg snapshot = record snapshot {
    version = 1;
    os = p.name;
    mode = cfg.mode;
    proxy_addr = cfg.proxy_addr;
    pac_url = cfg.pac_url;
    services = cfg.services;
  }

  unfoldable pub apply_mode : Config → S → Result ProxyError (Unit {0}) × S
  apply_mode cfg system =
      if text_eq cfg.mode mode_pac
      then p.apply_pac cfg system
      else if text_eq cfg.mode mode_system
      then p.apply_system cfg system
      else (err unsupported_mode, system)

  -- The state to be saved before the system changes.
  unfoldable pub prepare : Config → World S → Result ProxyError State
  unfolding complete_state
  prepare cfg w = do
    validate_config x cfg
    snapshot ← p.snapshot cfg w.system
    ok (complete_state cfg snapshot)

  -- ApplyWithPlatform
  unfoldable pub apply : Config → World S → Result ProxyError (Unit {0}) × World S
  unfolding apply_mode
  apply cfg w = elim (prepare cfg w) [
    | err e ↦ (err e, w)
    | ok state ↦
        let (outcome, left) = write_state disk cfg.rollback_path state w.rollback in
        elim outcome [
          | err e ↦ (err (file e), record w { rollback = left })
          | ok _ ↦
              let (done, changed) = apply_mode cfg w.system in
              (done, record { rollback = left; system = changed })
        ]
  ]

  unfoldable pub check_platform : State → Result ProxyError State
  check_platform state =
      if not (is_empty state.os) && not (text_eq state.os p.name)
      then err other_platform
      else ok state

  unfoldable pub read_checked : World S → Result ProxyError State
  unfolding read_state check_platform
  read_checked w = elim (read_state disk w.rollback) [
    | err not_exist ↦ err no_state
    | err e ↦ err (file e)
    | ok state ↦ check_platform state
  ]

  -- RestoreWithPlatform
  unfoldable pub restore : World S → Result ProxyError (Unit {0}) × World S
  unfolding read_checked remove_state
  restore w = elim (read_checked w) [
    | err e ↦ (err e, w)
    | ok state ↦
        let (outcome, changed) = p.restore state w.system in
        elim outcome [
          | err e ↦ (err e, record w { system = changed })
          | ok _ ↦ elim (remove_state disk w.rollback) [
            | err e ↦ (err (file e), record w { system = changed })
            | ok gone ↦ (ok tt, record { rollback = gone; system = changed })
          ]
        ]
  ]

-- ===== src/Hosts/Platform.antt =====
-- internal/hosts/hosts.go: Preflight, Apply, Restore and HasState over a platform. The context and
-- the time stamp CreatedAt are not modelled; one hosts file stands for the file at the given path.
use siteboost_core.Hosts.{Entry, remove_managed_block, append_managed_block}
use siteboost_core.Config.Names.{mode_hosts}
use siteboost_core.Rollback.{
  StateFile, Disk, FileError, not_exist, io_failed, write_state, read_state, remove_state,
}
use siteboost_core.Text.{Text, text, text_eq, trim_space}
use siteboost_core.Common.{
  if◌then◌else◌, is_empty, Result, ok, err, require, ◌>>◌, ℕ, Bool, false, not, ◌||◌, List,
}

pub record Config : Type 0 where
  pub path : Text
  pub rollback_path : Text
  pub map_ip : Text
  pub entries : List Entry

pub record State : Type 0 where
  pub kind : Text
  pub version : ℕ
  pub os : Text
  pub mode : Text
  pub path : Text
  pub map_ip : Text
  pub entries : List Entry

pub data ApplyError : Type 0 where
  unsupported_platform hosts_path_required no_rollback_path : ApplyError
  no_map_ip no_entries : ApplyError
  read_failed write_failed : ApplyError
  rollback_failed : FileError → ApplyError
  no_state other_os : ApplyError

-- How WriteFile turns out: done, or an error with the text that it leaves in the hosts file.
pub data FileWrite : Type 0 where
  done : FileWrite
  broken : Text → FileWrite

-- What the platform reports: its name, whether the hosts file can be read, whether CheckWritable
-- succeeds, and how WriteFile turns out.
pub record Platform : Type 0 where
  pub name : Text
  pub can_read : Bool
  pub can_probe : Bool
  pub write : FileWrite

-- The text of the hosts file and the rollback file.
pub record World : Type 0 where
  pub hosts : Text
  pub rollback : StateFile State

unfoldable pub state_kind : Text
state_kind = text "hosts"

unfoldable pub windows_name : Text
windows_name = text "windows"

unfoldable pub validate_config : Config → Result ApplyError (Unit {0})
validate_config cfg = do
  require (not (is_empty (trim_space cfg.path))) hosts_path_required
  require (not (is_empty (trim_space cfg.rollback_path))) no_rollback_path
  require (not (is_empty (trim_space cfg.map_ip))) no_map_ip
  require (not (is_empty cfg.entries)) no_entries

abbrev pub is_windows : Text → Bool
is_windows name = text_eq name windows_name

-- The guards that Preflight and Apply begin with, on the platform with this name.
unfoldable pub check_request : Text → Config → Result ApplyError (Unit {0})
check_request name cfg = require (is_windows name) unsupported_platform >> validate_config cfg

unfoldable pub state_of : Text → Config → State
state_of name cfg = record {
  kind = state_kind;
  version = 1;
  os = name;
  mode = mode_hosts;
  path = cfg.path;
  map_ip = cfg.map_ip;
  entries = cfg.entries;
}

-- `_ = RemoveState(path)`: a failure is ignored.
unfoldable pub forget_state : Disk → StateFile State → StateFile State
forget_state disk file = elim (remove_state disk file) [ ok gone ↦ gone | err _ ↦ file ]

abbrev pub lift_rollback : {A : Type 0} → Result FileError A → Result ApplyError A
lift_rollback (ok v) = ok v
lift_rollback (err e) = err (rollback_failed e)

-- A state of another component is refused only if both its kind and its mode say so.
unfoldable pub is_hosts_state : State → Bool
is_hosts_state state = text_eq state.kind state_kind || text_eq state.mode mode_hosts

unfoldable pub check_state : Text → State → Result ApplyError State
check_state name state = do
  require (is_hosts_state state) no_state
  require (is_windows name) unsupported_platform
  require (is_empty state.os || text_eq state.os name) other_os
  ok state

module _ (p : Platform) (disk : Disk) where
  -- PreflightWithPlatform
  unfoldable pub preflight : Config → Result ApplyError (Unit {0})
  preflight cfg = do
    check_request p.name cfg
    require p.can_read read_failed
    require p.can_probe write_failed
    require disk.probes (rollback_failed io_failed)

  -- What Apply does before it writes the rollback file.
  unfoldable pub prepare : Config → Result ApplyError State
  prepare cfg = do
    check_request p.name cfg
    require p.can_read read_failed
    ok (state_of p.name cfg)

  -- ApplyWithPlatform
  unfoldable pub apply : Config → World → Result ApplyError (Unit {0}) × World
  apply cfg w = elim (prepare cfg) [
    | err e ↦ (err e, w)
    | ok state ↦
        let (outcome, file) = write_state disk cfg.rollback_path state w.rollback in
        elim outcome [
          | err e ↦ (err (rollback_failed e), record w { rollback = file })
          | ok _ ↦ elim p.write [
            | broken left ↦
                (err write_failed, record { hosts = left; rollback = forget_state disk file })
            | done ↦ (
              ok tt,
              record { hosts = append_managed_block w.hosts cfg.entries; rollback = file },
            )
          ]
        ]
  ]

  unfoldable pub read_checked : World → Result ApplyError State
  read_checked w = elim (read_state disk w.rollback) [
    | err not_exist ↦ err no_state
    | err e ↦ err (rollback_failed e)
    | ok state ↦ check_state p.name state
  ]

  -- RestoreWithPlatform
  unfoldable pub restore : World → Result ApplyError (Unit {0}) × World
  restore w = elim (read_checked w) [
    | err e ↦ (err e, w)
    | ok _ ↦ if not p.can_read then (err read_failed, w) else elim p.write [
      | broken left ↦ (err write_failed, record w { hosts = left })
      | done ↦
          let restored = record w { hosts = remove_managed_block w.hosts } in
          elim (remove_state disk w.rollback) [
            | err e ↦ (err (rollback_failed e), restored)
            | ok gone ↦ (ok tt, record restored { rollback = gone })
          ]
    ]
  ]

  -- HasState
  unfoldable pub has_state : Text → StateFile State → Bool
  has_state path file =
      if is_empty (trim_space path)
      then false
      else elim (read_state disk file) [ err _ ↦ false | ok state ↦ is_hosts_state state ]

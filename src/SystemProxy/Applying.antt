-- ===== src/SystemProxy/Applying.antt =====
-- Apply and Restore against each other.
use siteboost_core.SystemProxy.{
  Config, WindowsState, State, ProxyError, file, other_platform, Platform, World, validate_config,
  complete_state, apply_mode, prepare, apply, check_platform, read_checked, restore,
}
use siteboost_core.SystemProxy.Windows.{
  proxy_enable_value, proxy_server_value, auto_config_value, RegistryCalls, windows_snapshot,
  write_values, with_key, registry_apply_pac, registry_apply_system, windows_platform,
}
use siteboost_core.SystemProxy.Registry.{AllSucceed, IsDword, registry_restore_same}
use siteboost_core.Common.{
  Bool-cases, taken, is_empty, ok, err, Result-cases, >>=-eq-ok, ◌≡◌, refl, sym, ap, ◌∙◌, ◌≢◌, ◌⊎◌,
  inl, inr, true, false, ◌||◌, arith,
}
use siteboost_core.Text.{text, text_eq, trim_space}
use siteboost_core.Text.Laws.{text_eq_refl, text_eq_iff}
use siteboost_core.External.{Externals}
use siteboost_core.Rollback.{
  absent, stored, written, Disk, read_state, remove_state, write_state-cases, write_state_written,
}
use siteboost_core.Config.Names.{mode_pac, mode_system}

-- The rollback file can be written, read and removed.
pub record IsWorking (disk : Disk) : Type 0 where
  pub write : disk.write ≡ written
  pub readable : disk.readable ≡ true
  pub removable : disk.removable ≡ true

module _ {S : Type 0} (x : Externals) (p : Platform S) (disk : Disk) where
  -- What Apply prepares: the error, or the completed snapshot.
  prepare-cases :
      (cfg : Config) (w : World S)
      → ((e : ProxyError) × (prepare x p disk cfg w ≡ err e))
        ⊎ ((snapshot : State) × (p.snapshot cfg w.system ≡ ok snapshot)
            × (prepare x p disk cfg w ≡ ok (complete_state x p disk cfg snapshot)))
  unfolding prepare
  prepare-cases cfg w = elim (Result-cases (prepare x p disk cfg w)) [
    | inr (e, failed) ↦ inl (e, failed)
    | inl (state, done) ↦
        let (_, _, later) = >>=-eq-ok (validate_config x cfg) _ done in
        let (snapshot, taken, last) = >>=-eq-ok (p.snapshot cfg w.system) _ later in
        inr (snapshot, taken, done ∙ sym last)
  ]

  -- Apply reports an error and leaves the system as it was, or the rollback file holds the snapshot
  -- of the system from before, completed with the configuration, also where the change of the system
  -- fails half way. So no change of the system is made without its state being saved.
  pub apply_saves_first :
      (cfg : Config) (w : World S)
      → ((e : ProxyError) × ((apply x p disk cfg w).0 ≡ err e)
          × ((apply x p disk cfg w).1.system ≡ w.system))
        ⊎ ((snapshot : State) × (p.snapshot cfg w.system ≡ ok snapshot)
            × ((apply x p disk cfg w).1.rollback ≡ stored (complete_state x p disk cfg snapshot)))
  unfolding apply
  apply_saves_first cfg w = elim (prepare-cases cfg w) [
    | inl (e, failed) ↦ inl (e, rw (failed, apply) refl, rw (failed, apply) refl)
    | inr (snapshot, taken, done) ↦
        let state = complete_state x p disk cfg snapshot in
        elim (write_state-cases disk cfg.rollback_path state w.rollback) [
          | inl (e, left, failed) ↦ inl (
            file e,
            rw (done, apply) (rw (failed, apply) refl),
            rw (done, apply) (rw (failed, apply) refl),
          )
          | inr saved ↦
              inr (snapshot, taken, rw (done, apply) (rw (saved, apply) (ap (λ r. r.1) saved)))
        ]
  ]

  read_checked-stored :
      (w : World S) (state : State)
      → w.rollback ≡ stored state
      → disk.readable ≡ true
      → text_eq state.os p.name ≡ true
      → read_checked x p disk w ≡ ok state
  unfolding read_checked read_state check_platform
  read_checked-stored w state found readable here = rw (found, readable, here) (ground arith)

  -- Restore of a state of this platform, which the platform brings back.
  restore_done :
      (w : World S) (state : State) (system : S)
      → w.rollback ≡ stored state
      → disk.readable ≡ true
      → disk.removable ≡ true
      → text_eq state.os p.name ≡ true
      → p.restore state w.system ≡ (ok tt, system)
      → restore x p disk w ≡ (ok tt, record { rollback = absent; system = system })
  unfolding restore
  restore_done w state system found readable removable here back =
      let gone : remove_state disk w.rollback ≡ ok absent =
        rw (found, remove_state) (rw (removable, remove_state) refl) in
      let accepted = read_checked-stored w state found readable here in
      rw (accepted, restore)
        (rw (back, restore)
          (rw (gone, restore) (ap (λ r. (ok tt, record { rollback = absent; system = r.1 })) back)))

  -- Restore changes nothing, and reports it, where the state was written on another platform.
  pub restore_other_platform :
      (w : World S) (state : State)
      → w.rollback ≡ stored state
      → disk.readable ≡ true
      → is_empty state.os ≡ false
      → state.os ≢ p.name
      → restore x p disk w ≡ (err other_platform, w)
  unfolding restore read_checked check_platform read_state
  restore_other_platform w state saved readable named other =
      ground (arith, text_eq_iff state.os p.name)

validate_config_parts :
    (x : Externals) (cfg : Config)
    → validate_config x cfg ≡ ok tt
    → (is_empty (trim_space cfg.rollback_path) ≡ false)
      × ((text_eq cfg.mode mode_pac || text_eq cfg.mode mode_system) ≡ true)
unfolding validate_config
validate_config_parts x cfg valid = ground arith

-- The state that Apply saves on Windows.
abbrev saved_state : Externals → RegistryCalls → Disk → Config → WindowsState → State
saved_state x c disk cfg key = complete_state x (windows_platform c) disk cfg (windows_snapshot key)

module _ (x : Externals) (c : RegistryCalls) (disk : Disk) (cfg : Config) (w : World WindowsState)
    (valid : validate_config x cfg ≡ ok tt) (reads : c.reads ≡ true)
    (writes : disk.write ≡ written) where
  windows_prepare :
      prepare x (windows_platform c) disk cfg w ≡ ok (saved_state x c disk cfg w.system)
  unfolding prepare
  windows_prepare = rw (valid, reads)

  -- Apply behind the snapshot: the state is saved, and the change of the system turns out somehow.
  windows_saved : (apply x (windows_platform c) disk cfg w) ≡ (
    (apply_mode x (windows_platform c) disk cfg w.system).0,
    record {
      rollback = stored (saved_state x c disk cfg w.system);
      system = (apply_mode x (windows_platform c) disk cfg w.system).1;
    },
  )
  unfolding apply
  windows_saved =
      let saved =
        write_state_written disk cfg.rollback_path (saved_state x c disk cfg w.system) w.rollback
          (validate_config_parts x cfg valid).0 writes in
      rw (windows_prepare, apply)
        (rw (saved, apply)
          (ap
            (λ r. (
              (apply_mode x (windows_platform c) disk cfg w.system).0,
              record {
                rollback = r.1;
                system = (apply_mode x (windows_platform c) disk cfg w.system).1;
              },
            ))
            saved))

  -- Where all calls succeed, Apply does.
  pub windows_apply : AllSucceed c → (apply x (windows_platform c) disk cfg w).0 ≡ ok tt
  unfolding apply_mode registry_apply_pac registry_apply_system with_key write_values
  windows_apply h = ap (λ r. r.0) windows_saved ∙ applied
    where
      applied : (apply_mode x (windows_platform c) disk cfg w.system).0 ≡ ok tt
      applied = elim (Bool-cases (text_eq cfg.mode mode_pac)) [
        | inl pac ↦
            rw (pac, h.opens, h.writes auto_config_value, h.writes proxy_enable_value, h.notifies)
        | inr other ↦
            let system : text_eq cfg.mode mode_system ≡ true =
              rw other at ((validate_config_parts x cfg valid).1) in
            rw (
              other,
              system,
              h.opens,
              h.writes proxy_server_value,
              h.writes proxy_enable_value,
              h.writes auto_config_value,
              h.notifies,
            )
      ]

module _ (x : Externals) (c later : RegistryCalls) (disk disk_later : Disk) (cfg : Config) where
  windows_restore_saved :
      (saved key : WindowsState)
      → AllSucceed later
      → disk_later.readable ≡ true
      → disk_later.removable ≡ true
      → IsDword saved
      → restore x
          (windows_platform later)
          disk_later
          (record { rollback = stored (saved_state x c disk cfg saved); system = key })
        ≡ (ok tt, record { rollback = absent; system = saved })
  unfolding complete_state
  windows_restore_saved saved key h readable removable dword =
      restore_done x (windows_platform later) disk_later
        (record { rollback = stored (saved_state x c disk cfg saved); system = key })
        (saved_state x c disk cfg saved) saved refl readable removable
        (text_eq_refl (text "windows")) (registry_restore_same later saved key h dword)

  -- On Windows, once Apply has taken the snapshot and written the rollback file for a valid
  -- configuration, however its later calls turn out, all made or broken off at any of them, a later
  -- Restore whose calls succeed gives back the proxy settings that were there before, and removes
  -- the rollback file, if ProxyEnable was absent or a 32-bit value.
  pub windows_restore-apply :
      (w : World WindowsState)
      → validate_config x cfg ≡ ok tt
      → c.reads ≡ true
      → disk.write ≡ written
      → AllSucceed later
      → disk_later.readable ≡ true
      → disk_later.removable ≡ true
      → IsDword w.system
      → restore x (windows_platform later) disk_later (apply x (windows_platform c) disk cfg w).1
        ≡ (ok tt, record { rollback = absent; system = w.system })
  windows_restore-apply w valid reads writes h readable removable dword =
      rw (windows_saved x c disk cfg w valid reads writes)
        (windows_restore_saved w.system _ h readable removable dword)

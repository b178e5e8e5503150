-- ===== src/SystemDns/Applying.antt =====
-- Apply and Restore of the system DNS against each other, over any platform.
use siteboost_core.SystemDns.{
  Config, Outcome, State, DnsError, rollback_path_required, Platform, World, state_kind,
  complete_state, outcome_of, normalize_config, validate_config, take_snapshot, apply, check_state,
  read_checked, restore,
}
use siteboost_core.Common.{
  taken, is_empty, Result, ok, err, require, >>=-eq-ok, require-eq-ok, ◌≡◌, refl, ap, ◌∙◌, Bool,
  true, false, not, ◌||◌, arith,
}
use siteboost_core.Text.{text, trim_space}
use siteboost_core.Text.Laws.{text_eq_refl}
use siteboost_core.External.{Externals}
use siteboost_core.Rollback.{
  absent, stored, written, Disk, read_state, remove_state, write_state_written,
}
use siteboost_core.Config.Names.{mode_dns}

-- A configuration that validateConfig accepts names a rollback file.
rollback_path-validate_config :
    (x : Externals) (cfg : Config)
    → validate_config x cfg ≡ ok tt
    → is_empty (trim_space cfg.rollback_path) ≡ false
unfolding validate_config
rollback_path-validate_config x cfg h =
    let (_, named, _) =
      >>=-eq-ok (require (not (is_empty (trim_space cfg.rollback_path))) rollback_path_required) _
        h in
    let nonblank = require-eq-ok _ _ named in ground (arith, nonblank)

module _ {S : Type 0} (x : Externals) (p : Platform S) (disk : Disk) where
  -- What a snapshot that passes every check is.
  take_snapshot-parts :
      (cfg : Config) (system : S) (state : State)
      → take_snapshot x p disk cfg system ≡ ok state
      → (validate_config x (normalize_config x cfg) ≡ ok tt)
        × ((snapshot : State) × (p.snapshot (normalize_config x cfg) system ≡ ok snapshot)
            × (complete_state p.name (normalize_config x cfg) snapshot ≡ state))
  unfolding take_snapshot
  take_snapshot-parts cfg system state h =
      let (_, valid, h1) = >>=-eq-ok (validate_config x (normalize_config x cfg)) _ h in
      let (snapshot, taken, same) = >>=-eq-ok (p.snapshot (normalize_config x cfg) system) _ h1 in
      let e : complete_state p.name (normalize_config x cfg) snapshot ≡ state = ground arith in
      (valid, (snapshot, taken, e))

  -- Apply has stored the completed snapshot before it calls the platform.
  apply-take_snapshot :
      (cfg : Config) (w : World S) (state : State)
      → take_snapshot x p disk cfg w.system ≡ ok state
      → disk.write ≡ written
      → (apply x p disk cfg w).1 ≡ record {
        rollback = stored state;
        system = (p.apply (normalize_config x cfg) state w.system).1;
      }
  unfolding apply
  apply-take_snapshot cfg w state h writes =
      let path = (normalize_config x cfg).rollback_path in
      let nonblank =
        rollback_path-validate_config x (normalize_config x cfg)
          (take_snapshot-parts cfg w.system state h).0 in
      let saved = write_state_written disk path state w.rollback nonblank writes in
      let changed = (p.apply (normalize_config x cfg) state w.system).1 in
      rw (h, apply)
        (rw (saved, apply) (ap (λ r. record { rollback = r.1; system = changed }) saved))

  read_state-stored :
      (state : State) → disk.readable ≡ true → read_state disk (stored state) ≡ ok state
  unfolding read_state
  read_state-stored state h = rw h refl

  remove_state-stored :
      (state : State) → disk.removable ≡ true → remove_state disk (stored state) ≡ ok absent
  unfolding remove_state
  remove_state-stored state h = rw h refl

  check_state-complete_state :
      (cfg : Config) (snapshot : State)
      → check_state x p disk (complete_state p.name cfg snapshot)
        ≡ ok (complete_state p.name cfg snapshot)
  unfolding check_state complete_state
  check_state-complete_state cfg snapshot = rw (
    text_eq_refl state_kind,
    text_eq_refl mode_dns,
    text_eq_refl p.name,
    or_true (is_empty state_kind),
    or_true (is_empty p.name),
  )
    where
      or_true : (b : Bool) → (b || true) ≡ true
      or_true b = ground arith

  -- What Restore reads behind an Apply, and does with it where the platform brings `system` back.
  read_checked-stored :
      (w : World S) (state : State)
      → w.rollback ≡ stored state
      → disk.readable ≡ true
      → check_state x p disk state ≡ ok state
      → read_checked x p disk w ≡ ok state
  unfolding read_checked
  read_checked-stored w state found readable accepted =
      rw (found, read_checked) (rw (read_state-stored state readable, read_checked) accepted)

  -- What Restore makes of the platform's answer.
  abbrev pub restored_with :
      State → Result DnsError (Unit {0}) × S → Result DnsError Outcome × World S
  restored_with state (err e, system) = (err e, record { rollback = stored state; system = system })
  restored_with state (ok _, system) =
      (ok (outcome_of state), record { rollback = absent; system = system })

  restore_accepted :
      (w : World S) (state : State)
      → w.rollback ≡ stored state
      → read_checked x p disk w ≡ ok state
      → disk.removable ≡ true
      → (answer : Result DnsError (Unit {0}) × S) → p.restore state w.system ≡ answer
      → restore x p disk w ≡ restored_with state answer
  unfolding restore
  restore_accepted w state found accepted removable (err e, system) back =
      rw (accepted, restore)
        (rw (back, restore)
          (ap (λ r. (err e, record w { system = r.1 })) back
            ∙ ap (λ file. (err e, record { rollback = file; system = system })) found))
  restore_accepted w state found accepted removable (ok _, system) back =
      let gone : remove_state disk w.rollback ≡ ok absent =
        ap (λ f. remove_state disk f) found ∙ remove_state-stored state removable in
      rw (accepted, restore)
        (rw (back, restore)
          (rw (gone, restore)
            (ap (λ r. (ok (outcome_of state), record { rollback = absent; system = r.1 })) back)))

module _ {S : Type 0} (x : Externals) (p : Platform S) (disk disk_later : Disk) where
  -- Apply and then Restore, over any platform: where the configuration is valid, the snapshot
  -- succeeds and the rollback file is written, later read and removed, Restore hands the platform
  -- the snapshot from before Apply, completed with the kind, mode, platform and servers, on the
  -- system as the platform's Apply left it, whether that failed or not. It reports the platform's
  -- error and keeps the rollback file, or reports the interfaces and removes the rollback file.
  pub restore-apply_system_dns :
      (cfg : Config) (w : World S) (snapshot : State)
      → disk.write ≡ written
      → disk_later.readable ≡ true
      → disk_later.removable ≡ true
      → validate_config x (normalize_config x cfg) ≡ ok tt
      → p.snapshot (normalize_config x cfg) w.system ≡ ok snapshot
      → (state : State) × (state.interfaces ≡ snapshot.interfaces)
        × (state.server_ips ≡ (normalize_config x cfg).server_ips)
        × (state.kind ≡ text "system_dns")
        × (state.mode ≡ text "dns")
        × (state.os ≡ p.name)
        × (restore x p disk_later (apply x p disk cfg w).1
            ≡ restored_with x p disk_later state
                (p.restore state (p.apply (normalize_config x cfg) state w.system).1))
  unfolding complete_state take_snapshot state_kind
  restore-apply_system_dns cfg w snapshot writes readable removable valid taken =
      let normalized = normalize_config x cfg in
      let state = complete_state p.name normalized snapshot in
      let h : take_snapshot x p disk cfg w.system ≡ ok state = rw (valid, taken) refl in
      let after : World S = record {
        rollback = stored state;
        system = (p.apply normalized state w.system).1;
      } in
      let accepted =
        read_checked-stored x p disk_later after state refl readable
          (check_state-complete_state x p disk_later normalized snapshot) in
      (
        state,
        refl,
        refl,
        refl,
        refl,
        refl,
        ap (λ v. restore x p disk_later v) (apply-take_snapshot x p disk cfg w state h writes)
            ∙ restore_accepted x p disk_later after state refl accepted removable _ refl,
      )

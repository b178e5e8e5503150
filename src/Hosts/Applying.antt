-- ===== src/Hosts/Applying.antt =====
-- Apply, Preflight and Restore of the hosts file together.
use siteboost_core.Hosts.Platform.{
  Config, State, ApplyError, write_failed, no_state, Platform, World, state_of, forget_state,
  is_hosts_state, check_state, apply, read_checked, restore,
}
use siteboost_core.Hosts.Ending.{stopped, half, finished, apply-Ending}
use siteboost_core.Rollback.{StateFile, absent, unparsable, stored, Disk, read_state, remove_state}
use siteboost_core.Common.{err, ◌≡◌, refl, ap, ◌∙◌, ◌⊎◌, inl, inr, true, false, arith}

module _ (p : Platform) (disk : Disk) where
  forget_state-absent :
      (file : StateFile State) → disk.removable ≡ true → forget_state disk file ≡ absent
  unfolding forget_state remove_state
  forget_state-absent absent e = refl
  forget_state-absent unparsable e = rw e
  forget_state-absent (stored state) e = rw e

  -- Restore without a rollback file.
  restore-absent : (w : World) → w.rollback ≡ absent → restore p disk w ≡ (err no_state, w)
  unfolding restore read_checked read_state
  restore-absent w gone =
      let nothing : read_checked p disk w ≡ err no_state = rw (gone, read_checked) refl in
      rw (nothing, restore) refl

  check_state_foreign :
      (state : State) → is_hosts_state state ≡ false → check_state p.name state ≡ err no_state
  unfolding check_state
  check_state_foreign state e = rw e

  read_checked_foreign :
      (w : World) (state : State)
      → w.rollback ≡ stored state
      → disk.readable ≡ true
      → is_hosts_state state ≡ false
      → read_checked p disk w ≡ err no_state
  unfolding read_checked read_state
  read_checked_foreign w state found readable foreign =
      rw (found, readable) (check_state_foreign state foreign)

  -- Restore of a rollback file that another component wrote, which neither its kind nor its mode
  -- names as a hosts state, reports that there is no state and changes nothing.
  pub restore_other_component :
      (w : World) (state : State)
      → w.rollback ≡ stored state
      → disk.readable ≡ true
      → is_hosts_state state ≡ false
      → restore p disk w ≡ (err no_state, w)
  unfolding restore
  restore_other_component w state found readable foreign =
      rw (read_checked_foreign w state found readable foreign, restore) refl

module _ (p later : Platform) (disk disk_later : Disk) (cfg : Config) (w : World) where
  -- If Apply fails, the hosts file is as before, or writing it has failed; then, where the rollback
  -- file can be removed, it is gone, so that a Restore in whatever circumstances reports that there
  -- is no state and leaves the hosts file as the failed write left it.
  pub apply_failed :
      (e : ApplyError)
      → disk.removable ≡ true
      → (apply p disk cfg w).0 ≡ err e
      → ((apply p disk cfg w).1.hosts ≡ w.hosts)
        ⊎ ((e ≡ write_failed)
            × (restore later disk_later (apply p disk cfg w).1
                ≡ (err no_state, (apply p disk cfg w).1)))
  apply_failed e removable failed = elim (apply-Ending p disk cfg w) [
    | stopped cause left h ↦ inl (ap (λ r. r.1.hosts) h)
    | finished windows h ↦ cc (rw h at failed)
    | half left h ↦
        let gone =
          ap (λ r. r.1.rollback) h
          ∙ forget_state-absent p disk (stored (state_of p.name cfg)) removable in
        inr (ground (arith, h, failed), restore-absent later disk_later _ gone)
  ]

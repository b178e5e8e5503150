-- ===== src/Hosts/Ending.antt =====
-- The ways in which Apply of internal/hosts/hosts.go ends.
use siteboost_core.Hosts.{append_managed_block}
use siteboost_core.Hosts.Platform.{
  Config, State, ApplyError, unsupported_platform, read_failed, write_failed, rollback_failed,
  FileWrite, done, broken, Platform, World, is_windows, check_request, state_of, forget_state,
  prepare, apply,
}
use siteboost_core.Text.{Text}
use siteboost_core.Rollback.{StateFile, stored, Disk, write_state-cases}
use siteboost_core.Common.{
  ok, err, require, Result-cases, >>=-eq-ok, require-eq-ok, ok_value, ◌≡◌, refl, sym, ap, ◌∙◌, ◌⊎◌,
  inl, inr, true,
}

FileWrite-cases : (o : FileWrite) → (o ≡ done) ⊎ ((left : Text) × (o ≡ broken left))
FileWrite-cases done = inl refl
FileWrite-cases (broken left) = inr (left, refl)

module _ (p : Platform) (disk : Disk) where
  prepare_ok :
      (cfg : Config) (state : State)
      → prepare p disk cfg ≡ ok state
      → (is_windows p.name ≡ true) × (state ≡ state_of p.name cfg)
  unfolding prepare check_request
  prepare_ok cfg state h =
      let (_, checked, h1) = >>=-eq-ok (check_request p.name cfg) _ h in
      let (_, _, h2) = >>=-eq-ok (require p.can_read read_failed) _ h1 in
      let (_, named, _) = >>=-eq-ok (require (is_windows p.name) unsupported_platform) _ checked in
      (require-eq-ok _ _ named, sym (ok_value h2))

  -- The three ways in which Apply ends.
  pub data Ending (cfg : Config) (w : World) : Type 0 where
    stopped :
        (e : ApplyError) (left : StateFile State)
        → apply p disk cfg w ≡ (err e, record w { rollback = left })
        → Ending cfg w
    half :
        (left : Text)
        → apply p disk cfg w ≡ (
          err write_failed,
          record { hosts = left; rollback = forget_state disk (stored (state_of p.name cfg)) },
        )
        → Ending cfg w
    finished :
        is_windows p.name ≡ true
        → apply p disk cfg w ≡ (
          ok tt,
          record {
            hosts = append_managed_block w.hosts cfg.entries;
            rollback = stored (state_of p.name cfg);
          },
        )
        → Ending cfg w

  pub apply-Ending : (cfg : Config) (w : World) → Ending cfg w
  unfolding apply
  apply-Ending cfg w = elim (Result-cases (prepare p disk cfg)) [
    | inr (e, failed) ↦ stopped e w.rollback (rw (failed, apply))
    | inl (state, prepared) ↦
        let (windows, same) = prepare_ok cfg state prepared in
        let prepared_state : prepare p disk cfg ≡ ok (state_of p.name cfg) =
          prepared ∙ ap ok same in
        elim (write_state-cases disk cfg.rollback_path (state_of p.name cfg) w.rollback) [
          | inl (e, left, failed) ↦ stopped (rollback_failed e) left (
              rw (prepared_state, apply)
                (rw (failed, apply)
                  (ap (λ r. (err (rollback_failed e), record w { rollback = r.1 })) failed)))
          | inr saved ↦ elim (FileWrite-cases p.write) [
            | inl fine ↦ finished windows (
                rw (prepared_state, apply)
                  (rw (saved, apply)
                    (rw (fine, apply)
                      (ap
                        (λ r. (
                          ok tt,
                          record {
                            hosts = append_managed_block w.hosts cfg.entries;
                            rollback = r.1;
                          },
                        ))
                        saved))))
            | inr (left, broke) ↦ half left (
                rw (prepared_state, apply)
                  (rw (saved, apply)
                    (rw (broke, apply)
                      (ap
                        (λ r. (
                          err write_failed,
                          record { hosts = left; rollback = forget_state disk r.1 },
                        ))
                        saved))))
          ]
        ]
  ]

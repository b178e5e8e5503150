-- ===== src/Rollback.antt =====
-- What Apply and Restore of the hosts, system DNS and system proxy components share: the rollback
-- file with its JSON state, and how the file system answers.
use siteboost_core.Common.{
  if◌then◌else◌, Bool-cases, is_empty, Result, ok, err, ◌≡◌, refl, ◌⊎◌, inl, inr, Bool, false,
}
use siteboost_core.Text.{Text, trim_space}

-- The file at the rollback path.
pub data StateFile (A : Type 0) : Type 0 where
  absent : StateFile A
  unparsable : StateFile A
  stored : A → StateFile A

-- How writing a file turns out: done, refused before anything changed (or for the directory that is
-- to hold the file), broken off with a part of the text or none, or an error behind the last byte.
pub data WriteOutcome : Type 0 where
  written refused cut_short unsynced : WriteOutcome

-- How the file system treats the rollback file and its directory.
pub record Disk : Type 0 where
  pub write : WriteOutcome
  -- whether a file can be made in the directory and removed again
  pub probes : Bool
  pub readable : Bool
  pub removable : Bool

pub data FileError : Type 0 where
  path_required not_exist io_failed parse_failed : FileError

module _ {A : Type 0} (disk : Disk) where
  -- WriteState: its error, and the file that it leaves. A proper prefix of the JSON text of a state is
  -- no JSON text.
  unfoldable pub write_state : Text → A → StateFile A → Result FileError (Unit {0}) × StateFile A
  write_state path state file =
      if is_empty (trim_space path) then (err path_required, file) else elim disk.write [
        | written ↦ (ok tt, stored state)
        | refused ↦ (err io_failed, file)
        | cut_short ↦ (err io_failed, unparsable)
        | unsynced ↦ (err io_failed, stored state)
      ]

  -- ReadState
  unfoldable pub read_state : StateFile A → Result FileError A
  read_state absent = err not_exist
  read_state unparsable = if disk.readable then err parse_failed else err io_failed
  read_state (stored state) = if disk.readable then ok state else err io_failed

  -- RemoveState
  unfoldable pub remove_state : StateFile A → Result FileError (StateFile A)
  remove_state absent = ok absent
  remove_state file = if disk.removable then ok absent else err io_failed

  pub write_state-cases :
      (path : Text) (state : A) (file : StateFile A)
      → ((e : FileError) × (left : StateFile A) × (write_state path state file ≡ (err e, left)))
        ⊎ (write_state path state file ≡ (ok tt, stored state))
  unfolding write_state
  write_state-cases path state file = elim (Bool-cases (is_empty (trim_space path))) [
    | inl blank ↦ rw blank (inl (path_required, file, refl))
    | inr named ↦ rw named (outcome_cases disk.write)
  ]
    where
      outcome_cases :
          (o : WriteOutcome)
          → let result : Result FileError (Unit {0}) × StateFile A = elim o [
            | written ↦ (ok tt, stored state)
            | refused ↦ (err io_failed, file)
            | cut_short ↦ (err io_failed, unparsable)
            | unsynced ↦ (err io_failed, stored state)
          ] in
            ((e : FileError) × (left : StateFile A) × (result ≡ (err e, left)))
            ⊎ (result ≡ (ok tt, stored state))
      outcome_cases written = inr refl
      outcome_cases refused = inl (io_failed, file, refl)
      outcome_cases cut_short = inl (io_failed, unparsable, refl)
      outcome_cases unsynced = inl (io_failed, stored state, refl)

  pub write_state_written :
      (path : Text) (state : A) (file : StateFile A)
      → is_empty (trim_space path) ≡ false
      → disk.write ≡ written
      → write_state path state file ≡ (ok tt, stored state)
  unfolding write_state
  write_state_written path state file h k = rw (h, k)

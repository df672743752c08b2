-- ===== src/Daemon/Store/Laws.antt =====
-- The outcomes of durable writes, and the strength of the marker.
use local_parental_control.Daemon.State.{UsageState}
use local_parental_control.Daemon.Store.{
  replace_file, save_state, write_recovery_marker, Disk, Faults, stored, reset, sync_directory,
  FileStep, retry, Written, check_step, load_recovery_marker, create_temporary, make_directory,
  Marker, change_mode, validate_directory, write_data, sync_file, close_file, rename_file,
  remove_marker, absent, encode_state,
}
use local_parental_control.Base.{
  some, Bool, ◌≡◌, none, ◌⊎◌, false, Bool-cases, inl, if◌then◌else◌, inr, arith, true, ◌≢◌, List,
  Option, ◌∷◌, [],
}

abbrev pub with_usage : UsageState → Disk → Disk
with_usage state disk = record disk { usage = some (stored state) }

-- How a durable write may end: done, done but for the last sync, or not done.
abbrev pub Outcome : Disk → Disk → Written → Type 0
Outcome old new w =
    (w ≡ (new, none))
    ⊎ ((w ≡ (new, some sync_directory)) ⊎ ((step : FileStep) × (w ≡ (old, some step))))

check_step-Outcome :
    (fails : Faults) (step : FileStep) (old new : Disk) (next : Written)
    → Outcome old new next
    → Outcome old new (check_step fails step old next)
check_step-Outcome fails step old new next h = elim (Bool-cases (fails step)) [
  | inl failed ↦ inr (inr (step, rw failed))
  | inr passed ↦ rw passed h
]

sync-Outcome :
    (fails : Faults) (old new : Disk)
    → Outcome old new (check_step fails sync_directory new (new, none))
sync-Outcome fails old new = elim (Bool-cases (fails sync_directory)) [
  | inl failed ↦ inr (inl (rw failed))
  | inr passed ↦ inl (rw passed)
]

pub replace_file-Outcome :
    (fails : Faults) (old new : Disk) → Outcome old new (replace_file fails old new)
unfolding replace_file
replace_file-Outcome fails old new = check_step-Outcome fails create_temporary old new _ (
    check_step-Outcome fails change_mode old new _ (
      check_step-Outcome fails write_data old new _ (
        check_step-Outcome fails sync_file old new _ (
          check_step-Outcome fails close_file old new _
            (check_step-Outcome fails rename_file old new _ (sync-Outcome fails old new))))))

pub save_state_atomic :
    (fails : Faults) (state : UsageState) (disk : Disk)
    → (save_state fails state disk ≡ (with_usage state disk, none))
      ⊎ ((save_state fails state disk ≡ (with_usage state disk, some sync_directory))
          ⊎ ((step : FileStep) × (save_state fails state disk ≡ (disk, some step))))
unfolding save_state
save_state_atomic fails state disk =
    let new : Disk = with_usage state disk in
    check_step-Outcome fails make_directory disk new _ (
      check_step-Outcome fails validate_directory disk new _
        (check_step-Outcome fails encode_state disk new _ (replace_file-Outcome fails disk new)))

-- The steps of a save, in order.
abbrev pub save_steps : List FileStep
save_steps =
    make_directory ∷ validate_directory ∷ encode_state ∷ create_temporary ∷ change_mode ∷ write_data
    ∷ sync_file ∷ close_file ∷ rename_file ∷ sync_directory ∷ []

abbrev pub first_fault : Faults → List FileStep → Option FileStep
first_fault fails [] = none
first_fault fails (step ∷ steps) = if fails step then some step else first_fault fails steps

-- The files after a save with a result.
abbrev pub disk_after : UsageState → Disk → Option FileStep → Disk
disk_after state disk none = with_usage state disk
disk_after state disk (some sync_directory) = with_usage state disk
disk_after state disk (some _) = disk

-- A save reports the first of its ten steps that fails, from the making of the directory to its sync,
-- and succeeds exactly if none does. It leaves exactly the new state in the usage file if it succeeds
-- or fails at the sync of the directory, and else leaves the files as they were.
pub save_state_faults :
    (fails : Faults) (state : UsageState) (disk : Disk)
    → save_state fails state disk
      ≡ (disk_after state disk (first_fault fails save_steps), first_fault fails save_steps)
unfolding save_state replace_file
save_state_faults fails state disk = ground arith

-- Whatever fails, a marker that asks for a reset stays, and a write that reports no error leaves a
-- marker that asks for a reset, or one that asks for a retry where only that was to be written.
pub write_recovery_marker_strength :
    (fails : Faults) (reset_required : Bool) (disk : Disk)
    → (disk.marker ≡ reset → (write_recovery_marker fails reset_required disk).0.marker ≡ reset)
      × ((write_recovery_marker fails reset_required disk).1 ≡ none
          → ((write_recovery_marker fails reset_required disk).0.marker ≡ reset)
            ⊎ ((reset_required ≡ false)
                × ((write_recovery_marker fails reset_required disk).0.marker ≡ retry)))
unfolding write_recovery_marker load_recovery_marker
write_recovery_marker_strength fails reset_required disk =
    let mode : Marker = if reset_required then reset else retry in
    ground (arith, replace_file-Outcome fails disk (record disk { marker = mode }))

pub save_state_done :
    (fails : Faults) (state : UsageState) (disk : Disk)
    → (save_state fails state disk).1 ≡ none
    → (save_state fails state disk).0 ≡ with_usage state disk
save_state_done fails state disk e = ground (arith, save_state_atomic fails state disk)

pub remove_marker_done :
    (fails : Faults) (disk : Disk)
    → (remove_marker fails disk).1 ≡ none
    → (remove_marker fails disk).0 ≡ record disk { marker = absent }
unfolding remove_marker
remove_marker_done fails disk e = ground arith

pub save_state-marker :
    (fails : Faults) (state : UsageState) (disk : Disk)
    → (save_state fails state disk).0.marker ≡ disk.marker
save_state-marker fails state disk = ground (arith, save_state_atomic fails state disk)

-- What a write of `retry`, a write of `reset` and a removal may make of a marker.
abbrev pub Weakened : Marker → Marker → Type 0
Weakened x y = (y ≡ x) ⊎ ((y ≡ retry) × (x ≢ reset))

abbrev pub Strengthened : Marker → Marker → Type 0
Strengthened x y = (y ≡ x) ⊎ (y ≡ reset)

abbrev pub Cleared : Marker → Marker → Type 0
Cleared x y = (y ≡ x) ⊎ (y ≡ absent)

pub write_retry-Weakened :
    (fails : Faults) (disk : Disk)
    → Weakened disk.marker (write_recovery_marker fails false disk).0.marker
unfolding write_recovery_marker load_recovery_marker
write_retry-Weakened fails disk =
    ground (arith, replace_file-Outcome fails disk (record disk { marker = retry }))

pub write_reset-Strengthened :
    (fails : Faults) (disk : Disk)
    → Strengthened disk.marker (write_recovery_marker fails true disk).0.marker
unfolding write_recovery_marker load_recovery_marker
write_reset-Strengthened fails disk =
    ground (arith, replace_file-Outcome fails disk (record disk { marker = reset }))

pub remove_marker-Cleared :
    (fails : Faults) (disk : Disk) → Cleared disk.marker (remove_marker fails disk).0.marker
unfolding remove_marker
remove_marker-Cleared fails disk = ground arith

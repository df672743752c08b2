-- ===== src/Daemon/Store.antt =====
-- The files of internal/daemon/state.go: the usage file and the recovery marker, written through a
-- temporary file and a rename. Each system call may fail; a file's content is what was renamed.
pub mod Laws
use local_parental_control.Base.{
  Bool, Option, if◌then◌else◌, none, false, some, true, not, ◌&&◌, ◌||◌, List, ◌∷◌,
}
use local_parental_control.Daemon.State.{UsageState}

-- The steps of a durable write, in order.
pub data FileStep : Type 0 where
  make_directory validate_directory encode_state create_temporary change_mode write_data sync_file
        close_file rename_file sync_directory remove_file inspect_file inspect_target :
      FileStep

-- The calls that fail.
abbrev pub Faults : Type 0
Faults = FileStep → Bool

-- The recovery marker: missing, of the wrong type, owner or mode (or not readable), or a text.
pub data Marker : Type 0 where
  absent unsafe reset retry unknown : Marker

-- The usage file: one of the wrong type, owner or mode, or that is no JSON text of a state; or the text
-- of a state, as `saveState` writes it. What a reading makes of that text, its size included, is left
-- to the reader.
pub data UsageFile : Type 0 where
  corrupt : UsageFile
  stored : UsageState → UsageFile

-- The files of the state directory, with the invalid states that were put aside.
pub record Disk : Type 0 where
  pub usage : Option UsageFile
  pub marker : Marker
  pub preserved : List UsageFile

-- A write and the first step that failed.
abbrev pub Written : Type 0
Written = Disk × Option FileStep

abbrev pub check_step : Faults → FileStep → Disk → Written → Written
check_step fails step disk next = if fails step then (disk, some step) else next

-- The steps from the temporary file to the directory's sync, of `saveState` and `writePrivateFile`.
unfoldable pub replace_file : Faults → Disk → Disk → Written
replace_file fails old new = check_step fails create_temporary old (
    check_step fails change_mode old (
      check_step fails write_data old (
        check_step fails sync_file old (
          check_step fails close_file old
            (check_step fails rename_file old (check_step fails sync_directory new (new, none)))))))

unfoldable pub save_state : Faults → UsageState → Disk → Written
unfolding replace_file
save_state fails state disk = check_step fails make_directory disk (
    check_step fails validate_directory disk (
      check_step fails encode_state disk
        (replace_file fails disk (record disk { usage = some (stored state) }))))

-- The marker's mode, whether it is there, and whether it could not be read as a marker.
pub record MarkerRead : Type 0 where
  pub reset_required : Bool
  pub present : Bool
  pub failed : Bool

unfoldable pub load_recovery_marker : Marker → MarkerRead
load_recovery_marker absent = record { reset_required = false; present = false; failed = false }
load_recovery_marker unsafe = record { reset_required = false; present = true; failed = true }
load_recovery_marker reset = record { reset_required = true; present = true; failed = false }
load_recovery_marker retry = record { reset_required = false; present = true; failed = false }
load_recovery_marker unknown = record { reset_required = false; present = true; failed = true }

unfoldable pub write_recovery_marker : Faults → Bool → Disk → Written
unfolding load_recovery_marker replace_file
write_recovery_marker fails reset_required disk =
    let existing : MarkerRead = load_recovery_marker disk.marker in
    let mode : Marker = if reset_required then reset else retry in
    check_step fails validate_directory disk (
      if not existing.failed && existing.present && (existing.reset_required || not reset_required)
      then (disk, none)
      else replace_file fails disk (record disk { marker = mode }))

-- `os.Remove(recoveryMarkerPath(...))`, where a missing file is no error, and the directory's sync.
unfoldable pub remove_marker : Faults → Disk → Written
remove_marker fails disk = check_step fails remove_file disk (
    check_step fails sync_directory (record disk { marker = absent })
      (record disk { marker = absent }, none))

-- `quarantineState`: the usage file, if there is one, is renamed to a free name. The result says
-- whether a file was put aside. (The choice of the free name is not modelled.)
unfoldable pub quarantine_state : Faults → Disk → Written × Bool
quarantine_state fails disk =
    if fails validate_directory
    then ((disk, some validate_directory), false)
    else if fails inspect_file
    then ((disk, some inspect_file), false)
    else (elim disk.usage [
      | none ↦ ((disk, none), false)
      | some file ↦
          let moved : Disk = record disk { usage = none; preserved = file ∷ disk.preserved } in
          if fails inspect_target
          then ((disk, some inspect_target), false)
          else if fails rename_file
          then ((disk, some rename_file), false)
          else (if fails sync_directory
              then ((moved, some sync_directory), false)
              else ((moved, none), true))
    ])

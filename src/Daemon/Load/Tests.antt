-- ===== src/Daemon/Load/Tests.antt =====
-- A start of the daemon after a day's use.
use local_parental_control.Daemon.State.{UsageState, new_state}
use local_parental_control.Text.{codes, str_ltb}
use local_parental_control.Daemon.Store.{
  Faults, Disk, save_state, absent, replace_file, stored, load_recovery_marker,
}
use local_parental_control.Daemon.Load.{
  valid_counters, load_service_state, apps_in_day, load_state, all_in_day, load_file, breaks_set,
  in_day, StateReader, check_state,
}
use local_parental_control.Base.{◌≡◌, false, some, none, true, refl, [], ◌∷◌}
use local_parental_control.Daemon.Load.Laws.{
  save_state-load_service_state, load_service_state_sound, IsReadable, Restored,
}
use local_parental_control.Int.{pos}

abbrev evening : UsageState
evening = record (new_state (codes "2026-03-01")) { device_seconds = (codes "alice", pos 600) ∷ [] }

abbrev any_date : StateReader
any_date = record { text_size = λ _. 300; decoded = λ state. some state; valid_date = λ _. true }

abbrev healthy : Faults
healthy step = false

abbrev clean_disk : Disk
clean_disk = record { usage = some (stored evening); marker = absent; preserved = [] }

evening_valid : valid_counters evening ≡ true
unfolding valid_counters apps_in_day all_in_day breaks_set in_day new_state
evening_valid = refl

no_recovery : (load_service_state any_date clean_disk (codes "2026-03-02")).1 ≡ none
unfolding load_service_state load_state load_file load_recovery_marker valid_counters apps_in_day
    all_in_day breaks_set in_day new_state str_ltb check_state
no_recovery = refl

load_service_state_sound_example :
    (clean_disk.marker ≡ absent)
    × ((load_service_state any_date clean_disk (codes "2026-03-02")).0.date ≡ codes "2026-03-02")
    × (valid_counters (load_service_state any_date clean_disk (codes "2026-03-02")).0 ≡ true)
load_service_state_sound_example =
    load_service_state_sound any_date clean_disk (codes "2026-03-02") no_recovery

saved : (save_state healthy evening clean_disk).1 ≡ none
unfolding save_state replace_file
saved = refl

evening_read : IsReadable any_date evening
evening_read = record { decoded = refl; dated = refl; valid = evening_valid }

save_state-load_service_state_example :
    Restored evening 300
      (codes "2026-03-02")
      (load_service_state any_date (save_state healthy evening clean_disk).0 (codes "2026-03-02"))
save_state-load_service_state_example =
    save_state-load_service_state any_date healthy evening clean_disk (codes "2026-03-02") saved
      refl evening_read

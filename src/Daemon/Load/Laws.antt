-- ===== src/Daemon/Load/Laws.antt =====
-- What a start makes of the files of the run before.
use local_parental_control.Text.{str_ltb, Str}
use local_parental_control.Daemon.Load.{
  unreadable, valid_counters, load_file, load_state, load_service_state, apps_in_day, all_in_day,
  breaks_set, check_state, StateReader, load_reason, kept_state, max_state_size, LoadError,
}
use local_parental_control.Daemon.State.{new_state, UsageState}
use local_parental_control.Daemon.Store.{
  load_recovery_marker, Marker, UsageFile, Disk, Faults, absent, save_state, stored, unsafe,
  corrupt, reset, retry, unknown,
}
use local_parental_control.Base.{
  ◌≡◌, false, Option, refl, true, none, ◌∷◌, arith, subst, some, sym, [], Bool-cases, ltb, inl, inr,
  Option-cases, ℕ, ◌<◌, ◌≤◌, ◌∙◌,
}
use local_parental_control.Daemon.Store.Laws.{save_state_done, with_usage}
use local_parental_control.Daemon.Service.{StateRecovery, bad_state, clock_rolled_back}

str_ltb_total : (s t : Str) → str_ltb s t ≡ false → str_ltb t s ≡ false → s ≡ t
unfolding str_ltb
str_ltb_total [] [] h k = refl
str_ltb_total [] (b ∷ t) h k = cc
str_ltb_total (a ∷ s) [] h k = cc
str_ltb_total (a ∷ s) (b ∷ t) h k = ground (arith, str_ltb_total s t)

str_ltb_irrefl : (s : Str) → str_ltb s s ≡ false
unfolding str_ltb
str_ltb_irrefl [] = refl
str_ltb_irrefl (a ∷ s) = ground (arith, str_ltb_irrefl s)

new_state-valid : (date : Str) → valid_counters (new_state date) ≡ true
unfolding valid_counters new_state apps_in_day all_in_day breaks_set
new_state-valid date = refl

new_state-date : (date : Str) → (new_state date).date ≡ date
unfolding new_state
new_state-date date = refl

check_state_sound :
    (reader : StateReader) (state : UsageState) (date : Str)
    → (check_state reader state date).1 ≡ none
    → ((check_state reader state date).0.date ≡ date)
      × (valid_counters (check_state reader state date).0 ≡ true)
unfolding check_state
check_state_sound reader state date e =
    ground (arith, str_ltb_total date state.date, new_state-valid date, new_state-date date)

load_file_sound :
    (reader : StateReader) (file : UsageFile) (date : Str)
    → (load_file reader file date).1 ≡ none
    → ((load_file reader file date).0.date ≡ date)
      × (valid_counters (load_file reader file date).0 ≡ true)
unfolding load_file
load_file_sound reader corrupt date e = cc
load_file_sound reader (stored state) date e =
    elim (Bool-cases (ltb max_state_size (reader.text_size state))) [
      | inl large ↦ absurd (cc (rw (large, load_file) at e))
      | inr small ↦ elim (Option-cases (reader.decoded state)) [
        | inl bad ↦ absurd (cc (rw (small, load_file, bad) at e))
        | inr (read, good) ↦
            rw (small, load_file, good)
              (check_state_sound reader read date (rw (small, load_file, good) at e))
      ]
    ]

load_state_sound :
    (reader : StateReader) (usage : Option UsageFile) (date : Str)
    → (load_state reader usage date).1 ≡ none
    → ((load_state reader usage date).0.date ≡ date)
      × (valid_counters (load_state reader usage date).0 ≡ true)
unfolding load_state
load_state_sound reader none date e = (new_state-date date, new_state-valid date)
load_state_sound reader (some file) date e = load_file_sound reader file date e

load_recovery_marker_absent :
    (marker : Marker)
    → (load_recovery_marker marker).failed ≡ false
    → (load_recovery_marker marker).present ≡ false
    → marker ≡ absent
unfolding load_recovery_marker
load_recovery_marker_absent absent h k = refl
load_recovery_marker_absent unsafe h k = cc
load_recovery_marker_absent reset h k = cc
load_recovery_marker_absent retry h k = cc
load_recovery_marker_absent unknown h k = cc

-- A start that needs no recovery found no recovery marker, and goes on with a state of the current
-- date whose counters all lie within a day and whose break deadlines are set.
pub load_service_state_sound :
    (reader : StateReader) (disk : Disk) (date : Str)
    → (load_service_state reader disk date).1 ≡ none
    → (disk.marker ≡ absent)
      × ((load_service_state reader disk date).0.date ≡ date)
      × (valid_counters (load_service_state reader disk date).0 ≡ true)
unfolding load_service_state
load_service_state_sound reader disk date e =
    ground (arith, load_state_sound reader disk.usage date, load_recovery_marker_absent disk.marker)

-- What a reader of the files has to do for a state: its text is decoded to the state, and the state
-- is one that passes the checks.
pub record IsReadable (reader : StateReader) (state : UsageState) : Type 0 where
  pub decoded : reader.decoded state ≡ some state
  pub dated : reader.valid_date state.date ≡ true
  pub valid : valid_counters state ≡ true

-- What a start on a date finds of a state that was saved as a text of a size, with the recovery that
-- it enters.
abbrev pub Restored : UsageState → ℕ → Str → UsageState × Option StateRecovery → Type 0
Restored state size date started =
    (max_state_size < size
      → started ≡ (new_state date, some (record { reason = bad_state; reset_required = true })))
    × (size ≤ max_state_size → date ≡ state.date → started ≡ (state, none))
    × (size ≤ max_state_size → str_ltb state.date date ≡ true → started ≡ (new_state date, none))
    × (size ≤ max_state_size
        → str_ltb date state.date ≡ true
        → started ≡ (
          state,
          some (record { reason = clock_rolled_back date state.date; reset_required = true }),
        ))

str_ltb_asym : (s t : Str) → str_ltb s t ≡ true → str_ltb t s ≡ false
unfolding str_ltb
str_ltb_asym [] [] h = cc
str_ltb_asym [] (b ∷ t) h = refl
str_ltb_asym (a ∷ s) [] h = cc
str_ltb_asym (a ∷ s) (b ∷ t) h = ground (arith, str_ltb_asym s t)

-- What a start without a marker makes of what was loaded.
started_with : Str → UsageState × Option LoadError → UsageState × Option StateRecovery
started_with date (state, none) = (state, none)
started_with date (state, some e) =
    (kept_state state date e, some (record { reason = load_reason e; reset_required = true }))

load_service_state_clean :
    (reader : StateReader) (disk : Disk) (date : Str) (loaded : UsageState × Option LoadError)
    → disk.marker ≡ absent
    → load_state reader disk.usage date ≡ loaded
    → load_service_state reader disk date ≡ started_with date loaded
unfolding load_service_state load_recovery_marker started_with
load_service_state_clean reader disk date (state, none) clean h = ground arith
load_service_state_clean reader disk date (state, some e) clean h = ground arith

load_file_large :
    (reader : StateReader) (state : UsageState) (date : Str)
    → max_state_size < reader.text_size state
    → load_file reader (stored state) date ≡ (new_state [], some unreadable)
unfolding load_file
load_file_large reader state date large = ground arith

load_file-check_state :
    (reader : StateReader) (state : UsageState) (date : Str)
    → reader.decoded state ≡ some state
    → reader.text_size state ≤ max_state_size
    → load_file reader (stored state) date ≡ check_state reader state date
unfolding load_file
load_file-check_state reader state date decoded small = ground arith

load_service_state-stored :
    (reader : StateReader) (disk : Disk) (state : UsageState) (date : Str)
    → IsReadable reader state
    → disk.marker ≡ absent
    → Restored state
        (reader.text_size state)
        date
        (load_service_state reader (with_usage state disk) date)
unfolding load_state check_state started_with kept_state load_reason
load_service_state-stored reader disk state date readable clean =
    let saved : Disk = with_usage state disk in
    let whole = readable.valid in
    let dated = readable.dated in
    let started : reader.text_size state ≤ max_state_size
        → load_service_state reader saved date ≡ started_with date (check_state reader state date) =
      λ small.
        load_service_state_clean reader saved date _ clean
          (load_file-check_state reader state date readable.decoded small) in
    (
      λ large.
          load_service_state_clean reader saved date _ clean
            (load_file_large reader state date large),
      λ small today. started small ∙ ground (arith, str_ltb_irrefl state.date),
      λ small later. started small ∙ ground (arith, str_ltb_asym state.date date),
      λ small earlier. started small ∙ ground arith,
    )

-- A save that reports no error, in a directory without a recovery marker, and a start later. Where the
-- text of the state has at most 4 MiB, is decoded to the state, and the state has a valid date and
-- valid counters, a start on the same date goes on with exactly that state, a start on a later date
-- with a new one, both without a recovery, and a start on an earlier date keeps the state but needs a
-- recovery with a reset. Where the text is larger, which a save does not prevent, a start has lost the
-- state and needs a recovery with a reset.
pub save_state-load_service_state :
    (reader : StateReader) (fails : Faults) (state : UsageState) (disk : Disk) (date : Str)
    → (save_state fails state disk).1 ≡ none
    → disk.marker ≡ absent
    → IsReadable reader state
    → Restored state
        (reader.text_size state)
        date
        (load_service_state reader (save_state fails state disk).0 date)
save_state-load_service_state reader fails state disk date saved clean readable =
    subst (λ d. Restored state (reader.text_size state) date (load_service_state reader d date))
      (sym (save_state_done fails state disk saved))
      (load_service_state-stored reader disk state date readable clean)

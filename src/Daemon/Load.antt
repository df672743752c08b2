-- ===== src/Daemon/Load.antt =====
-- `loadServiceState` and `loadState` of internal/daemon/state.go: what a start of the daemon makes of
-- the state directory.
pub mod Laws
mod Tests
use local_parental_control.Text.{Str, str_ltb}
use local_parental_control.Int.{ℤ, ltb_ℤ, pos, leb_ℤ}
use local_parental_control.Dict.{Dict}
use local_parental_control.Daemon.State.{UsageState, Instant, new_state}
use local_parental_control.Daemon.Service.{
  Reason, clock_rolled_back, bad_state, StateRecovery, bad_marker, interrupted,
}
use local_parental_control.Base.{
  Bool, not, true, Option, ◌&&◌, [], none, ◌∷◌, some, ◌||◌, if◌then◌else◌, ℕ, ltb,
}
use local_parental_control.Daemon.Store.{
  UsageFile, Disk, MarkerRead, load_recovery_marker, stored, corrupt,
}

-- Why a usage file is refused; a rollback keeps the state that was read.
pub data LoadError : Type 0 where
  unreadable bad_date bad_usage : LoadError
  rolled_back : Str → Str → LoadError

-- `!(seconds < 0 || seconds > 86400)`
unfoldable pub in_day : ℤ → Bool
in_day amount = not (ltb_ℤ amount (pos 0) || ltb_ℤ (pos 86400) amount)

unfoldable pub all_in_day : Dict Str ℤ → Bool
all_in_day [] = true
all_in_day ((name, amount) ∷ counters) = in_day amount && all_in_day counters

unfoldable pub apps_in_day : Dict Str (Dict Str ℤ) → Bool
apps_in_day [] = true
apps_in_day ((name, counters) ∷ users) = all_in_day counters && apps_in_day users

-- No deadline is the zero time.
unfoldable pub breaks_set : Dict Str Instant → Bool
breaks_set [] = true
breaks_set ((name, until) ∷ breaks) =
    not (leb_ℤ until (pos 0) && leb_ℤ (pos 0) until) && breaks_set breaks

unfoldable pub valid_counters : UsageState → Bool
valid_counters state =
    apps_in_day state.users
    && (all_in_day state.device_seconds
        && (all_in_day state.continuous_seconds && breaks_set state.break_until))

-- The size of the text of a state in bytes, the state that its decoding gives (`none` is an error),
-- and the dates that `time.Parse("2006-01-02", ...)` accepts.
pub record StateReader : Type 0 where
  pub text_size : UsageState → ℕ
  pub decoded : UsageState → Option UsageState
  pub valid_date : Str → Bool

abbrev pub max_state_size : ℕ
max_state_size = 4194304

-- The checks of what was decoded; the zero value of a state is returned with an error.
unfoldable pub check_state : StateReader → UsageState → Str → UsageState × Option LoadError
check_state reader state date =
    if not (reader.valid_date state.date)
    then (new_state [], some bad_date)
    else (if not (valid_counters state)
        then (new_state [], some bad_usage)
        else (if str_ltb date state.date
            then (state, some (rolled_back date state.date))
            else (if str_ltb state.date date then (new_state date, none) else (state, none))))

unfoldable pub load_file : StateReader → UsageFile → Str → UsageState × Option LoadError
load_file reader corrupt date = (new_state [], some unreadable)
load_file reader (stored state) date =
    if ltb max_state_size (reader.text_size state)
    then (new_state [], some unreadable)
    else elim (reader.decoded state) [
      | none ↦ (new_state [], some unreadable)
      | some read ↦ check_state reader read date
    ]

unfoldable pub load_state : StateReader → Option UsageFile → Str → UsageState × Option LoadError
load_state reader usage date = elim usage [
  | none ↦ (new_state date, none)
  | some file ↦ load_file reader file date
]

unfoldable pub load_reason : LoadError → Reason
load_reason (rolled_back current recorded) = clock_rolled_back current recorded
load_reason _ = bad_state

-- After a rollback the state that was read is kept, and after any other error it is new.
unfoldable pub kept_state : UsageState → Str → LoadError → UsageState
kept_state state date (rolled_back current recorded) = state
kept_state state date _ = new_state date

unfoldable pub load_service_state : StateReader → Disk → Str → UsageState × Option StateRecovery
load_service_state reader disk date =
    let marker : MarkerRead = load_recovery_marker disk.marker in
    let (state, error) = load_state reader disk.usage date in
    if marker.failed
    then (new_state date, some (record { reason = bad_marker; reset_required = true }))
    else (if marker.present
        then (elim error [
          | none ↦ (
            state,
            some (record { reason = interrupted; reset_required = marker.reset_required }),
          )
          | some e ↦ (
            kept_state state date e,
            some (record { reason = interrupted; reset_required = true }),
          )
        ])
        else (elim error [
          | none ↦ (state, none)
          | some e ↦ (
            kept_state state date e,
            some (record { reason = load_reason e; reset_required = true }),
          )
        ]))

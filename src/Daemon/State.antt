-- ===== src/Daemon/State.antt =====
-- The usage counters of internal/daemon/state.go.
use local_parental_control.Base.{[]}
use local_parental_control.Int.{ℤ}
use local_parental_control.Text.{Str}
use local_parental_control.Dict.{Dict}

-- An instant in nanoseconds since Go's zero time.
abbrev pub Instant : Type 0
Instant = ℤ

pub record UsageState : Type 0 where
  pub date : Str
  pub timezone : Str
  pub device_seconds : Dict Str ℤ
  pub continuous_seconds : Dict Str ℤ
  pub break_until : Dict Str Instant
  pub users : Dict Str (Dict Str ℤ)

unfoldable pub new_state : Str → UsageState
new_state date = record {
  date = date;
  timezone = [];
  device_seconds = [];
  continuous_seconds = [];
  break_until = [];
  users = [];
}

unfoldable pub new_state_in_timezone : Str → Str → UsageState
unfolding new_state
new_state_in_timezone date timezone = record (new_state date) { timezone = timezone }

-- ===== src/Daemon/Accounting.antt =====
-- `accountUserInterval` of internal/daemon/daemon.go: one interval of use, charged to a user.
pub mod Meter
pub mod Rounds
pub mod Bounds
pub mod Interval
pub mod Frame
pub mod Exact
mod Tests
use local_parental_control.Base.{
  ℕ, suc, ◌+◌, ◌*◌, ◌≡◌, Bool, true, false, ◌&&◌, Option, none, some, if◌then◌else◌,
}
use local_parental_control.Int.{
  ℤ, pos, pos_part, ◌+ℤ◌, ◌-ℤ◌, times, ltb_ℤ, leb_ℤ, seconds, whole_seconds,
}
use local_parental_control.Loop.{iterate}
use local_parental_control.Text.{Str, str_eq}
use local_parental_control.Dict.{lookup, insert, erase, get_or}
use local_parental_control.Config.{UserConfig}
use local_parental_control.Daemon.State.{Instant, UsageState}

-- The variables of the loop.
pub record Cursor : Type 0 where
  pub state : UsageState
  pub start : Instant
  pub counted : ℤ

-- Go's `if remaining := ...; seconds > remaining { seconds = remaining }`.
unfoldable pub at_most : ℤ → ℤ → ℤ
at_most value remaining = if ltb_ℤ remaining value then remaining else value

module _ (username : Str) (uc : UserConfig) (end : Instant) where
  unfoldable pub device_limit : ℤ
  device_limit = times 60 uc.daily_device_minutes

  unfoldable pub continuous_limit : ℤ
  continuous_limit = times 60 uc.continuous_use_minutes

  -- The branch of a stored break deadline: the rest of the interval lies in the break, or the
  -- break is over and the round starts again behind it.
  unfoldable pub leave_break : Cursor → Instant → Option Cursor
  leave_break c until =
      let ended : UsageState = record c.state {
        break_until = erase username c.state.break_until;
        continuous_seconds = insert username (pos 0) c.state.continuous_seconds;
      } in
      if ltb_ℤ c.start until
      then (if leb_ℤ end until then none else some (record c { state = ended; start = until }))
      else some (record c { state = ended })

  -- The end of the loop's body: charge `amount` seconds, and begin a break at the limit.
  unfoldable pub charge : Cursor → ℤ → Cursor
  unfolding continuous_limit
  charge c amount =
      let device : ℤ = get_or username (pos 0) c.state.device_seconds +ℤ amount in
      let continuous : ℤ = get_or username (pos 0) c.state.continuous_seconds +ℤ amount in
      let start : Instant = c.start +ℤ seconds amount in
      let full : Bool = leb_ℤ continuous_limit continuous in
      record {
        state = record c.state {
          device_seconds = insert username device c.state.device_seconds;
          continuous_seconds =
              insert username (if full then pos 0 else continuous) c.state.continuous_seconds;
          break_until =
              (if full
                then insert username (start +ℤ seconds (times 60 uc.break_minutes))
                    c.state.break_until
                else c.state.break_until);
        };
        start = start;
        counted = c.counted +ℤ amount;
      }

  unfoldable pub account_round : Cursor → Option Cursor
  unfolding device_limit continuous_limit at_most leave_break charge
  account_round c =
      let device : ℤ = get_or username (pos 0) c.state.device_seconds in
      let available : ℤ = whole_seconds (end -ℤ c.start) in
      let amount : ℤ =
        at_most (at_most available (device_limit -ℤ device))
          (continuous_limit -ℤ get_or username (pos 0) c.state.continuous_seconds) in
      if ltb_ℤ c.start end && ltb_ℤ device device_limit
      then elim (lookup username c.state.break_until) [
        | some until ↦ leave_break c until
        | none ↦ if leb_ℤ available (pos 0) then none else some (charge c amount)
      ]
      else none

  -- Rounds enough for every interval: two for each whole second that is left, two for each second
  -- by which the continuous counter lies above its limit, and a few to enter and leave breaks.
  unfoldable pub account_fuel : UsageState → Instant → ℕ
  unfolding continuous_limit
  account_fuel state start =
      2 * pos_part (whole_seconds (end -ℤ start))
      + 2 * pos_part (get_or username (pos 0) state.continuous_seconds -ℤ continuous_limit)
      + 5

-- The state afterwards and the seconds that were counted; `none` stands for a loop without end.
unfoldable pub account_user_interval :
    Str → UserConfig → Instant → Instant → UsageState → Option (UsageState × ℤ)
unfolding account_round account_fuel
account_user_interval username uc start end state =
    elim (iterate (account_fuel username uc end state start) (account_round username uc end)
      (record { state = state; start = start; counted = pos 0 })) [
        | none ↦ none
        | some c ↦ some (c.state, c.counted)
      ]

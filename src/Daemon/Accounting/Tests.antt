-- ===== src/Daemon/Accounting/Tests.antt =====
-- Runs of the accounting, and its theorems at concrete users.
use local_parental_control.Base.{ℕ, true, ◌∷◌, ◌*◌, ◌≡◌, [], some, arith, refl}
use local_parental_control.Text.{Str, codes, str_eq}
use local_parental_control.Config.{UserConfig}
use local_parental_control.Daemon.State.{UsageState, Instant}
use local_parental_control.Daemon.Accounting.{account_user_interval}
use local_parental_control.Int.{times, pos, ℤ, whole_seconds, seconds, ◌+ℤ◌, div_by, ◌-ℤ◌, ◌<ℤ◌}
use local_parental_control.Daemon.Accounting.Frame.{IsSameFor, account_user_interval-IsSameFor}
use local_parental_control.Loop.{iterate}
use local_parental_control.Dict.{get_or, lookup, insert}
use local_parental_control.Daemon.Accounting.Interval.{
  account_user_interval_ends, IsCharged, account_user_interval-IsCharged,
}
use local_parental_control.Daemon.Accounting.Exact.{
  CountsOnly, account_user_interval_exact, account_user_interval_over,
}

abbrev alice : Str
alice = codes "alice"

abbrev bob : Str
bob = codes "bob"

abbrev limits : UserConfig
limits = record {
  daily_device_minutes = pos 180;
  continuous_use_minutes = pos 60;
  break_minutes = pos 10;
  all_day = true;
  allowed_from = [];
  allowed_until = [];
  applications = [];
  blocked_domains = [];
}

-- Alice has used the device for 3598 seconds with no break; bob is on a break.
abbrev morning : UsageState
morning = record {
  date = codes "2026-03-01";
  timezone = codes "UTC";
  device_seconds = (alice, pos 3598) ∷ (bob, pos 10) ∷ [];
  continuous_seconds = (alice, pos 3598) ∷ (bob, pos 4000) ∷ [];
  break_until = [];
  users = [];
}

abbrev at_second : ℕ → Instant
at_second n = pos (n * 1000000000)

-- Two of the four seconds are counted; then the hour is full and a break of ten minutes begins.
full_hour :
    account_user_interval alice limits (at_second 100) (at_second 104) morning
    ≡ some (
      record morning {
        device_seconds = (alice, pos 3600) ∷ (bob, pos 10) ∷ [];
        continuous_seconds = (alice, pos 0) ∷ (bob, pos 4000) ∷ [];
        break_until = (alice, at_second 702) ∷ [];
      },
      pos 2,
    )
unfolding account_user_interval iterate lookup insert get_or ◌+ℤ◌ ◌-ℤ◌ times seconds whole_seconds
    div_by
full_hour = refl

account_user_interval_ends_example :
    (final : UsageState) × (counted : ℤ) × (account_user_interval alice limits
        (at_second 100)
        (at_second 104)
        morning
      ≡ some (final, counted))
unfolding times
account_user_interval_ends_example =
    account_user_interval_ends alice limits (at_second 100) (at_second 104) morning (omega arith)

account_user_interval-IsCharged_example :
    (final : UsageState) × (counted : ℤ) × (account_user_interval alice limits
        (at_second 100)
        (at_second 104)
        morning
      ≡ some (final, counted))
    × IsCharged alice limits (at_second 100) (at_second 104) morning final counted
unfolding times get_or lookup
account_user_interval-IsCharged_example =
    account_user_interval-IsCharged alice limits (at_second 100) (at_second 104) morning
      (omega arith) (omega arith) (omega arith) (omega arith) (omega arith)

account_user_interval-IsSameFor_example : IsSameFor bob morning (record morning {
  device_seconds = (alice, pos 3600) ∷ (bob, pos 10) ∷ [];
  continuous_seconds = (alice, pos 0) ∷ (bob, pos 4000) ∷ [];
  break_until = (alice, at_second 702) ∷ [];
})
account_user_interval-IsSameFor_example =
    account_user_interval-IsSameFor alice bob limits (at_second 100) (at_second 104) morning
      (ground arith) full_hour

account_user_interval_exact_example :
    CountsOnly alice limits
      (at_second 100)
      (at_second 101)
      morning
      (whole_seconds (at_second 101 -ℤ at_second 100))
unfolding times get_or lookup whole_seconds div_by ◌-ℤ◌ ◌+ℤ◌
account_user_interval_exact_example =
    account_user_interval_exact alice limits (at_second 100) (at_second 101) morning (omega arith)
      refl (omega arith) (omega arith) (omega arith)

-- Bob's continuous counter is 400 seconds above its limit.
account_user_interval_over_example :
    CountsOnly bob limits
      (at_second 100)
      (at_second 102)
      morning
      (times 60 (pos 60) -ℤ get_or bob (pos 0) morning.continuous_seconds)
    × (times 60 (pos 60) -ℤ get_or bob (pos 0) morning.continuous_seconds <ℤ pos 0)
unfolding times get_or lookup seconds whole_seconds div_by ◌-ℤ◌ ◌+ℤ◌
account_user_interval_over_example =
    account_user_interval_over bob limits (at_second 100) (at_second 102) morning (omega arith) refl
      (omega arith) (omega arith) (omega arith) (omega arith)

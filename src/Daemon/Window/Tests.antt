-- ===== src/Daemon/Window/Tests.antt =====
-- Clipped intervals of a user who may use the device from 11:00 until 20:00.
use local_parental_control.Base.{
  ℕ, ◌↔◌, false, ◌≡◌, ◌*◌, [], arith, true, some, ◌/◌, ◌-◌, ◌%◌, refl,
}
use local_parental_control.Config.{UserConfig}
use local_parental_control.Int.{◌-ℤ◌, pos, ◌+ℤ◌, pos_part, int_laws, parts_disjoint}
use local_parental_control.Config.Clock.{
  parse_clock, Zone, parse_time, get_num, or_midnight, allowed_at, parse_minute, skip_colon,
}
use local_parental_control.Daemon.Window.{accounting_interval, minutes}
use local_parental_control.Daemon.Window.Laws.{
  IsInside, IsPlainDay, accounting_interval_iff, accounting_interval_late,
}
use local_parental_control.Daemon.State.{Instant}
use local_parental_control.Text.{codes}
use local_parental_control.Config.Clock.Laws.{parse_clock-show_clock}

abbrev hours : UserConfig
hours = record {
  daily_device_minutes = pos 180;
  continuous_use_minutes = pos 60;
  break_minutes = pos 10;
  all_day = false;
  allowed_from = codes "11:00";
  allowed_until = codes "20:00";
  applications = [];
  blocked_domains = [];
}

abbrev at_minute : ℕ → Instant
at_minute n = pos (n * 60000000000)

-- A zone on its first day, with the clock set back by `back` minutes after midnight.
abbrev first_day : ℕ → Zone
first_day back = record {
  date = λ _. codes "2026-11-01";
  hour = λ t. (pos_part t / 60000000000 - back) / 60;
  minute = λ t. (pos_part t / 60000000000 - back) % 60;
  midnight = λ _. pos 0;
}

first_day-IsPlainDay : (end : Instant) → IsPlainDay (first_day 0) end
first_day-IsPlainDay end t day before =
    omega (int_laws, parts_disjoint (t -ℤ pos 0), parts_disjoint t)

eleven : parse_clock (codes "11:00") ≡ some 660
unfolding parse_clock parse_time get_num parse_minute skip_colon
eleven = refl

eight : parse_clock (codes "20:00") ≡ some 1200
unfolding parse_clock parse_time get_num parse_minute skip_colon
eight = refl

-- An interval around 11:00 is clipped at 11:00.
clipped_start :
    accounting_interval (at_minute 659) (at_minute 661) hours (first_day 0)
    ≡ (at_minute 660, at_minute 661, true)
unfolding accounting_interval minutes parse_time or_midnight get_num parse_minute skip_colon ◌+ℤ◌
clipped_start = refl

accounting_interval_iff_example :
    IsInside
      (at_minute 660)
      (accounting_interval (at_minute 659) (at_minute 661) hours (first_day 0))
    ↔ (allowed_at (first_day 0) hours (at_minute 660) ≡ true)
accounting_interval_iff_example =
    accounting_interval_iff (at_minute 659) (at_minute 661) (at_minute 660) hours (first_day 0)
      eleven eight (first_day-IsPlainDay (at_minute 661)) (omega arith) (omega arith) (omega arith)

-- At 19:30 of a day of 25 hours.
accounting_interval_late_example :
    (allowed_at (first_day 60) hours (at_minute 1230) ≡ true)
    × ((accounting_interval (at_minute 1230) (at_minute 1231) hours (first_day 60)).2 ≡ false)
unfolding minutes ◌+ℤ◌
accounting_interval_late_example =
    accounting_interval_late (at_minute 1230) (at_minute 1231) hours (first_day 60) eleven eight
      refl (omega arith) (omega arith) (omega arith) (omega arith)

parse_clock-show_clock_example : parse_clock (codes "07:05") ≡ some 425
parse_clock-show_clock_example = parse_clock-show_clock 425 (omega arith)

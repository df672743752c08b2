-- ===== src/Daemon/Window.antt =====
-- `accountingInterval` of internal/daemon/daemon.go: an interval of use clipped to the allowed hours.
pub mod Laws
mod Tests
use local_parental_control.Base.{ℕ, ◌*◌, Bool, ◌+◌, if◌then◌else◌, true, false}
use local_parental_control.Config.Clock.{parse_time, or_midnight, Zone}
use local_parental_control.Int.{ℤ, pos, ◌+ℤ◌, ltb_ℤ}
use local_parental_control.Daemon.State.{Instant}
use local_parental_control.Config.{UserConfig}

-- `time.Duration(minutes) * time.Minute`, in nanoseconds.
unfoldable pub minutes : ℕ → ℤ
minutes n = pos (n * 60000000000)

-- The part of the interval that lies within the allowed hours of the day of `end`, and whether
-- there is any.
unfoldable pub accounting_interval :
    Instant → Instant → UserConfig → Zone → Instant × Instant × Bool
accounting_interval start end uc zone =
    let day_start : Instant = zone.midnight end in
    let from_clock : ℕ × ℕ = or_midnight (parse_time uc.allowed_from) in
    let until_clock : ℕ × ℕ = or_midnight (parse_time uc.allowed_until) in
    let allowed_from : Instant = day_start +ℤ minutes (from_clock.0 * 60 + from_clock.1) in
    let allowed_until : Instant = day_start +ℤ minutes (until_clock.0 * 60 + until_clock.1) in
    let clipped_start : Instant = if ltb_ℤ start allowed_from then allowed_from else start in
    let clipped_end : Instant = if ltb_ℤ allowed_until end then allowed_until else end in
    if ltb_ℤ start end
    then (if uc.all_day
        then (start, end, true)
        else (clipped_start, clipped_end, ltb_ℤ clipped_start clipped_end))
    else (end, end, false)

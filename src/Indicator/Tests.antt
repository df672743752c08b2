-- ===== src/Indicator/Tests.antt =====
-- The indicator of a user with some minutes left.
use local_parental_control.Int.{pos, ◌-ℤ◌}
use local_parental_control.Indicator.{remaining, minutes_up}
use local_parental_control.Base.{◌≡◌, refl}

minutes_left : remaining (pos 100) (pos 3600) ≡ 59
unfolding remaining minutes_up ◌-ℤ◌
minutes_left = refl

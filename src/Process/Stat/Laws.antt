-- ===== src/Process/Stat/Laws.antt =====
-- A process cannot choose its start time by its name.
use local_parental_control.Process.Stat.{after_last, read_start_time, start_time_field}
use local_parental_control.Base.{
  ℕ, List, ◌≡◌, none, ◌++◌, ◌<◌, length, ◌∷◌, some, nat_eq_iff, arith, [], refl,
}
use local_parental_control.Text.{Str}

after_last-append :
    (c : ℕ) (name rest : Str)
    → after_last c rest ≡ none
    → after_last c (name ++ c ∷ rest) ≡ some rest
unfolding after_last
after_last-append c [] rest h = rw (h, after_last, (nat_eq_iff c c).1 refl)
after_last-append c (a ∷ name) rest h = rw (after_last-append c name rest h, after_last)

-- The start time is read from the fields behind the name of the process, whatever bytes the name
-- holds, closing parentheses included, as long as those fields hold none and are not empty.
pub read_start_time-name :
    (unicode_fields : Str → List Str) (name rest : Str)
    → after_last b')' rest ≡ none
    → 1 < length rest
    → read_start_time unicode_fields (some (name ++ b')' ∷ rest))
      ≡ start_time_field unicode_fields rest
unfolding read_start_time
read_start_time-name unicode_fields name rest h long =
    rw (after_last-append b')' name rest h, read_start_time) (ground (arith))

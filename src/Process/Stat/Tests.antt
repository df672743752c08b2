-- ===== src/Process/Stat/Tests.antt =====
-- A process that puts a closing parenthesis into its name.
use local_parental_control.Text.{Str, codes, fields, is_ascii}
use local_parental_control.Process.Stat.{after_last, read_start_time, start_time_field}
use local_parental_control.Base.{List, some, ◌≡◌, none, ◌++◌, ◌∷◌, refl, [], arith}
use local_parental_control.Process.Stat.Laws.{read_start_time-name}
use local_parental_control.Config.Paths.{parse_uint, parse_digits}
use local_parental_control.Config.Clock.{is_digit}

abbrev behind : Str
behind = codes " S 1 2 3 4 5 6 7 8 9 10 11 12 13 14 15 16 17 18 4711 20"

abbrev whole_fields : Str → List Str
whole_fields s = s ∷ []

no_parenthesis : after_last b')' behind ≡ none
unfolding after_last
no_parenthesis = refl

read_start_time-name_example :
    read_start_time whole_fields (some (codes "42 (a) S 1" ++ b')' ∷ behind))
    ≡ start_time_field whole_fields behind
read_start_time-name_example =
    read_start_time-name whole_fields (codes "42 (a) S 1") behind no_parenthesis (omega arith)

start_time_there : start_time_field whole_fields behind ≡ some 4711
unfolding start_time_field fields is_ascii parse_uint parse_digits is_digit
start_time_there = refl

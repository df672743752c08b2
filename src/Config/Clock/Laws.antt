-- ===== src/Config/Clock/Laws.antt =====
-- A clock time is accepted exactly when it is written HH:MM, and is read back from that text.

-- Two digits, and a minute of the day as HH:MM.
use local_parental_control.Base.{
  ℕ, Bool, ◌/◌, ◌≡◌, ◌+◌, some, ◌<◌, ◌∷◌, arith, ◌%◌, ◌⊎◌, [], false, true, length, suc,
  Option-cases, inl, inr, ◌*◌,
}
use local_parental_control.Config.Clock.{
  get_num, parse_clock, parse_time, parse_minute, skip_colon, ◌>>=◌, or_midnight,
}
use local_parental_control.Text.{Str}

abbrev pub two_digits : ℕ → Str → Str
two_digits n rest = (b'0' + n / 10) ∷ (b'0' + n % 10) ∷ rest

abbrev pub show_clock : ℕ → Str
show_clock n = two_digits (n / 60) (b':' ∷ two_digits (n % 60) [])

get_num-two_digits :
    (fixed : Bool) (n : ℕ) (rest : Str)
    → n < 100
    → get_num fixed (two_digits n rest) ≡ some (n, rest)
unfolding get_num
get_num-two_digits fixed n rest h = ground arith

parse_minute-two_digits : (h n : ℕ) → n < 60 → parse_minute h (b':' ∷ two_digits n []) ≡ some (h, n)
unfolding parse_minute skip_colon
parse_minute-two_digits h n lt =
    rw (get_num-two_digits true n [] (omega arith), ◌>>=◌) (ground arith)

-- Every minute of the day is read back from its text HH:MM.
pub parse_clock-show_clock : (n : ℕ) → n < 1440 → parse_clock (show_clock n) ≡ some n
unfolding parse_clock parse_time
parse_clock-show_clock n h =
    rw
      (
        get_num-two_digits false (n / 60) (b':' ∷ two_digits (n % 60) []) (omega arith),
        parse_clock,
        parse_time,
        ◌>>=◌,
      )
      (ground (arith, parse_minute-two_digits (n / 60) (n % 60)))

get_num_sound :
    (fixed : Bool) (text rest : Str) (n : ℕ)
    → get_num fixed text ≡ some (n, rest)
    → (n < 100)
      × ((text ≡ two_digits n rest) ⊎ ((fixed ≡ false) × (length text ≡ suc (length rest))))
unfolding get_num
get_num_sound fixed [] rest n e = cc
get_num_sound fixed (a ∷ []) rest n e = ground arith
get_num_sound fixed (a ∷ b ∷ more) rest n e = ground arith

parse_minute_sound :
    (h : ℕ) (text : Str) (k m : ℕ)
    → parse_minute h text ≡ some (k, m)
    → (h ≡ k) × (m < 60) × (text ≡ b':' ∷ two_digits m [])
unfolding parse_minute skip_colon
parse_minute_sound h [] k m e = cc
parse_minute_sound h (c ∷ text) k m e = elim (Option-cases (get_num true text)) [
  | inl bad ↦ ground arith
  | inr ((n, []), read) ↦ ground (arith, get_num_sound true text [] n read)
  | inr ((n, d ∷ more), read) ↦ ground arith
]

parse_time_sound :
    (value : Str) (h m : ℕ)
    → parse_time value ≡ some (h, m)
    → (h < 24) × (m < 60) × ((value ≡ show_clock (h * 60 + m)) ⊎ (length value ≡ 4))
unfolding parse_time
parse_time_sound value h m e = elim (Option-cases (get_num false value)) [
  | inl bad ↦ ground arith
  | inr ((n, rest), read) ↦
      ground (arith, get_num_sound false value rest n read, parse_minute_sound n rest h m)
]

-- A text that is accepted as a clock time is HH:MM for a minute of the day.
pub parse_clock_sound :
    (value : Str) (n : ℕ) → parse_clock value ≡ some n → (n < 1440) × (value ≡ show_clock n)
unfolding parse_clock
parse_clock_sound value n e = elim (Option-cases (parse_time value)) [
  | inl bad ↦ ground arith
  | inr ((h, m), read) ↦ ground (arith, parse_time_sound value h m read)
]

-- What the accounting reads of a valid clock time is the minute that the schedule reads.
pub or_midnight-parse_time :
    (value : Str) (n : ℕ)
    → parse_clock value ≡ some n
    → (or_midnight (parse_time value)).0 * 60 + (or_midnight (parse_time value)).1 ≡ n
unfolding parse_clock or_midnight
or_midnight-parse_time value n e = elim (Option-cases (parse_time value)) [
  | inl bad ↦ ground arith
  | inr ((h, m), read) ↦ ground arith
]

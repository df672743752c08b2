-- ===== src/Config/Clock.antt =====
-- Clock times: `time.Parse("15:04", ...)`, `parseClock` and `AllowedAt` of internal/config/config.go.
pub mod Laws
use local_parental_control.Base.{
  ℕ, Bool, Option, leb, none, true, false, some, ◌*◌, ◌&&◌, ◌∷◌, if◌then◌else◌, ◌+◌, not, nat_eq,
  ltb, length, ◌-◌, [],
}
use local_parental_control.Int.{ℤ}
use local_parental_control.Text.{Str}
use local_parental_control.Config.{UserConfig}

-- What the program reads of a time zone. The zone data are not part of the repository, so a zone
-- is a parameter: the local date, hour and minute of an instant, and the first instant of its day.
pub record Zone : Type 0 where
  pub date : ℤ → Str
  pub hour : ℤ → ℕ
  pub minute : ℤ → ℕ
  pub midnight : ℤ → ℤ

unfoldable pub is_digit : ℕ → Bool
is_digit c = leb b'0' c && leb c b'9'

-- Two digits of a text, as package `time` reads a number; `fixed` refuses a single digit.
unfoldable pub get_num : Bool → Str → Option (ℕ × Str)
unfolding is_digit
get_num fixed [] = none
get_num fixed (a ∷ []) = if is_digit a && not fixed then some (a - b'0', []) else none
get_num fixed (a ∷ b ∷ rest) =
    if is_digit a
    then (if is_digit b
        then some ((a - b'0') * 10 + (b - b'0'), rest)
        else (if fixed then none else some (a - b'0', b ∷ rest)))
    else none

unfoldable pub skip_colon : Str → Option Str
skip_colon [] = none
skip_colon (c ∷ rest) = if nat_eq c b':' then some rest else none

infixl 5 ◌>>=◌
abbrev pub ◌>>=◌ {ℓ κ} : {A : Type ℓ} {B : Type κ} → Option A → (A → Option B) → Option B
none >>= f = none
some a >>= f = f a

-- The rest of the layout after the hour.
unfoldable pub parse_minute : ℕ → Str → Option (ℕ × ℕ)
unfolding get_num skip_colon
parse_minute hour text = do
  after ← skip_colon text
  read ← get_num true after
  if leb 60 read.0 then none else (elim read.1 [ [] ↦ some (hour, read.0) | extra ∷ more ↦ none ])

-- `time.Parse("15:04", value)`: the hour and the minute.
unfoldable pub parse_time : Str → Option (ℕ × ℕ)
unfolding get_num parse_minute
parse_time value = do
  read ← get_num false value
  if leb 24 read.0 then none else parse_minute read.0 read.1

unfoldable pub parse_clock : Str → Option ℕ
unfolding parse_time
parse_clock value = elim (parse_time value) [
  | none ↦ none
  | some clock ↦ if nat_eq (length value) 5 then some (clock.0 * 60 + clock.1) else none
]

-- A result whose error is ignored: the zero value stands in.
unfoldable pub or_zero : Option ℕ → ℕ
or_zero none = 0
or_zero (some n) = n

unfoldable pub or_midnight : Option (ℕ × ℕ) → ℕ × ℕ
or_midnight none = (0, 0)
or_midnight (some clock) = clock

-- `u.AllowedAt(t.In(location))`
unfoldable pub allowed_at : Zone → UserConfig → ℤ → Bool
allowed_at zone uc t =
    let from : ℕ = or_zero (parse_clock uc.allowed_from) in
    let until : ℕ = or_zero (parse_clock uc.allowed_until) in
    let minute : ℕ = zone.hour t * 60 + zone.minute t in
    if uc.all_day then true else leb from minute && ltb minute until

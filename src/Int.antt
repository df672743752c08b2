-- ===== src/Int.antt =====
-- Go's signed numbers: `int64` counters, and instants and durations in nanoseconds. The values of
-- the program stay far inside 64 bits, so no wrap-around is written. Sums, products by a constant
-- and orders go through the two parts of a number, which `omega` reads.
use local_parental_control.Base.{
  ℕ, suc, ◌+◌, ◌-◌, ◌*◌, ◌/◌, ◌≤◌, ◌<◌, ◌≡◌, refl, ◌⊎◌, inl, inr, Bool, true, false, not, arith,
  ltb, leb, if◌then◌else◌,
}

-- `negsuc n` is -(n + 1).
pub data ℤ : Type 0 where
  pos : ℕ → ℤ
  negsuc : ℕ → ℤ

abbrev pub pos_part : ℤ → ℕ
pos_part (pos n) = n
pos_part (negsuc n) = 0

abbrev pub neg_part : ℤ → ℕ
neg_part (pos n) = 0
neg_part (negsuc n) = suc n

-- a - b, as a signed number.
abbrev pub sub_ℕ : ℕ → ℕ → ℤ
sub_ℕ a b = if leb b a then pos (a - b) else negsuc (b - a - 1)

infixl 65 ◌+ℤ◌ ◌-ℤ◌
infix 50 ◌≤ℤ◌ ◌<ℤ◌
unfoldable pub ◌+ℤ◌ : ℤ → ℤ → ℤ
a +ℤ b = sub_ℕ (pos_part a + pos_part b) (neg_part a + neg_part b)

unfoldable pub ◌-ℤ◌ : ℤ → ℤ → ℤ
a -ℤ b = sub_ℕ (pos_part a + neg_part b) (neg_part a + pos_part b)

-- A multiple, and Go's `/` by a positive constant, which truncates towards zero.
unfoldable pub times : ℕ → ℤ → ℤ
times k a = sub_ℕ (pos_part a * k) (neg_part a * k)

unfoldable pub div_by : ℕ → ℤ → ℤ
div_by k a = sub_ℕ (pos_part a / k) (neg_part a / k)

abbrev pub ◌≤ℤ◌ : ℤ → ℤ → Type 0
a ≤ℤ b = pos_part a + neg_part b ≤ pos_part b + neg_part a

abbrev pub ◌<ℤ◌ : ℤ → ℤ → Type 0
a <ℤ b = pos_part a + neg_part b < pos_part b + neg_part a

abbrev pub ltb_ℤ : ℤ → ℤ → Bool
ltb_ℤ a b = ltb (pos_part a + neg_part b) (pos_part b + neg_part a)

abbrev pub leb_ℤ : ℤ → ℤ → Bool
leb_ℤ a b = leb (pos_part a + neg_part b) (pos_part b + neg_part a)

pub +ℤ_parts :
    (a b : ℤ)
    → pos_part (a +ℤ b) + neg_part a + neg_part b ≡ neg_part (a +ℤ b) + pos_part a + pos_part b
unfolding ◌+ℤ◌
+ℤ_parts a b = ground arith

pub -ℤ_parts :
    (a b : ℤ)
    → pos_part (a -ℤ b) + neg_part a + pos_part b ≡ neg_part (a -ℤ b) + pos_part a + neg_part b
unfolding ◌-ℤ◌
-ℤ_parts a b = ground arith

pub eq_of_parts : (a b : ℤ) → pos_part a + neg_part b ≡ pos_part b + neg_part a → a ≡ b
eq_of_parts a b h = ground arith

pub parts_disjoint : (a : ℤ) → (pos_part a ≡ 0) ⊎ (neg_part a ≡ 0)
parts_disjoint (pos n) = inr refl
parts_disjoint (negsuc n) = inl refl

pub ruleset int_laws = (arith, +ℤ_parts, -ℤ_parts, eq_of_parts)

-- Nanoseconds in a second, and a minute's seconds.
abbrev pub ns : ℕ
ns = 1000000000

-- `time.Duration(n) * time.Second`
unfoldable pub seconds : ℤ → ℤ
seconds a = times ns a

-- `int64(d / time.Second)`
unfoldable pub whole_seconds : ℤ → ℤ
whole_seconds d = div_by ns d

pub seconds_parts :
    (a : ℤ) → pos_part (seconds a) + neg_part a * ns ≡ neg_part (seconds a) + pos_part a * ns
unfolding seconds times
seconds_parts a = ground arith

-- On a duration that is not negative the truncated quotient is the floor.
pub whole_seconds_bounds :
    (d : ℤ)
    → pos 0 ≤ℤ d
    → (neg_part (whole_seconds d) ≡ 0)
      × (pos_part (whole_seconds d) * ns + neg_part d ≤ pos_part d)
      × (pos_part d < (pos_part (whole_seconds d) + 1) * ns + neg_part d)
unfolding whole_seconds div_by
whole_seconds_bounds (pos n) h = ground arith
whole_seconds_bounds (negsuc n) h = absurd (omega arith)

pub lt→ltb_ℤ : (a b : ℤ) → a <ℤ b → ltb_ℤ a b ≡ true
lt→ltb_ℤ a b h = ground arith

-- ===== src/Daemon/Window/Laws.antt =====
-- The clipped interval against the allowed hours.

-- The day of `end` has no change of the zone's offset up to `end`: on it the local clock shows the
-- minutes since midnight.
use local_parental_control.Config.Clock.{Zone, allowed_at, parse_clock, or_zero}
use local_parental_control.Daemon.State.{Instant}
use local_parental_control.Daemon.Window.{accounting_interval, minutes}
use local_parental_control.Base.{
  Bool, ◌≡◌, ◌*◌, true, ℕ, ◌+◌, some, ◌/◌, ◌↔◌, arith, ◌≤◌, ◌<◌, false, Bool-cases, if◌then◌else◌,
  inl, inr, ap, ◌∙◌,
}
use local_parental_control.Int.{
  ◌≤ℤ◌, pos_part, ◌<ℤ◌, ◌-ℤ◌, ◌+ℤ◌, int_laws, parts_disjoint, ltb_ℤ, lt→ltb_ℤ,
}
use local_parental_control.Config.{UserConfig}
use local_parental_control.Config.Clock.Laws.{or_midnight-parse_time}

abbrev pub IsPlainDay : Zone → Instant → Type 0
IsPlainDay zone end =
    (t : Instant)
    → zone.midnight end ≤ℤ t
    → t ≤ℤ end
    → zone.hour t * 60 + zone.minute t ≡ pos_part (t -ℤ zone.midnight end) / 60000000000

-- An instant lies in the clipped interval.
abbrev pub IsInside : Instant → Instant × Instant × Bool → Type 0
IsInside t (from, until, eligible) = (eligible ≡ true) × (from ≤ℤ t) × (t <ℤ until)

module _ (start_of_day t : Instant) (n : ℕ) where
  abbrev elapsed_minutes : ℕ
  elapsed_minutes = pos_part (t -ℤ start_of_day) / 60000000000

  at_or_after : start_of_day ≤ℤ t → ((start_of_day +ℤ minutes n) ≤ℤ t) ↔ (n ≤ elapsed_minutes)
  unfolding minutes
  at_or_after day = (
    λ h. omega (int_laws, parts_disjoint (t -ℤ start_of_day)),
    λ h. omega (int_laws, parts_disjoint (t -ℤ start_of_day)),
  )

  strictly_before : start_of_day ≤ℤ t → (t <ℤ (start_of_day +ℤ minutes n)) ↔ (elapsed_minutes < n)
  unfolding minutes
  strictly_before day = (
    λ h. omega (int_laws, parts_disjoint (t -ℤ start_of_day)),
    λ h. omega (int_laws, parts_disjoint (t -ℤ start_of_day)),
  )

abbrev clip : Instant → Instant → Instant → Instant → Instant × Instant × Bool
clip start end low high =
    let from : Instant = if ltb_ℤ start low then low else start in
    let until : Instant = if ltb_ℤ high end then high else end in (from, until, ltb_ℤ from until)

clip-IsInside :
    (start end low high t : Instant)
    → start ≤ℤ t
    → t <ℤ end
    → IsInside t (clip start end low high) ↔ ((low ≤ℤ t) × (t <ℤ high))
clip-IsInside start end low high t after before = ground arith

-- With valid clock times an interval is clipped between the two of them.
interval-clip :
    (start end : Instant) (uc : UserConfig) (zone : Zone) {from until : ℕ}
    → parse_clock uc.allowed_from ≡ some from
    → parse_clock uc.allowed_until ≡ some until
    → uc.all_day ≡ false
    → start <ℤ end
    → accounting_interval start end uc zone
      ≡ clip start end (zone.midnight end +ℤ minutes from) (zone.midnight end +ℤ minutes until)
unfolding accounting_interval
interval-clip start end uc zone {from} {until} first last hours order = rw (
  hours,
  lt→ltb_ℤ start end order,
  or_midnight-parse_time uc.allowed_from from first,
  or_midnight-parse_time uc.allowed_until until last,
  accounting_interval,
)

allowed_hours :
    (t : Instant) (uc : UserConfig) (zone : Zone) {from until : ℕ}
    → parse_clock uc.allowed_from ≡ some from
    → parse_clock uc.allowed_until ≡ some until
    → uc.all_day ≡ false
    → (allowed_at zone uc t ≡ true)
      ↔ ((from ≤ zone.hour t * 60 + zone.minute t) × (zone.hour t * 60 + zone.minute t < until))
unfolding allowed_at or_zero
allowed_hours t uc zone first last hours = ground arith

all_day_interval :
    (start end t : Instant) (uc : UserConfig) (zone : Zone)
    → uc.all_day ≡ true
    → start ≤ℤ t
    → t <ℤ end
    → IsInside t (accounting_interval start end uc zone) × (allowed_at zone uc t ≡ true)
unfolding accounting_interval allowed_at
all_day_interval start end t uc zone always after before = ground arith

-- On a day without a change of offset, of a user whose hours are valid clock times, an instant of
-- the interval that is not before midnight lies in the clipped interval exactly when `AllowedAt`
-- allows it.
pub accounting_interval_iff :
    (start end t : Instant) (uc : UserConfig) (zone : Zone) {from until : ℕ}
    → parse_clock uc.allowed_from ≡ some from
    → parse_clock uc.allowed_until ≡ some until
    → IsPlainDay zone end
    → zone.midnight end ≤ℤ t
    → start ≤ℤ t
    → t <ℤ end
    → IsInside t (accounting_interval start end uc zone) ↔ (allowed_at zone uc t ≡ true)
accounting_interval_iff start end t uc zone {from} {until} first last plain day after before =
    let mid : Instant = zone.midnight end in
    elim (Bool-cases uc.all_day) [
      | inl always ↦
          let (inside, allowed) = all_day_interval start end t uc zone always after before in
          (λ _. allowed, λ _. inside)
      | inr hours ↦
          let same = interval-clip start end uc zone first last hours (omega arith) in
          rw same (
            ground (
              arith,
              clip-IsInside start end (mid +ℤ minutes from) (mid +ℤ minutes until) t after before,
              allowed_hours t uc zone first last hours,
              plain t day (omega arith),
              at_or_after mid t from day,
              strictly_before mid t until day,
            ))
    ]

clip_late :
    (start end low high : Instant)
    → high ≤ℤ start
    → start <ℤ end
    → (clip start end low high).2 ≡ false
clip_late start end low high late order = ground arith

-- Where an interval begins no earlier than `allowed_until` counted from midnight as elapsed time,
-- while the local clock at its begin still shows an allowed time (the clock was set back on that
-- day), `AllowedAt` allows access and the accounting counts nothing.
pub accounting_interval_late :
    (start end : Instant) (uc : UserConfig) (zone : Zone) {from until : ℕ}
    → parse_clock uc.allowed_from ≡ some from
    → parse_clock uc.allowed_until ≡ some until
    → uc.all_day ≡ false
    → start <ℤ end
    → zone.midnight end +ℤ minutes until ≤ℤ start
    → from ≤ zone.hour start * 60 + zone.minute start
    → zone.hour start * 60 + zone.minute start < until
    → (allowed_at zone uc start ≡ true) × ((accounting_interval start end uc zone).2 ≡ false)
accounting_interval_late start end uc zone {from} {until} first last hours order late low high =
    let mid : Instant = zone.midnight end in
    (
      (allowed_hours start uc zone first last hours).1 (low, high),
      ap (λ r. r.2) (interval-clip start end uc zone first last hours order)
          ∙ clip_late start end (mid +ℤ minutes from) (mid +ℤ minutes until) late order,
    )

-- ===== src/Daemon/Accounting/Rounds.antt =====
-- What one round of the accounting loop does to a user's meter: the measure that ends the loop, and
-- the invariant that bounds the counters.
use local_parental_control.Base.{
  ◌≡◌, ◌⊎◌, arith, Option, ℕ, none, some, ◌*◌, ◌+◌, ◌≤◌, ◌<◌, if◌then◌else◌, inl, inr, Option-cases,
}
use local_parental_control.Int.{
  ℤ, pos, neg_part, ◌+ℤ◌, ◌-ℤ◌, ◌≤ℤ◌, ◌<ℤ◌, seconds, whole_seconds, int_laws, seconds_parts,
  whole_seconds_bounds, pos_part, leb_ℤ, +ℤ_parts, -ℤ_parts, -ℤ_parts,
}
use local_parental_control.Daemon.State.{Instant}
use local_parental_control.Daemon.Accounting.{at_most}
use local_parental_control.Daemon.Accounting.Meter.{Meter, amount_of, charged, rested, meter_round}

pub at_most_bounds :
    (v r : ℤ) → (at_most v r ≤ℤ v) × (at_most v r ≤ℤ r) × ((at_most v r ≡ v) ⊎ (at_most v r ≡ r))
unfolding at_most
at_most_bounds v r = ground arith

at_most_low :
    (v r l : ℤ)
    → pos 1 ≤ℤ v
    → pos 1 ≤ℤ r
    → (pos 1 ≤ℤ at_most (at_most v r) l) ⊎ ((at_most (at_most v r) l ≡ l) × (l ≤ℤ pos 0))
unfolding at_most
at_most_low v r l h k = ground arith

module _ (most longest rest : ℤ) (end : Instant) where
  abbrev pub available : Meter → ℤ
  available m = whole_seconds (end -ℤ m.start)

  pub amount_le :
      (m : Meter)
      → (amount_of most longest rest end m ≤ℤ available m)
        × (amount_of most longest rest end m ≤ℤ most -ℤ m.device)
        × (amount_of most longest rest end m ≤ℤ longest -ℤ m.continuous)
  amount_le m = omega (
    arith,
    at_most_bounds (available m) (most -ℤ m.device),
    at_most_bounds (at_most (available m) (most -ℤ m.device)) (longest -ℤ m.continuous),
  )

  -- A charge of at most the whole seconds that are left leaves that many fewer.
  pub available-charged :
      (m : Meter) (a : ℤ)
      → m.start <ℤ end
      → a ≤ℤ available m
      → (neg_part (available (charged most longest rest end m a)) ≡ 0)
        × (available (charged most longest rest end m a) +ℤ a ≤ℤ available m)
  unfolding charged
  available-charged m a before fits =
      let left : ℤ = end -ℤ (m.start +ℤ seconds a) in
      let h : pos 0 ≤ℤ left =
        omega (int_laws, seconds_parts a, whole_seconds_bounds (end -ℤ m.start)) in
      (
        omega (arith, whole_seconds_bounds left h),
        omega (
          int_laws,
          seconds_parts a,
          whole_seconds_bounds left h,
          whole_seconds_bounds (end -ℤ m.start),
        ),
      )

  abbrev pub pending : Option Instant → ℕ
  pending none = 0
  pending (some until) = 1

  -- What is left to do: the whole seconds, the excess of the continuous counter, and the break.
  abbrev pub work : Meter → ℕ
  work m =
      2 * pos_part (available m)
      + 2 * pos_part (m.continuous -ℤ longest)
      + (if leb_ℤ longest m.continuous then 2 else 0)
      + pending m.break_end

  excess_none : (c : ℤ) → c <ℤ longest → pos_part (c -ℤ longest) ≡ 0
  unfolding ◌-ℤ◌
  excess_none c h = ground arith

  excess_some :
      (c : ℤ)
      → longest ≤ℤ c
      → pos_part (c -ℤ longest) + pos_part longest + neg_part c ≡ pos_part c + neg_part longest
  unfolding ◌-ℤ◌
  excess_some c h = ground arith

  available_later :
      (m : Meter) (until : Instant)
      → m.start ≤ℤ until
      → until ≤ℤ end
      → pos_part (available (record m { start = until })) ≤ pos_part (available m)
  available_later m until h k =
      omega (int_laws, whole_seconds_bounds (end -ℤ m.start), whole_seconds_bounds (end -ℤ until))

  -- Leaving a break is progress.
  rested-work :
      pos 1 ≤ℤ longest
      → (m t : Meter) (until : Instant) → m.start <ℤ end
      → m.break_end ≡ some until
      → rested most longest rest end m until ≡ some t
      → work t < work m
  unfolding rested
  rested-work one m t until before stored e =
      ground (arith, available_later m until, excess_none (pos 0))

  -- A charge leaves the continuous counter below its limit.
  charged-continuous :
      pos 1 ≤ℤ longest
      → (m : Meter) (a : ℤ)
      → ((charged most longest rest end m a).continuous <ℤ longest)
        × (pending (charged most longest rest end m a).break_end ≤ 1)
  unfolding charged
  charged-continuous one m a = ground arith

  charged_light :
      pos 1 ≤ℤ longest
      → (m : Meter) (a : ℤ)
      → work (charged most longest rest end m a)
        ≤ 2 * pos_part (available (charged most longest rest end m a)) + 1
  charged_light one m a = ground (
    arith,
    charged-continuous one m a,
    excess_none (charged most longest rest end m a).continuous,
  )

  charged_over :
      pos 1 ≤ℤ longest
      → (m : Meter) (a : ℤ) → m.start <ℤ end
      → a ≤ℤ available m
      → a ≡ longest -ℤ m.continuous
      → longest ≤ℤ m.continuous
      → work (charged most longest rest end m a) < work m
  charged_over one m a before fits same over = ground (
    arith,
    charged_light one m a,
    available-charged m a before fits,
    excess_some m.continuous over,
    +ℤ_parts (available (charged most longest rest end m a)) a,
    -ℤ_parts longest m.continuous,
  )

  charged_pos :
      pos 1 ≤ℤ longest
      → (m : Meter) (a : ℤ) → m.start <ℤ end
      → a ≤ℤ available m
      → pos 1 ≤ℤ a
      → work (charged most longest rest end m a) < work m
  charged_pos one m a before fits positive = ground (
    arith,
    charged_light one m a,
    available-charged m a before fits,
    +ℤ_parts (available (charged most longest rest end m a)) a,
    whole_seconds_bounds (end -ℤ m.start),
    -ℤ_parts end m.start,
  )

  -- A charge that is not positive comes from a continuous counter at or above its limit.
  amount_pos :
      (m : Meter)
      → pos 1 ≤ℤ available m
      → m.device <ℤ most
      → (pos 1 ≤ℤ amount_of most longest rest end m)
        ⊎ ((amount_of most longest rest end m ≡ longest -ℤ m.continuous)
            × (longest ≤ℤ m.continuous))
  amount_pos m some_left room =
      elim (at_most_low (available m) (most -ℤ m.device) (longest -ℤ m.continuous) some_left
        (omega int_laws)) [
          | inl positive ↦ inl positive
          | inr (same, low) ↦ inr (same, omega int_laws)
        ]

  -- So is a charge.
  charged-work :
      pos 1 ≤ℤ longest
      → (m : Meter) → m.start <ℤ end
      → m.break_end ≡ none
      → pos 1 ≤ℤ available m
      → m.device <ℤ most
      → work (charged most longest rest end m (amount_of most longest rest end m)) < work m
  charged-work one m before free some_left room =
      let a : ℤ = amount_of most longest rest end m in
      elim (amount_pos m some_left room) [
        | inl positive ↦ charged_pos one m a before (amount_le m).0 positive
        | inr (same, over) ↦ charged_over one m a before (amount_le m).0 same over
      ]

  -- Every round is progress, so the loop ends.
  pub meter_round-work :
      pos 1 ≤ℤ longest
      → (m t : Meter) → meter_round most longest rest end m ≡ some t
      → work t < work m
  unfolding meter_round
  meter_round-work one m t e = elim (Option-cases m.break_end) [
    | inl free ↦ ground (arith, charged-work one m)
    | inr (until, stored) ↦ ground (arith, rested-work one m t until)
  ]

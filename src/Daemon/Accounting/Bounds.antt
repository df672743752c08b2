-- ===== src/Daemon/Accounting/Bounds.antt =====
-- The invariant of the accounting loop: what is counted is what the device counter gains, it never
-- passes the limits, and it never passes the time that has gone by.
use local_parental_control.Daemon.Accounting.Meter.{Meter, amount_of, charged, rested, meter_round}
use local_parental_control.Daemon.Accounting.{at_most}
use local_parental_control.Int.{
  ℤ, pos, ◌≤ℤ◌, whole_seconds, ◌<ℤ◌, ◌+ℤ◌, seconds, ◌-ℤ◌, int_laws, pos_part, neg_part, +ℤ_parts,
  -ℤ_parts, -ℤ_parts, seconds_parts, whole_seconds_bounds,
}
use local_parental_control.Daemon.State.{Instant}
use local_parental_control.Base.{◌≡◌, arith, some, Option-cases, inl, inr, ap}
use local_parental_control.Daemon.Accounting.Rounds.{amount_le}

pub at_most_nonneg : (v r : ℤ) → pos 0 ≤ℤ v → pos 0 ≤ℤ r → pos 0 ≤ℤ at_most v r
unfolding at_most
at_most_nonneg v r h k = ground arith

module _ (most longest rest : ℤ) (begin end : Instant) (before_device : ℤ) where
  pub record IsSane (m : Meter) : Type 0 where
    pub gain : m.device ≡ before_device +ℤ m.counted
    pub counted_nonneg : pos 0 ≤ℤ m.counted
    pub device_le : m.device ≤ℤ most
    pub continuous_nonneg : pos 0 ≤ℤ m.continuous
    pub continuous_le : m.continuous ≤ℤ longest
    pub elapsed : begin +ℤ seconds m.counted ≤ℤ m.start
    pub within : m.start ≤ℤ end

  amount_nonneg :
      {m : Meter}
      → IsSane m
      → pos 0 ≤ℤ whole_seconds (end -ℤ m.start)
      → pos 0 ≤ℤ amount_of most longest rest end m
  amount_nonneg {m} s h =
      at_most_nonneg (at_most (whole_seconds (end -ℤ m.start)) (most -ℤ m.device))
        (longest -ℤ m.continuous)
        (at_most_nonneg (whole_seconds (end -ℤ m.start)) (most -ℤ m.device) h (omega (int_laws, s)))
        (omega (int_laws, s))

  charged_by-IsSane :
      pos 1 ≤ℤ longest
      → (m : Meter) (a : ℤ) → IsSane m
      → m.start <ℤ end
      → pos 0 ≤ℤ a
      → a ≤ℤ whole_seconds (end -ℤ m.start)
      → a ≤ℤ most -ℤ m.device
      → a ≤ℤ longest -ℤ m.continuous
      → IsSane (charged most longest rest end m a)
  unfolding charged
  charged_by-IsSane one m a s before h fits room calm = record {
    gain = omega (int_laws, ap pos_part s.gain, ap neg_part s.gain);
    counted_nonneg = omega (int_laws, s);
    device_le = omega (int_laws, s);
    continuous_nonneg = ground (arith, +ℤ_parts m.continuous a);
    continuous_le = ground (arith, +ℤ_parts m.continuous a, -ℤ_parts longest m.continuous);
    elapsed =
        omega
          (int_laws, s, seconds_parts a, seconds_parts m.counted, seconds_parts (m.counted +ℤ a));
    within = omega (int_laws, s, seconds_parts a, whole_seconds_bounds (end -ℤ m.start));
  }

  charged-IsSane :
      pos 1 ≤ℤ longest
      → {m : Meter} → IsSane m
      → m.start <ℤ end
      → pos 1 ≤ℤ whole_seconds (end -ℤ m.start)
      → IsSane (charged most longest rest end m (amount_of most longest rest end m))
  charged-IsSane one {m} s before left =
      let (fits, room, calm) = amount_le most longest rest end m in
      charged_by-IsSane one m (amount_of most longest rest end m) s before
        (amount_nonneg s (omega arith)) fits room calm

  rested-IsSane :
      pos 1 ≤ℤ longest
      → {m t : Meter} (until : Instant) → IsSane m
      → m.start <ℤ end
      → rested most longest rest end m until ≡ some t
      → IsSane t
  unfolding rested
  rested-IsSane one until s before e = ground arith

  pub meter_round-IsSane :
      pos 1 ≤ℤ longest
      → {m t : Meter} → IsSane m
      → meter_round most longest rest end m ≡ some t
      → IsSane t
  unfolding meter_round
  meter_round-IsSane one {m} {t} s e = elim (Option-cases m.break_end) [
    | inl free ↦ ground (arith, charged-IsSane one s)
    | inr (until, stored) ↦ ground (arith, rested-IsSane one {m = m} {t = t} until s)
  ]

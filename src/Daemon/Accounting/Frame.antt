-- ===== src/Daemon/Accounting/Frame.antt =====
-- The accounting of one user's interval leaves every other user alone.
use local_parental_control.Text.{Str, str_eq}
use local_parental_control.Daemon.Accounting.{
  account_user_interval, leave_break, charge, account_round, Cursor, at_most, account_fuel,
}
use local_parental_control.Daemon.State.{UsageState, Instant}
use local_parental_control.Config.{UserConfig}
use local_parental_control.Base.{
  ◌≡◌, ◌≢◌, some, ◌∙◌, arith, Option-cases, inl, inr, ℕ, subst, ap, some-inj, refl,
}
use local_parental_control.Dict.{lookup, lookup-insert_ne, get_or, lookup-erase_ne}
use local_parental_control.Int.{ℤ, pos, whole_seconds, ◌+ℤ◌, seconds, ◌-ℤ◌, times}
use local_parental_control.Loop.{iterate, iterate-keeps}

-- Two states agree on another user's counters, and on what belongs to no user's counters.
pub record IsSameFor (other : Str) (s t : UsageState) : Type 0 where
  pub date : t.date ≡ s.date
  pub timezone : t.timezone ≡ s.timezone
  pub users : t.users ≡ s.users
  pub device : lookup other t.device_seconds ≡ lookup other s.device_seconds
  pub continuous : lookup other t.continuous_seconds ≡ lookup other s.continuous_seconds
  pub break : lookup other t.break_until ≡ lookup other s.break_until

module _ (username other : Str) (uc : UserConfig) (end : Instant) (apart : other ≢ username) where
  leave_break-IsSameFor :
      (c d : Cursor) (until : Instant)
      → leave_break username uc end c until ≡ some d
      → IsSameFor other c.state d.state
  unfolding leave_break
  leave_break-IsSameFor c d until e = ground (
    arith,
    lookup-insert_ne {k = username} {j = other} (pos 0) c.state.continuous_seconds apart,
    lookup-erase_ne {k = username} {j = other} c.state.break_until apart,
  )

  charge-IsSameFor :
      (c : Cursor) (amount : ℤ) → IsSameFor other c.state (charge username uc end c amount).state
  unfolding charge
  charge-IsSameFor c amount = grind (
    arith,
    lookup-insert_ne {k = username} {j = other}
        (get_or username (pos 0) c.state.device_seconds +ℤ amount) c.state.device_seconds apart,
    lookup-insert_ne {k = username} {j = other} (pos 0) c.state.continuous_seconds apart,
    lookup-insert_ne {k = username} {j = other}
        (get_or username (pos 0) c.state.continuous_seconds +ℤ amount) c.state.continuous_seconds
        apart,
    lookup-insert_ne {k = username} {j = other}
        (c.start +ℤ seconds amount +ℤ seconds (times 60 uc.break_minutes)) c.state.break_until
        apart,
  )

  account_round-IsSameFor :
      (c d : Cursor) → account_round username uc end c ≡ some d → IsSameFor other c.state d.state
  unfolding account_round
  account_round-IsSameFor c d e = elim (Option-cases (lookup username c.state.break_until)) [
    | inl free ↦ ground (
      arith,
      charge-IsSameFor c (
          at_most
            (at_most (whole_seconds (end -ℤ c.start))
              (times 60 uc.daily_device_minutes -ℤ get_or username (pos 0) c.state.device_seconds))
            (times 60 uc.continuous_use_minutes
              -ℤ get_or username (pos 0) c.state.continuous_seconds)),
    )
    | inr (until, stored) ↦ ground (arith, leave_break-IsSameFor c d until)
  ]

  IsSameFor-trans :
      {s t u : UsageState} → IsSameFor other s t → IsSameFor other t u → IsSameFor other s u
  IsSameFor-trans p q = record {
    date = q.date ∙ p.date;
    timezone = q.timezone ∙ p.timezone;
    users = q.users ∙ p.users;
    device = q.device ∙ p.device;
    continuous = q.continuous ∙ p.continuous;
    break = q.break ∙ p.break;
  }

-- Whatever one user's interval does, another user's device counter, continuous counter and break
-- deadline stay as they are, and so do the date, the timezone and every application's counter.
pub account_user_interval-IsSameFor :
    (username other : Str) (uc : UserConfig) (begin end : Instant) (state : UsageState)
    {final : UsageState} {counted : ℤ}
    → other ≢ username
    → account_user_interval username uc begin end state ≡ some (final, counted)
    → IsSameFor other state final
unfolding account_user_interval
account_user_interval-IsSameFor username other uc begin end state {final} apart e =
    let n : ℕ = account_fuel username uc end state begin in
    let c : Cursor = record { state = state; start = begin; counted = pos 0 } in
    elim (Option-cases (iterate n (account_round username uc end) c)) [
      | inl lost ↦ absurd (cc (rw (lost, account_user_interval) at e))
      | inr (d, found) ↦
          let same : some (d.state, d.counted) ≡ some (final, _) =
            rw (found, account_user_interval) at e in
          subst (IsSameFor other state) (ap (λ r. r.0) (some-inj same)) (
            iterate-keeps (λ t. IsSameFor other state t.state) (account_round username uc end)
              (λ s t p q.
                IsSameFor-trans username other uc end apart p
                  (account_round-IsSameFor username other uc end apart s t q))
              n c d
              (record {
                date = refl;
                timezone = refl;
                users = refl;
                device = refl;
                continuous = refl;
                break = refl;
              })
              found)
    ]

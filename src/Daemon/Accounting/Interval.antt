-- ===== src/Daemon/Accounting/Interval.antt =====
-- `accountUserInterval` as a whole: it ends, stays within every limit, and touches one user only.
use local_parental_control.Daemon.Accounting.Meter.{view, user_round, Meter, view-round}
use local_parental_control.Text.{Str, str_eq}
use local_parental_control.Config.{UserConfig}
use local_parental_control.Daemon.State.{Instant, UsageState}
use local_parental_control.Base.{ℕ, ◌≡◌, some, arith, sym, ◌∙◌, subst}
use local_parental_control.Daemon.Accounting.{
  Cursor, account_fuel, account_round, account_user_interval,
}
use local_parental_control.Int.{pos, ◌≤ℤ◌, times, ℤ, ◌+ℤ◌, seconds, int_laws, seconds_parts}
use local_parental_control.Loop.{iterate, map_view, iterate-view, iterate_total, map_view-eq-some}
use local_parental_control.Daemon.Accounting.Rounds.{work, meter_round-work}
use local_parental_control.Dict.{get_or}
use local_parental_control.Daemon.Accounting.Bounds.{IsSane, meter_round-IsSane}

module _ (username : Str) (uc : UserConfig) (begin end : Instant) (state : UsageState) where
  abbrev pub first : Cursor
  first = record { state = state; start = begin; counted = pos 0 }

  -- The loop on the state and the loop on the user's meter are one.
  loop-view :
      (n : ℕ)
      → iterate n (user_round username uc end) (view username first)
        ≡ map_view (view username) (iterate n (account_round username uc end) first)
  loop-view n =
      iterate-view (view username) (account_round username uc end) (user_round username uc end)
        (view-round username uc end) n first

  -- The loop ends on its fuel, and what the rounds keep of the user's meter holds at the end.
  pub ends :
      (P : Meter → Type 0)
      → ((m t : Meter) → P m → user_round username uc end m ≡ some t → P t)
      → pos 1 ≤ℤ times 60 uc.continuous_use_minutes
      → P (view username first)
      → (c : Cursor) × (iterate
            (account_fuel username uc end state begin)
            (account_round username uc end)
            first
          ≡ some c)
        × P (view username c)
  unfolding account_fuel
  ends P keep one p =
      let n : ℕ = account_fuel username uc end state begin in
      let w =
        work (times 60 uc.daily_device_minutes) (times 60 uc.continuous_use_minutes)
          (times 60 uc.break_minutes) end in
      let (m, finished, q, stopped) =
        iterate_total P w (user_round username uc end)
          (λ s t h e. (keep s t h e, meter_round-work _ _ _ end one s t e)) n (view username first)
          p (ground arith) in
      let (c, found, same) =
        map_view-eq-some (view username) (iterate n (account_round username uc end) first)
          (sym (loop-view n) ∙ finished) in
      (c, found, subst P (sym same) q)

  -- The interval's result from a run of the loop on the user's meter.
  pub interval_of_meter :
      {m : Meter}
      → iterate
          (account_fuel username uc end state begin)
          (user_round username uc end)
          (view username first)
        ≡ some m
      → (c : Cursor) × (account_user_interval username uc begin end state
          ≡ some (c.state, c.counted))
        × (view username c ≡ m)
  unfolding account_user_interval
  interval_of_meter e =
      let n : ℕ = account_fuel username uc end state begin in
      let (c, found, same) =
        map_view-eq-some (view username) (iterate n (account_round username uc end) first)
          (sym (loop-view n) ∙ e) in
      (c, rw (found, account_user_interval), same)

  -- What an interval may do to its user's counters.
  pub record IsCharged (final : UsageState) (counted : ℤ) : Type 0 where
    pub gain :
        get_or username (pos 0) final.device_seconds
        ≡ get_or username (pos 0) state.device_seconds +ℤ counted
    pub counted_nonneg : pos 0 ≤ℤ counted
    pub device_le : get_or username (pos 0) final.device_seconds ≤ℤ times 60 uc.daily_device_minutes
    pub continuous_nonneg : pos 0 ≤ℤ get_or username (pos 0) final.continuous_seconds
    pub continuous_le :
        get_or username (pos 0) final.continuous_seconds ≤ℤ times 60 uc.continuous_use_minutes
    pub elapsed : begin +ℤ seconds counted ≤ℤ end

-- For a user with a positive continuous limit the accounting of an interval ends with a result.
pub account_user_interval_ends :
    (username : Str) (uc : UserConfig) (begin end : Instant) (state : UsageState)
    → pos 1 ≤ℤ times 60 uc.continuous_use_minutes
    → (final : UsageState) × (counted : ℤ) × (account_user_interval username uc begin end state
        ≡ some (final, counted))
unfolding account_user_interval
account_user_interval_ends username uc begin end state one =
    let (c, found, p) = ends username uc begin end state (λ _. Unit) (λ m t p e. tt) one tt in
    (c.state, c.counted, rw (found, account_user_interval))

-- An interval that begins no later than it ends, charged to a user whose device counter is within
-- its limit and whose continuous counter lies between zero and its limit, ends with a result:
-- the seconds counted are not negative, take up no more than the interval, and are what the device
-- counter gains; both counters stay within their limits.
pub account_user_interval-IsCharged :
    (username : Str) (uc : UserConfig) (begin end : Instant) (state : UsageState)
    → pos 1 ≤ℤ times 60 uc.continuous_use_minutes
    → begin ≤ℤ end
    → get_or username (pos 0) state.device_seconds ≤ℤ times 60 uc.daily_device_minutes
    → pos 0 ≤ℤ get_or username (pos 0) state.continuous_seconds
    → get_or username (pos 0) state.continuous_seconds ≤ℤ times 60 uc.continuous_use_minutes
    → (final : UsageState) × (counted : ℤ) × (account_user_interval username uc begin end state
        ≡ some (final, counted))
      × IsCharged username uc begin end state final counted
unfolding account_user_interval
account_user_interval-IsCharged username uc begin end state one order room low high =
    let sane =
      IsSane (times 60 uc.daily_device_minutes) (times 60 uc.continuous_use_minutes)
        (times 60 uc.break_minutes) begin end (get_or username (pos 0) state.device_seconds) in
    let start : sane (view username (first username uc begin end state)) = record {
      gain = omega int_laws;
      counted_nonneg = omega arith;
      device_le = room;
      continuous_nonneg = low;
      continuous_le = high;
      elapsed = omega (int_laws, seconds_parts (pos 0));
      within = order;
    } in
    let (c, found, s) =
      ends username uc begin end state sane
        (λ m t h e. meter_round-IsSane _ _ _ begin end _ one h e) one start in
    (
      c.state,
      c.counted,
      rw (found, account_user_interval),
      record {
        gain = s.gain;
        counted_nonneg = s.counted_nonneg;
        device_le = s.device_le;
        continuous_nonneg = s.continuous_nonneg;
        continuous_le = s.continuous_le;
        elapsed = omega (int_laws, s);
      },
    )

-- ===== src/Daemon/Accounting/Exact.antt =====
-- What an interval counts to the second: the plain case, a break that covers it, and a continuous
-- counter that lies above its limit.
use local_parental_control.Daemon.Accounting.Interval.{first, interval_of_meter}
use local_parental_control.Int.{
  ℤ, ◌≤ℤ◌, pos, ◌+ℤ◌, ◌<ℤ◌, int_laws, whole_seconds_bounds, ◌-ℤ◌, seconds, times, whole_seconds,
}
use local_parental_control.Daemon.State.{Instant, UsageState}
use local_parental_control.Daemon.Accounting.Meter.{
  Meter, meter_round, charged, amount_of, rested, view,
}
use local_parental_control.Base.{ℕ, ◌<◌, ◌≡◌, none, some, arith, refl, ap, ◌∙◌}
use local_parental_control.Daemon.Accounting.Rounds.{available, available-charged}
use local_parental_control.Loop.{iterate, iterate_step}
use local_parental_control.Daemon.Accounting.{at_most, account_fuel, Cursor, account_user_interval}
use local_parental_control.Text.{Str, str_eq}
use local_parental_control.Config.{UserConfig}
use local_parental_control.Dict.{lookup, get_or}
use local_parental_control.Daemon.Accounting.Bounds.{at_most_nonneg}

at_most_self : (v r : ℤ) → v ≤ℤ r → at_most v r ≡ v
unfolding at_most
at_most_self v r h = ground arith

at_most_other : (v r : ℤ) → r <ℤ v → at_most v r ≡ r
unfolding at_most
at_most_other v r h = ground arith

module _ (most longest rest : ℤ) (end : Instant) where
  -- A round that charges.
  charging_round :
      (m : Meter)
      → m.start <ℤ end
      → m.break_end ≡ none
      → pos 1 ≤ℤ available most longest rest end m
      → m.device <ℤ most
      → meter_round most longest rest end m
        ≡ some (charged most longest rest end m (amount_of most longest rest end m))
  unfolding meter_round
  charging_round m before free left room = ground arith

  -- A round with less than a second left.
  idle_round :
      (m : Meter)
      → m.break_end ≡ none
      → available most longest rest end m ≤ℤ pos 0
      → meter_round most longest rest end m ≡ none
  unfolding meter_round
  idle_round m free left = ground arith

  charged_calm :
      (m : Meter) (a : ℤ)
      → m.continuous +ℤ a <ℤ longest
      → ((charged most longest rest end m a).break_end ≡ none)
        × ((charged most longest rest end m a).continuous ≡ m.continuous +ℤ a)
  unfolding charged
  charged_calm m a calm = ground arith

  started :
      (m : Meter) → pos 1 ≤ℤ available most longest rest end m → m.start ≤ℤ end → m.start <ℤ end
  started m left order = omega (int_laws, whole_seconds_bounds (end -ℤ m.start))

  plain_amount :
      (m : Meter)
      → m.device +ℤ available most longest rest end m ≤ℤ most
      → m.continuous +ℤ available most longest rest end m <ℤ longest
      → amount_of most longest rest end m ≡ available most longest rest end m
  plain_amount m room calm =
      let s : ℤ = available most longest rest end m in
      rw (at_most_self s (most -ℤ m.device) (omega int_laws))
        (at_most_self s (longest -ℤ m.continuous) (omega int_laws))

  -- With room for all of them, all the whole seconds are counted and the loop ends.
  plain_rounds :
      (m : Meter) {n : ℕ}
      → 1 < n
      → m.start ≤ℤ end
      → m.break_end ≡ none
      → pos 1 ≤ℤ available most longest rest end m
      → m.device +ℤ available most longest rest end m ≤ℤ most
      → m.continuous +ℤ available most longest rest end m <ℤ longest
      → iterate n (meter_round most longest rest end) m
        ≡ some (charged most longest rest end m (available most longest rest end m))
  plain_rounds m {n} fuel order free left room calm =
      let s : ℤ = available most longest rest end m in
      let before : m.start <ℤ end = started m left order in
      let t : Meter = charged most longest rest end m s in
      let charging = charging_round m before free left (omega int_laws) in
      iterate_step (meter_round most longest rest end) m t {n = n} fuel
        (rw (plain_amount m room calm) at charging)
        (idle_round t (charged_calm m s calm).0
          (omega (int_laws, available-charged most longest rest end m s before (omega arith))))

  -- Above its limit the continuous counter makes the charge negative, and sets a break.
  over_amount :
      (m : Meter)
      → pos 1 ≤ℤ available most longest rest end m
      → m.device <ℤ most
      → longest <ℤ m.continuous
      → amount_of most longest rest end m ≡ longest -ℤ m.continuous
  over_amount m left room over =
      at_most_other (at_most (available most longest rest end m) (most -ℤ m.device))
        (longest -ℤ m.continuous)
        (omega (int_laws, at_most_nonneg (available most longest rest end m) (most -ℤ m.device)))

  covered_round :
      (m : Meter) (until : Instant)
      → m.break_end ≡ some until
      → end ≤ℤ until
      → meter_round most longest rest end m ≡ none
  unfolding meter_round rested
  covered_round m until stored covered = ground arith

  charged_full :
      (m : Meter) (a : ℤ)
      → longest ≤ℤ m.continuous +ℤ a
      → (charged most longest rest end m a).break_end ≡ some (m.start +ℤ seconds a +ℤ seconds rest)
  unfolding charged
  charged_full m a full = ground arith

  over_rounds :
      (m : Meter) {n : ℕ}
      → 1 < n
      → m.start ≤ℤ end
      → m.break_end ≡ none
      → pos 1 ≤ℤ available most longest rest end m
      → m.device <ℤ most
      → longest <ℤ m.continuous
      → end ≤ℤ m.start +ℤ seconds (longest -ℤ m.continuous) +ℤ seconds rest
      → iterate n (meter_round most longest rest end) m
        ≡ some (charged most longest rest end m (longest -ℤ m.continuous))
  over_rounds m {n} fuel order free left room over covered =
      let a : ℤ = longest -ℤ m.continuous in
      let t : Meter = charged most longest rest end m a in
      let charging = charging_round m (started m left order) free left room in
      iterate_step (meter_round most longest rest end) m t {n = n} fuel
        (rw (over_amount m left room over) at charging)
        (covered_round t (m.start +ℤ seconds a +ℤ seconds rest) (charged_full m a (omega int_laws))
          covered)

charged_device :
    (most longest rest : ℤ) (end : Instant) (m : Meter) (a : ℤ)
    → ((charged most longest rest end m a).device ≡ m.device +ℤ a)
      × ((charged most longest rest end m a).counted ≡ m.counted +ℤ a)
unfolding charged
charged_device most longest rest end m a = (refl, refl)

fuel_two :
    (username : Str) (uc : UserConfig) (end : Instant) (state : UsageState) (begin : Instant)
    → 1 < account_fuel username uc end state begin
unfolding account_fuel
fuel_two username uc end state begin = omega arith

module _ (username : Str) (uc : UserConfig) (begin end : Instant) (state : UsageState) where
  abbrev most : ℤ
  most = times 60 uc.daily_device_minutes

  abbrev longest : ℤ
  longest = times 60 uc.continuous_use_minutes

  abbrev rest : ℤ
  rest = times 60 uc.break_minutes

  charge_result :
      (m : Meter) (a : ℤ) (c : Cursor)
      → view username c ≡ charged most longest rest end m a
      → (get_or username (pos 0) c.state.device_seconds ≡ m.device +ℤ a)
        × (c.counted ≡ m.counted +ℤ a)
  charge_result m a c same =
      let (d, k) = charged_device most longest rest end m a in
      (ap Meter.device same ∙ d, ap Meter.counted same ∙ k)

  -- What `counted` seconds added to the user's device counter look like from outside.
  abbrev pub CountsOnly : ℤ → Type 0
  CountsOnly amount =
      (final : UsageState) × (account_user_interval username uc begin end state
        ≡ some (final, amount))
      × (get_or username (pos 0) final.device_seconds
          ≡ get_or username (pos 0) state.device_seconds +ℤ amount)

  counts_only :
      (a : ℤ)
      → iterate
          (account_fuel username uc end state begin)
          (meter_round most longest rest end)
          (view username (first username uc begin end state))
        ≡ some (charged most longest rest end (view username (first username uc begin end state)) a)
      → CountsOnly a
  counts_only a e =
      let m : Meter = view username (first username uc begin end state) in
      let (c, found, same) = interval_of_meter username uc begin end state e in
      let (device, counted) = charge_result m a c same in
      let total : c.counted ≡ a = counted ∙ omega int_laws in (c.state, rw (← total) found, device)

-- With no break stored, at least a whole second in the interval, and room below both limits, the
-- interval counts exactly its whole seconds, and the device counter gains exactly those.
pub account_user_interval_exact :
    (username : Str) (uc : UserConfig) (begin end : Instant) (state : UsageState)
    → begin ≤ℤ end
    → lookup username state.break_until ≡ none
    → pos 1 ≤ℤ whole_seconds (end -ℤ begin)
    → get_or username (pos 0) state.device_seconds +ℤ whole_seconds (end -ℤ begin)
      ≤ℤ times 60 uc.daily_device_minutes
    → get_or username (pos 0) state.continuous_seconds +ℤ whole_seconds (end -ℤ begin)
      <ℤ times 60 uc.continuous_use_minutes
    → CountsOnly username uc begin end state (whole_seconds (end -ℤ begin))
account_user_interval_exact username uc begin end state order free left room calm =
    counts_only username uc begin end state (whole_seconds (end -ℤ begin)) (
      plain_rounds _ _ (times 60 uc.break_minutes) end
        (view username (first username uc begin end state)) (fuel_two username uc end state begin)
        order free left room calm)

-- With no break stored, a whole second in the interval, device time left, and a continuous counter
-- above its limit (a reload may lower the limit), an interval that ends before the break so far
-- counts a negative number of seconds: the device counter goes down by the excess.
pub account_user_interval_over :
    (username : Str) (uc : UserConfig) (begin end : Instant) (state : UsageState)
    → begin ≤ℤ end
    → lookup username state.break_until ≡ none
    → pos 1 ≤ℤ whole_seconds (end -ℤ begin)
    → get_or username (pos 0) state.device_seconds <ℤ times 60 uc.daily_device_minutes
    → times 60 uc.continuous_use_minutes <ℤ get_or username (pos 0) state.continuous_seconds
    → end
      ≤ℤ begin
        +ℤ seconds
            (times 60 uc.continuous_use_minutes -ℤ get_or username (pos 0) state.continuous_seconds)
        +ℤ seconds (times 60 uc.break_minutes)
    → CountsOnly username uc begin end state
        (times 60 uc.continuous_use_minutes -ℤ get_or username (pos 0) state.continuous_seconds)
      × (times 60 uc.continuous_use_minutes -ℤ get_or username (pos 0) state.continuous_seconds
          <ℤ pos 0)
account_user_interval_over username uc begin end state order free left room over covered = (
  counts_only username uc begin end state _ (
      over_rounds _ _ (times 60 uc.break_minutes) end
        (view username (first username uc begin end state)) (fuel_two username uc end state begin)
        order free left room over covered),
  omega int_laws,
)

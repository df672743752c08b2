-- ===== src/Daemon/Iteration/Enforcement.antt =====
-- What an iteration enforces on every configured user.
use local_parental_control.Base.{
  ℕ, ◌≡◌, arith, true, some, false, ℕ_eq, Bool, [], subst, sym, ◌∙◌, if◌then◌else◌, ◌==◌,
  Option-cases, inr, inl, Bool-cases,
}
use local_parental_control.Text.{Str, str_eq, str_ltb}
use local_parental_control.Daemon.Service.{
  World, enter_state_recovery, Service, Machine, location, Reason, StateRecovery, LockReason,
  recovery_required,
}
use local_parental_control.Daemon.Iteration.{
  finish_kills, persist, begin_sample, monitor, halt_tick, recovery_tick, tick, scanned,
}
use local_parental_control.Dict.{Dict, lookup, get_or}
use local_parental_control.Daemon.State.{Instant, UsageState}
use local_parental_control.Process.{Info}
use local_parental_control.Daemon.Tick.Locks.{
  is_locked, kill_due_keeps, lock_all-is_locked, close_all_keeps, enforce_apps_keeps,
}
use local_parental_control.Config.Clock.{allowed_at}
use local_parental_control.Daemon.Terminate.{user_config, no_user}
use local_parental_control.Daemon.Tick.{see_processes, no_one, unlocked_users}
use local_parental_control.Daemon.Tick.Setup.{see_processes-IsSameSetup}
use local_parental_control.Daemon.Tick.Hours.{account_users-is_locked}

module _ (uid : ℕ) (username : Str) (w : World) where
  finish_kills_keeps :
      (current : Dict ℕ Info) (m : Machine)
      → is_locked uid m.log ≡ true
      → is_locked uid (finish_kills w current m).log ≡ true
  unfolding finish_kills
  finish_kills_keeps current m h =
      ground (arith, kill_due_keeps uid w current m.service.pending_kill m.log h)

  persist_keeps :
      (m : Machine) → is_locked uid m.log ≡ true → is_locked uid (persist w m).0.log ≡ true
  unfolding persist enter_state_recovery
  persist_keeps m h = ground arith

  begin_sample-IsSameSetup :
      (s : Service)
      → ((begin_sample w s).cfg ≡ s.cfg) × ((begin_sample w s).uid_users ≡ s.uid_users)
  unfolding begin_sample
  begin_sample-IsSameSetup s = ground arith

  -- From the scan on: a user outside the allowed hours is locked, whether or not the scan failed.
  monitor-is_locked :
      (start : Instant) (m : Machine)
      → lookup uid m.service.uid_users ≡ some username
      → allowed_at (location w m) (user_config m.service username) w.now ≡ false
      → is_locked uid (monitor w start m).0.log ≡ true
  unfolding monitor
  monitor-is_locked start m e h =
      let begun : Machine = record m { service = begin_sample w m.service } in
      let (cfg, users) = begin_sample-IsSameSetup m.service in
      let (seen_machine, seen) = see_processes w (scanned w) (begun, no_one) in
      let same = see_processes-IsSameSetup w (scanned w) (begun, no_one) in
      let unlocked : Dict Str Bool =
        unlocked_users w seen.active_users seen_machine.service.uid_users [] in
      close_all_keeps uid (scanned w) _ (
        persist_keeps _ (
          finish_kills_keeps seen.current _ (
            enforce_apps_keeps uid w (scanned w) _ (
              account_users-is_locked uid username w start seen.active_users unlocked
                seen_machine.service.uid_users (seen_machine, [])
                (subst (λ l. lookup uid l ≡ some username) (sym (same.uid_users ∙ users)) e)
                (subst
                  (λ c.
                    allowed_at (w.zone_of c.timezone) (get_or username no_user c.users) w.now
                    ≡ false)
                  (sym (same.cfg ∙ cfg)) h)))))

  halt_tick-is_locked :
      (reason : Reason) (why : LockReason) (m : Machine)
      → lookup uid m.service.uid_users ≡ some username
      → is_locked uid (halt_tick w reason why m).log ≡ true
  unfolding halt_tick enter_state_recovery
  halt_tick-is_locked reason why m e = lock_all-is_locked uid why m.service.uid_users _ username e

  recovery_tick-is_locked :
      (r : StateRecovery) (m : Machine)
      → r.reset_required ≡ true
      → lookup uid m.service.uid_users ≡ some username
      → is_locked uid (recovery_tick w r m).log ≡ true
  unfolding recovery_tick
  recovery_tick-is_locked r m reset e =
      rw reset (lock_all-is_locked uid recovery_required m.service.uid_users m username e)

-- An iteration requests a lock for every configured user who is outside the allowed hours, unless
-- the service waits for a recovery without a reset: also when the process scan fails, when the
-- state cannot be saved, when the clock or the timezone has moved, and in a recovery with a reset.
pub tick-is_locked :
    (uid : ℕ) (username : Str) (w : World) (m : Machine)
    → lookup uid m.service.uid_users ≡ some username
    → allowed_at (location w m) (user_config m.service username) w.now ≡ false
    → ((r : StateRecovery) → m.service.recovery ≡ some r → r.reset_required ≡ true)
    → is_locked uid (tick w m).0.log ≡ true
unfolding tick
tick-is_locked uid username w m e h waits =
    let s : Service = m.service in
    let date : Str = (location w m).date w.now in
    let known : UsageState =
      if s.state.timezone == [] then record s.state { timezone = s.cfg.timezone } else s.state in
    elim (Option-cases s.recovery) [
      | inr (r, waiting) ↦
          rw (waiting, tick) (recovery_tick-is_locked uid username w r m (waits r waiting) e)
      | inl running ↦ elim (Bool-cases (known.timezone == s.cfg.timezone)) [
        | inr moved ↦ rw (running, tick, moved) (halt_tick-is_locked uid username w _ _ m e)
        | inl same ↦ elim (Bool-cases (str_ltb date known.date)) [
          | inl back ↦ rw (running, tick, same, back) (halt_tick-is_locked uid username w _ _ _ e)
          | inr forward ↦
              rw (running, tick, same, forward) (monitor-is_locked uid username w _ _ e h)
        ]
      ]
    ]

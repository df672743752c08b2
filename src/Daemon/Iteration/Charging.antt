-- ===== src/Daemon/Iteration/Charging.antt =====
-- The device counters over an iteration, and the samples.
use local_parental_control.Config.Clock.{Zone}
use local_parental_control.Daemon.Service.{
  World, Machine, Service, lock_all, lock, StateRecovery, enter_state_recovery, LockReason, Reason,
  location, recovery_required, timezone_changed, timezone_recovery, clock_rolled_back,
  rollback_recovery,
}
use local_parental_control.Daemon.Tick.{unlocked_users, see_processes, no_one, account_users}
use local_parental_control.Daemon.Iteration.{
  monitor, begin_sample, scanned, retry_state_persistence, recovery_tick, halt_tick, tick, resume,
  set_recovery_reason,
}
use local_parental_control.Text.{Str, str_eq, str_beq_iff, str_ltb}
use local_parental_control.Dict.{Dict, get_or, insert, lookup, get_or-insert}
use local_parental_control.Daemon.State.{Instant, UsageState, new_state_in_timezone}
use local_parental_control.Base.{
  ℕ, Bool, All, false, ◌≡◌, ◌≢◌, ◌⊎◌, ◌∷◌, some, none, true, [], arith, Option-cases, refl, inl,
  ◌&&◌, inr, subst, sym, ◌∙◌, Option, ap, if◌then◌else◌, ◌==◌, if_cases, option_cases, not,
}
use local_parental_control.Daemon.Tick.Charging.{device_of, account_users-device}
use local_parental_control.Daemon.Tick.Setup.{see_processes-IsSameSetup}
use local_parental_control.Int.{ℤ}
use local_parental_control.Daemon.Iteration.Counters.{
  persist-state, finish_kills-state, enforce_apps-state, add_active-device, see_processes-state,
}

-- No session of the user is known to be unlocked.
abbrev pub IsLockedOut : World → Str → Dict ℕ Str → Type 0
IsLockedOut w username users = All (λ e. e.1 ≡ username → w.unlocked e.0 ≢ some true) users

sample_one :
    (w : World) (username name : Str) (uid : ℕ) (unlocked : Dict Str Bool)
    → (name ≡ username → w.unlocked uid ≢ some true)
    → get_or username false unlocked ≡ false
    → get_or username false
        (elim (w.unlocked uid) [ none ↦ unlocked | some state ↦ insert name state unlocked ])
      ≡ false
sample_one w username name uid unlocked first h = elim (Option-cases (w.unlocked uid)) [
  | inl unknown ↦ rw unknown h
  | inr (true, open_now) ↦ rw open_now (
      ground
        (arith, get_or-insert name username true false unlocked, str_beq_iff name username, first))
  | inr (false, shut) ↦ rw shut (ground (arith, get_or-insert name username false false unlocked))
]

unlocked_users_none :
    (w : World) (username : Str) (active_users : Dict Str Bool) (users : Dict ℕ Str)
    (unlocked : Dict Str Bool)
    → IsLockedOut w username users
    → get_or username false unlocked ≡ false
    → get_or username false (unlocked_users w active_users users unlocked) ≡ false
unfolding unlocked_users
unlocked_users_none w username active_users [] unlocked all h = h
unlocked_users_none w username active_users ((uid, name) ∷ users) unlocked (first, all) h =
    unlocked_users_none w username active_users users _ all
      (ground (arith, sample_one w username name uid unlocked first h))

begin_sample-uid_users : (w : World) (s : Service) → (begin_sample w s).uid_users ≡ s.uid_users
unfolding begin_sample
begin_sample-uid_users w s = ground arith

begin_sample-device :
    (username : Str) (w : World) (s : Service)
    → device_of username (begin_sample w s) ≡ device_of username s
unfolding begin_sample
begin_sample-device username w s = ground arith

pub no_entry : (username : Str) → get_or {V = Bool} username false [] ≡ false
unfolding get_or lookup
no_entry username = refl

sample_quiet :
    (username : Str) (w : World) (s : Service) (unlocked : Dict Str Bool)
    → (get_or username false s.previous_users ≡ false)
      ⊎ ((w.scan ≡ none) ⊎ (get_or username false unlocked ≡ false))
    → get_or username false (begin_sample w s).previous_users && get_or username false unlocked
      ≡ false
unfolding begin_sample
sample_quiet username w s unlocked h = ground (arith, no_entry username)

pub monitor-device :
    (username : Str) (w : World) (start : Instant) (m : Machine)
    → (get_or username false m.service.previous_users ≡ false)
      ⊎ ((w.scan ≡ none) ⊎ IsLockedOut w username m.service.uid_users)
    → device_of username (monitor w start m).0.service ≡ device_of username m.service
unfolding monitor
monitor-device username w start m quiet =
    let begun : Machine = record m { service = begin_sample w m.service } in
    let (seen_machine, seen) = see_processes w (scanned w) (begun, no_one) in
    let same = see_processes-IsSameSetup w (scanned w) (begun, no_one) in
    let users : Dict ℕ Str = seen_machine.service.uid_users in
    let unlocked : Dict Str Bool = unlocked_users w seen.active_users users [] in
    let calm : get_or username false seen_machine.service.previous_users
          && get_or username false unlocked
        ≡ false =
      subst (λ d. get_or username false d && get_or username false unlocked ≡ false)
        (sym same.previous_users)
        (sample_quiet username w m.service unlocked (elim quiet [
          | inl before ↦ inl before
          | inr (inl failed) ↦ inr (inl failed)
          | inr (inr all) ↦ inr (
              inr (
                unlocked_users_none w username seen.active_users users []
                  (subst (IsLockedOut w username)
                    (sym (same.uid_users ∙ begin_sample-uid_users w m.service)) all)
                  (no_entry username)))
        ])) in
    let (charged, counted) =
      account_users w start seen.active_users unlocked users (seen_machine, []) in
    let s : Service = charged.service in
    let device : (t : UsageState) → Option ℤ =
      λ (t : UsageState). lookup username t.device_seconds in
    ap device (persist-state w _)
    ∙ (ap device (finish_kills-state w seen.current _)
        ∙ (ap device (enforce_apps-state w (scanned w) _)
            ∙ (ap (lookup username) (add_active-device counted s.previous_apps seen.active s.state)
                ∙ (account_users-device username w start seen.active_users unlocked users
                      seen_machine [] calm
                    ∙ (ap device (see_processes-state w (scanned w) (begun, no_one))
                        ∙ begin_sample-device username w m.service)))))

lock_all-service :
    (why : LockReason) (users : Dict ℕ Str) (m : Machine)
    → (lock_all why users m).service ≡ m.service
unfolding lock_all lock
lock_all-service why [] m = refl
lock_all-service why ((uid, name) ∷ users) m = lock_all-service why users _ ∙ ground arith

retry-state :
    (w : World) (m : Machine) → (retry_state_persistence w m).0.service.state ≡ m.service.state
unfolding retry_state_persistence resume set_recovery_reason
retry-state w m = ground arith

recovery_tick-state :
    (w : World) (r : StateRecovery) (m : Machine)
    → (recovery_tick w r m).service.state ≡ m.service.state
unfolding recovery_tick
recovery_tick-state w r m =
    let tried : Machine = (retry_state_persistence w m).0 in
    if_cases (λ (n : Machine). n.service.state ≡ m.service.state) r.reset_required
      (λ _. ap Service.state (lock_all-service recovery_required m.service.uid_users m))
      (λ _. elim (Option-cases (retry_state_persistence w m).1) [
        | inl e ↦ rw e (retry-state w m)
        | inr (step, e) ↦ rw e (
            ap Service.state (lock_all-service recovery_required tried.service.uid_users tried)
            ∙ retry-state w m)
      ])

halt_tick-state :
    (w : World) (reason : Reason) (why : LockReason) (m : Machine)
    → (halt_tick w reason why m).service.state ≡ m.service.state
unfolding halt_tick enter_state_recovery
halt_tick-state w reason why m =
    ap Service.state
      (lock_all-service why m.service.uid_users (enter_state_recovery w reason true m))

-- The state in which an iteration of an unchanged day goes on has the device counters of before.
known_device :
    (username : Str) (s : Service)
    → lookup username
        (if s.state.timezone == []
          then record s.state { timezone = s.cfg.timezone }
          else s.state).device_seconds
      ≡ device_of username s
known_device username s = ground arith

today_device :
    (username : Str) (s : Service) (date : Str)
    → str_ltb s.state.date date ≡ false
    → lookup username
        (if str_ltb
            (if s.state.timezone == []
              then record s.state { timezone = s.cfg.timezone }
              else s.state).date
            date
          then new_state_in_timezone date s.cfg.timezone
          else (if s.state.timezone == []
              then record s.state { timezone = s.cfg.timezone }
              else s.state)).device_seconds
      ≡ device_of username s
today_device username s date same_day = ground arith

-- A whole iteration on the day of the state leaves a user's device counter as it is if the user was
-- not unlocked in the sample before, if the process scan failed, or if no session of the user is
-- unlocked now. (An iteration on a later day begins with empty counters.)
pub tick-device :
    (username : Str) (w : World) (m : Machine)
    → str_ltb m.service.state.date ((location w m).date w.now) ≡ false
    → (get_or username false m.service.previous_users ≡ false)
      ⊎ ((w.scan ≡ none) ⊎ IsLockedOut w username m.service.uid_users)
    → device_of username (tick w m).0.service ≡ device_of username m.service
unfolding tick
tick-device username w m same_day quiet =
    let s : Service = m.service in
    let zone : Zone = location w m in
    let date : Str = zone.date w.now in
    let known : UsageState =
      if s.state.timezone == [] then record s.state { timezone = s.cfg.timezone } else s.state in
    let Kept : Machine × Option Reason → Type 0 =
      λ (r : Machine × Option Reason). device_of username r.0.service ≡ device_of username s in
    option_cases Kept s.recovery
      (λ _.
        if_cases Kept (not (known.timezone == s.cfg.timezone))
          (λ _. ap device (
            halt_tick-state w (timezone_changed known.timezone s.cfg.timezone) timezone_recovery m))
          (λ _.
            if_cases Kept (str_ltb date known.date)
              (λ _.
                ap device (
                  halt_tick-state w (clock_rolled_back date known.date) rollback_recovery
                    (record m { service = record s { state = known } }))
                ∙ known_device username s)
              (λ _. monitor-device username w _ _ quiet ∙ today_device username s date same_day)))
      (λ r _. ap device (recovery_tick-state w r m))
  where
    device : UsageState → Option ℤ
    device t = lookup username t.device_seconds

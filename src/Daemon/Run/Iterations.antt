-- ===== src/Daemon/Run/Iterations.antt =====
-- An iteration makes a step of the abstract machine.
use local_parental_control.Daemon.Iteration.{
  persist, halt_tick, set_recovery_reason, retry_state_persistence, recovery_tick, tick, resume,
  monitor,
}
use local_parental_control.Daemon.Service.{
  World, enter_state_recovery, Reason, StateRecovery, Machine, LockReason, Service, location,
  recovery_required, not_persisted,
}
use local_parental_control.Daemon.State.{Instant, UsageState}
use local_parental_control.Daemon.Run.Mode.{
  Kind, mode, Shows, normal, mode_of, retrying, by_iteration, Shows-ends, Shows-same, stay,
  save_failed, halted, unsaved, from_mode, saved,
}
use local_parental_control.Base.{
  ◌≡◌, some, arith, Bool-cases, inl, Option-cases, ap, if◌then◌else◌, true, inr, ◌∙◌, ◌==◌, [],
  subst, refl, false,
}
use local_parental_control.Daemon.Store.{Disk, save_state, remove_marker, write_recovery_marker}
use local_parental_control.Text.{Str, str_ltb, str_eq}
use local_parental_control.Daemon.Store.Laws.{
  save_state-marker, write_reset-Strengthened, Weakened, Cleared, remove_marker-Cleared,
  write_retry-Weakened, remove_marker_done,
}
use local_parental_control.Daemon.Run.Frame.{monitor-persist, IsSameRest-refl, lock_all-IsSameRest}

persist-Shows : (k : Kind) (w : World) (m : Machine) → mode m ≡ normal → Shows k m (persist w m).0
unfolding persist enter_state_recovery
persist-Shows k w m h =
    let written : Disk = (save_state w.usage_faults m.service.state m.disk).0 in
    let same : written.marker ≡ m.disk.marker =
      save_state-marker w.usage_faults m.service.state m.disk in
    elim (Option-cases (save_state w.usage_faults m.service.state m.disk).1) [
      | inl done ↦ rw (persist, done) (stay refl same)
      | inr (step, failed) ↦
          rw (persist, failed, enter_state_recovery)
            (save_failed h refl (
              subst (λ x. Weakened x (write_recovery_marker w.marker_faults false written).0.marker)
                same (write_retry-Weakened w.marker_faults written)))
    ]

monitor-Shows :
    (w : World) (start : Instant) (m : Machine)
    → mode m ≡ normal
    → Shows by_iteration m (monitor w start m).0
monitor-Shows w start m h =
    let (n, before, after) = monitor-persist w start m in
    Shows-ends by_iteration before after
      (persist-Shows by_iteration w n (ap mode_of before.recovery ∙ h))

halt_tick-Shows :
    (w : World) (reason : Reason) (why : LockReason) (m : Machine)
    → mode m ≡ normal
    → Shows by_iteration m (halt_tick w reason why m)
unfolding halt_tick enter_state_recovery
halt_tick-Shows w reason why m h =
    Shows-ends by_iteration (IsSameRest-refl m)
      (lock_all-IsSameRest why m.service.uid_users (enter_state_recovery w reason true m))
      (halted refl h refl (write_reset-Strengthened w.marker_faults m.disk))

set_reason-mode :
    (reason : Reason) (s : Service)
    → mode_of (set_recovery_reason reason s).recovery ≡ mode_of s.recovery
unfolding set_recovery_reason
set_reason-mode reason s = ground arith

retry-Shows :
    (w : World) (m : Machine)
    → mode m ≡ retrying
    → Shows by_iteration m (retry_state_persistence w m).0
unfolding retry_state_persistence resume
retry-Shows w m h =
    let (written, save_error) = save_state w.usage_faults m.service.state m.disk in
    let same : written.marker ≡ m.disk.marker =
      save_state-marker w.usage_faults m.service.state m.disk in
    let (cleared, clear_error) = remove_marker w.removal_faults written in
    elim (Option-cases save_error) [
      | inr (step, failed) ↦
          rw (retry_state_persistence, failed)
            (unsaved refl h (set_reason-mode (not_persisted step) m.service ∙ h) (inl same))
      | inl written_all ↦ elim (Option-cases clear_error) [
        | inr (step, failed) ↦
            rw (retry_state_persistence, written_all, failed)
              (unsaved refl h (set_reason-mode (not_persisted step) m.service ∙ h) (
                subst (λ x. Cleared x cleared.marker) same
                  (remove_marker-Cleared w.removal_faults written)))
        | inl done ↦
            rw (retry_state_persistence, written_all, done)
              (saved refl h refl
                (ap Disk.marker (remove_marker_done w.removal_faults written done)))
      ]
    ]

recovery_tick-Shows :
    (w : World) (r : StateRecovery) (m : Machine)
    → m.service.recovery ≡ some r
    → Shows by_iteration m (recovery_tick w r m)
unfolding recovery_tick
recovery_tick-Shows w r m e = elim (Bool-cases r.reset_required) [
  | inl reset_first ↦
      rw (recovery_tick, reset_first)
        (Shows-same by_iteration (lock_all-IsSameRest recovery_required m.service.uid_users m))
  | inr retry_first ↦
      let h : mode m ≡ retrying = rw (e, retry_first) in
      let (tried, error) = retry_state_persistence w m in
      elim (Option-cases error) [
        | inl done ↦ rw (recovery_tick, retry_first, done) (retry-Shows w m h)
        | inr (step, failed) ↦
            rw (recovery_tick, retry_first, failed)
              (Shows-ends by_iteration (IsSameRest-refl m)
                (lock_all-IsSameRest recovery_required tried.service.uid_users tried)
                (retry-Shows w m h))
      ]
]

pub tick-Shows : (w : World) (m : Machine) → Shows by_iteration m (tick w m).0
unfolding tick
tick-Shows w m =
    let s : Service = m.service in
    let date : Str = (location w m).date w.now in
    let known : UsageState =
      if s.state.timezone == [] then record s.state { timezone = s.cfg.timezone } else s.state in
    elim (Option-cases s.recovery) [
      | inr (r, waits) ↦
          rw (waits, tick) (from_mode (ap mode_of waits) (recovery_tick-Shows w r m waits))
      | inl runs ↦
          let h : mode m ≡ normal = rw runs in
          elim (Bool-cases (known.timezone == s.cfg.timezone)) [
            | inr moved ↦ rw (runs, tick, moved) (from_mode h (halt_tick-Shows w _ _ m h))
            | inl same ↦ elim (Bool-cases (str_ltb date known.date)) [
              | inl back ↦
                  rw (runs, tick, same, back)
                    (from_mode h
                      (halt_tick-Shows w _ _ (record m { service = record s { state = known } }) h))
              | inr forward ↦ rw (runs, tick, same, forward) (from_mode h (monitor-Shows w _ _ h))
            ]
          ]
    ]

-- ===== src/Daemon/Run/Commands.antt =====
-- The commands and the end of the service make a step of the abstract machine.
use local_parental_control.Daemon.Admin.{
  reload, finish_reset, reset_counters, finish_recovery, recover_state, execute, restore_users,
  AdminWorld, Message, Request, Response, persistence_restored, reset_user, has_application,
  reset_application,
}
use local_parental_control.Daemon.Terminate.{cancel_pending_terminations, user_config}
use local_parental_control.Base.{
  Option, some, ◌≢◌, ◌≡◌, arith, false, true, Option-cases, inl, if_cases, Bool-cases, sym, inr,
  none, ◌∙◌, ◌==◌, refl, ap, not, subst, [],
}
use local_parental_control.Daemon.Service.{
  StateRecovery, World, enter_state_recovery, Machine, Service, location,
}
use local_parental_control.Daemon.Store.{
  Marker, reset, write_recovery_marker, save_state, quarantine_state, remove_marker, Disk,
}
use local_parental_control.Daemon.Run.{shut_down, perform, Call, administer, iteration, stop}
use local_parental_control.Text.{Str, codes, str_eq}
use local_parental_control.Daemon.Status.{is_some}
use local_parental_control.Daemon.Iteration.{resume}
use local_parental_control.Daemon.Store.Laws.{
  Weakened, Cleared, save_state-marker, write_retry-Weakened, remove_marker-Cleared,
  remove_marker_done,
}
use local_parental_control.Daemon.State.{UsageState, new_state_in_timezone}
use local_parental_control.Daemon.Run.Frame.{IsSameRest}
use local_parental_control.Daemon.Run.Mode.{
  Shows, ViewStep, mode, by_other, by_recovery, kind, normal, mode_of, retrying, Kind, stay,
  save_failed, unrecovered, Shows-same, from_mode, recovered,
}
use local_parental_control.Daemon.Run.Iterations.{tick-Shows}
use local_parental_control.Dict.{contains}

reload-IsSameRest : (a : AdminWorld) (m : Machine) → IsSameRest m (reload a m).0
unfolding reload restore_users
reload-IsSameRest a m = ground arith

cancel-recovery :
    (user application : Str) (s : Service)
    → (cancel_pending_terminations user application s).recovery ≡ s.recovery
unfolding cancel_pending_terminations
cancel-recovery user application s = ground arith

finish_reset-Shows :
    (w : World) (user application : Str) (state : UsageState) (m : Machine)
    → mode m ≡ normal
    → Shows by_other m (finish_reset w user application state m).0
unfolding finish_reset enter_state_recovery
finish_reset-Shows w user application state m h =
    let s : Service =
      cancel_pending_terminations user application (record m.service { state = state }) in
    let (written, save_error) = save_state w.usage_faults s.state m.disk in
    let same : written.marker ≡ m.disk.marker = save_state-marker w.usage_faults s.state m.disk in
    elim (Option-cases save_error) [
      | inl done ↦
          rw (finish_reset, done)
            (stay
              (ap mode_of (cancel-recovery user application (record m.service { state = state })))
              same)
      | inr (step, failed) ↦
          rw (finish_reset, failed, enter_state_recovery)
            (save_failed h refl (
              subst (λ x. Weakened x (write_recovery_marker w.marker_faults false written).0.marker)
                same (write_retry-Weakened w.marker_faults written)))
    ]

not_waiting : (r : Option StateRecovery) → is_some r ≡ false → mode_of r ≡ normal
not_waiting none h = refl
not_waiting (some r) h = cc

reset_counters-Shows :
    (w : World) (user application : Str) (m : Machine)
    → Shows by_other m (reset_counters w user application m).0
unfolding reset_counters
reset_counters-Shows w user application m =
    let goal : Machine × Response → Type 0 = λ (n : Machine × Response). Shows by_other m n.0 in
    if_cases goal (is_some m.service.recovery) (λ _. stay refl refl)
      (λ running.
        let h : mode m ≡ normal = not_waiting m.service.recovery running in
        if_cases goal (not (contains user m.service.cfg.users)) (λ _. stay refl refl)
          (λ _.
            if_cases goal (application == [])
              (λ _. finish_reset-Shows w user application (reset_user user m.service.state) m h)
              (λ _.
                if_cases goal
                  (has_application application (user_config m.service user).applications)
                  (λ _.
                    finish_reset-Shows w user application
                      (reset_application user application m.service.state) m h)
                  (λ _. stay refl refl))))

finish_recovery-Shows :
    (w : World) (message : Message) (m n : Machine)
    → mode m ≢ normal
    → n.service.recovery ≡ m.service.recovery
    → (mode m ≡ retrying → m.disk.marker ≢ reset → n.disk.marker ≢ reset)
    → Shows by_recovery m (finish_recovery w message n).0
unfolding finish_recovery resume
finish_recovery-Shows w message m n waits same keeps =
    let (written, save_error) = save_state w.usage_faults n.service.state n.disk in
    let unmarked : written.marker ≡ n.disk.marker =
      save_state-marker w.usage_faults n.service.state n.disk in
    let (cleared, clear_error) = remove_marker w.removal_faults written in
    elim (Option-cases save_error) [
      | inr (step, failed) ↦
          rw (finish_recovery, failed)
            (unrecovered refl waits (ap mode_of same) (λ a x. rw unmarked (keeps a x)))
      | inl written_all ↦ elim (Option-cases clear_error) [
        | inr (step, failed) ↦
            rw (finish_recovery, written_all, failed)
              (unrecovered refl waits (ap mode_of same) (λ a x.
                Cleared-weak
                  (subst (λ y. Cleared y cleared.marker) unmarked
                    (remove_marker-Cleared w.removal_faults written))
                  (keeps a x)))
        | inl done ↦
            rw (finish_recovery, written_all, done)
              (recovered refl refl
                (ap Disk.marker (remove_marker_done w.removal_faults written done)))
      ]
    ]
  where
    Cleared-weak : {x y : Marker} → Cleared x y → x ≢ reset → y ≢ reset
    Cleared-weak (inl e) h k = h (sym e ∙ k)
    Cleared-weak (inr e) h k = cc (sym e ∙ k)

waiting_not_normal :
    (r : StateRecovery) (m : Machine) → m.service.recovery ≡ some r → mode m ≢ normal
waiting_not_normal r m e h = elim (Bool-cases r.reset_required) [
  | inl required ↦ cc (rw (e, required) at h)
  | inr not_required ↦ cc (rw (e, not_required) at h)
]

blocked_not_retrying :
    (r : StateRecovery) (m : Machine)
    → m.service.recovery ≡ some r
    → r.reset_required ≡ true
    → mode m ≢ retrying
blocked_not_retrying r m e required h = cc (rw (e, required) at h)

Weakened-weak : {x y : Marker} → Weakened x y → x ≢ reset → y ≢ reset
Weakened-weak (inl e) h k = h (sym e ∙ k)
Weakened-weak (inr (e, old)) h k = cc (sym e ∙ k)

-- The marker that the recovery of a service that retries writes does not ask for a reset.
marked_weak :
    (w : World) (r : StateRecovery) (m : Machine)
    → m.service.recovery ≡ some r
    → mode m ≡ retrying
    → m.disk.marker ≢ reset
    → (write_recovery_marker w.marker_faults r.reset_required m.disk).0.marker ≢ reset
marked_weak w r m e h weak = elim (Bool-cases r.reset_required) [
  | inl required ↦ absurd (blocked_not_retrying r m e required h)
  | inr not_required ↦
      rw not_required (Weakened-weak (write_retry-Weakened w.marker_faults m.disk) weak)
]

recover_state-Shows :
    (w : World) (r : StateRecovery) (m : Machine)
    → m.service.recovery ≡ some r
    → Shows by_recovery m (recover_state w r m).0
unfolding recover_state
recover_state-Shows w r m e =
    let (marked, mark_error) = write_recovery_marker w.marker_faults r.reset_required m.disk in
    let ((moved, move_error), put_aside) = quarantine_state w.quarantine_faults marked in
    let fresh : UsageState =
      new_state_in_timezone ((location w m).date w.now) m.service.cfg.timezone in
    elim (Option-cases mark_error) [
      | inr (step, failed) ↦
          rw (recover_state, failed)
            (unrecovered refl (waiting_not_normal r m e) refl (marked_weak w r m e))
      | inl done ↦
          rw (recover_state, done)
            (if_cases (λ (n : Machine × Response). Shows by_recovery m n.0) r.reset_required
              (λ required. elim (Option-cases move_error) [
                | inr (step, failed) ↦ rw failed (
                    unrecovered refl (waiting_not_normal r m e) refl
                      (λ h. absurd (blocked_not_retrying r m e required h)))
                | inl aside ↦ rw aside (
                    finish_recovery-Shows w _ m
                      (record m { service = record m.service { state = fresh }; disk = moved })
                      (waiting_not_normal r m e) refl
                      (λ h. absurd (blocked_not_retrying r m e required h)))
              ])
              (λ _.
                finish_recovery-Shows w persistence_restored m (record m { disk = marked })
                  (waiting_not_normal r m e) refl (marked_weak w r m e)))
    ]

execute-Shows :
    (a : AdminWorld) (req : Request) (m : Machine)
    → Shows (kind (administer a req)) m (execute a req m).0
unfolding execute
execute-Shows a req m =
    let k : Kind = kind (administer a req) in
    let goal : Machine × Response → Type 0 = λ (n : Machine × Response). Shows k m n.0 in
    if_cases goal (req.command == codes "status") (λ _. stay refl refl)
      (λ _.
        if_cases goal (req.command == codes "reload") (λ _. Shows-same k (reload-IsSameRest a m))
          (λ _.
            if_cases goal (req.command == codes "recover-state")
              (λ recovery. rw recovery (elim (Option-cases m.service.recovery) [
                | inl idle ↦ rw idle (stay (ap mode_of idle) refl)
                | inr (r, waits) ↦
                    rw waits (from_mode (ap mode_of waits) (recover_state-Shows a.world r m waits))
              ]))
              (λ other.
                if_cases goal (req.command == codes "reset")
                  (λ _. rw other (reset_counters-Shows a.world req.user req.application m))
                  (λ _. stay refl refl))))

shut_down-Shows : (w : World) (m : Machine) → Shows by_other m (shut_down w m)
unfolding shut_down enter_state_recovery
shut_down-Shows w m = elim (Option-cases m.service.recovery) [
  | inr (r, waits) ↦ rw (shut_down, waits) (stay (ap mode_of waits) refl)
  | inl runs ↦
      let (written, save_error) = save_state w.usage_faults m.service.state m.disk in
      let same : written.marker ≡ m.disk.marker =
        save_state-marker w.usage_faults m.service.state m.disk in
      elim (Option-cases save_error) [
        | inl done ↦ rw (shut_down, runs, done) (stay (ap mode_of runs) same)
        | inr (step, failed) ↦
            rw (shut_down, runs, failed, enter_state_recovery)
              (save_failed refl refl (
                subst
                  (λ x. Weakened x (write_recovery_marker w.marker_faults false written).0.marker)
                  same (write_retry-Weakened w.marker_faults written)))
      ]
]

-- Every call refines the abstract machine of modes and markers: it makes one of its steps.
pub perform-ViewStep :
    (c : Call) (m : Machine)
    → ViewStep (kind c) (mode m) m.disk.marker (mode (perform c m)) (perform c m).disk.marker
unfolding perform
perform-ViewStep (iteration w) m = tick-Shows w m
perform-ViewStep (administer a req) m = execute-Shows a req m
perform-ViewStep (stop w) m = shut_down-Shows w m

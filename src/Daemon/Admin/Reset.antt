-- ===== src/Daemon/Admin/Reset.antt =====
-- A reset of a user clears that user's counters and pending kills, and nobody else's.
use local_parental_control.Daemon.State.{UsageState}
-- No pending kill is left that belongs to the user and falls under the reset.
use local_parental_control.Config.{UserConfig}
use local_parental_control.Daemon.Terminate.{
  remove_covered, is_covered, cancel_pending_terminations, uid_of, user_config,
}
use local_parental_control.Base.{
  ℕ, All, ◌∷◌, Bool-cases, inl, ◌≡◌, false, inr, [], nat_eq, ◌≢◌, arith, none, ap, some, ◌∙◌, subst,
  sym,
}
use local_parental_control.Text.{Str, str_eq}
use local_parental_control.Dict.{Dict, lookup, erase, lookup-erase_ne, lookup-erase_self}
use local_parental_control.Daemon.Service.{PendingTermination, Service, World, Machine}
use local_parental_control.Daemon.Admin.{reset_user, finish_reset, reset_counters, Message, done}

abbrev pub NoneCovered : UserConfig → ℕ → Str → Dict ℕ PendingTermination → Type 0
NoneCovered uc uid application kills = All (λ e. is_covered uc uid application e.1 ≡ false) kills

remove_covered-NoneCovered :
    (uc : UserConfig) (uid : ℕ) (application : Str) (kills : Dict ℕ PendingTermination)
    → NoneCovered uc uid application (remove_covered uc uid application kills)
unfolding remove_covered
remove_covered-NoneCovered uc uid application [] = tt
remove_covered-NoneCovered uc uid application ((pid, pending) ∷ kills) =
    elim (Bool-cases (is_covered uc uid application pending)) [
      | inl covered ↦
          rw (covered, remove_covered) (remove_covered-NoneCovered uc uid application kills)
      | inr free ↦
          rw (free, remove_covered) (free, remove_covered-NoneCovered uc uid application kills)
    ]

-- The counters after a reset of the user.
pub record IsReset (user : Str) (uid_users : Dict ℕ Str) (old : UsageState) (s : Service)
    : Type 0 where
  pub device : lookup user s.state.device_seconds ≡ none
  pub continuous : lookup user s.state.continuous_seconds ≡ none
  pub break : lookup user s.state.break_until ≡ none
  pub applications : lookup user s.state.users ≡ none
  pub others :
      (other : Str)
      → other ≢ user
      → (lookup other s.state.device_seconds ≡ lookup other old.device_seconds)
        × (lookup other s.state.continuous_seconds ≡ lookup other old.continuous_seconds)
        × (lookup other s.state.break_until ≡ lookup other old.break_until)
        × (lookup other s.state.users ≡ lookup other old.users)
  pub kills :
      (uid : ℕ)
      → uid_of user uid_users ≡ some uid
      → All (λ e. nat_eq e.1.process.uid uid ≡ false) s.pending_kill

uid_of_covered :
    (uc : UserConfig) (uid : ℕ) (kills : Dict ℕ PendingTermination)
    → NoneCovered uc uid [] kills
    → All (λ e. nat_eq e.1.process.uid uid ≡ false) kills
unfolding is_covered
uid_of_covered uc uid [] h = tt
uid_of_covered uc uid ((pid, pending) ∷ kills) (first, all) =
    (ground arith, uid_of_covered uc uid kills all)

cancelled_kills :
    (user : Str) (uid : ℕ) (s : Service)
    → uid_of user s.uid_users ≡ some uid
    → All
        (λ e. nat_eq e.1.process.uid uid ≡ false)
        (cancel_pending_terminations user [] s).pending_kill
unfolding cancel_pending_terminations
cancelled_kills user uid s e =
    rw (e, cancel_pending_terminations)
      (uid_of_covered (user_config s user) uid _
        (remove_covered-NoneCovered (user_config s user) uid [] s.pending_kill))

cancelled_state :
    (user application : Str) (s : Service)
    → (cancel_pending_terminations user application s).state ≡ s.state
unfolding cancel_pending_terminations
cancelled_state user application s = ground arith

erased :
    {V : Type 0} (user other : Str) (d : Dict Str V)
    → other ≢ user
    → lookup other (erase user d) ≡ lookup other d
erased user other d apart = lookup-erase_ne d apart

cancelled-IsReset :
    (user : Str) (s : Service)
    → IsReset user s.uid_users s.state
        (cancel_pending_terminations user [] (record s { state = reset_user user s.state }))
unfolding reset_user
cancelled-IsReset user s =
    let t : Service = record s { state = reset_user user s.state } in
    let same = cancelled_state user [] t in
    record {
      device =
          ap (λ u. lookup user (UsageState.device_seconds u)) same
          ∙ lookup-erase_self user s.state.device_seconds;
      continuous =
          ap (λ u. lookup user (UsageState.continuous_seconds u)) same
          ∙ lookup-erase_self user s.state.continuous_seconds;
      break =
          ap (λ u. lookup user (UsageState.break_until u)) same
          ∙ lookup-erase_self user s.state.break_until;
      applications =
          ap (λ u. lookup user (UsageState.users u)) same ∙ lookup-erase_self user s.state.users;
      others = λ other apart. (
        ap (λ u. lookup other (UsageState.device_seconds u)) same
            ∙ erased user other s.state.device_seconds apart,
        ap (λ u. lookup other (UsageState.continuous_seconds u)) same
            ∙ erased user other s.state.continuous_seconds apart,
        ap (λ u. lookup other (UsageState.break_until u)) same
            ∙ erased user other s.state.break_until apart,
        ap (λ u. lookup other (UsageState.users u)) same ∙ erased user other s.state.users apart,
      );
      kills = λ uid e. cancelled_kills user uid t e;
    }

finish_reset_service :
    (w : World) (user : Str) (state : UsageState) (m : Machine) (msg : Message)
    → (finish_reset w user [] state m).1 ≡ done msg
    → (finish_reset w user [] state m).0.service
      ≡ cancel_pending_terminations user [] (record m.service { state = state })
unfolding finish_reset
finish_reset_service w user state m msg e = ground arith

reset_counters_path :
    (w : World) (user : Str) (m : Machine) (msg : Message)
    → (reset_counters w user [] m).1 ≡ done msg
    → finish_reset w user [] (reset_user user m.service.state) m ≡ reset_counters w user [] m
unfolding reset_counters
reset_counters_path w user m msg e = ground arith

-- A reset of a user that is answered as done leaves the user with no counter and no break, leaves
-- every other user's counters and breaks alone, and leaves no pending kill of a process of the
-- user's UID.
pub reset_counters-IsReset :
    (w : World) (user : Str) (m : Machine) (msg : Message)
    → (reset_counters w user [] m).1 ≡ done msg
    → IsReset user m.service.uid_users m.service.state (reset_counters w user [] m).0.service
reset_counters-IsReset w user m msg e =
    let path = reset_counters_path w user m msg e in
    let done_there : (finish_reset w user [] (reset_user user m.service.state) m).1 ≡ done msg =
      ap (λ r. r.1) path ∙ e in
    subst (IsReset user m.service.uid_users m.service.state)
      (sym (finish_reset_service w user (reset_user user m.service.state) m msg done_there)
        ∙ ap (λ r. r.0.service) path)
      (cancelled-IsReset user m.service)

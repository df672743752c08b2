-- ===== src/Daemon/Admin/Recovery.antt =====
-- A recovery ends only when everything is on disk.
use local_parental_control.Daemon.Admin.{
  recover_state, Message, done, Problem, failed, finish_recovery, persistence_restored, state_reset,
}
use local_parental_control.Daemon.Service.{World, StateRecovery, Machine, location}
use local_parental_control.Base.{◌≡◌, none, some, arith}
use local_parental_control.Daemon.Store.{
  absent, stored, Disk, write_recovery_marker, save_state, quarantine_state,
}
use local_parental_control.Daemon.State.{UsageState, new_state_in_timezone}
use local_parental_control.Daemon.Iteration.{resume}
use local_parental_control.Daemon.Store.Laws.{save_state_done, remove_marker_done}

abbrev Lifted : Machine → Type 0
Lifted m =
    (m.service.recovery ≡ none)
    × (m.disk.marker ≡ absent)
    × (m.disk.usage ≡ some (stored m.service.state))

finish_recovery_done :
    (w : World) (message msg : Message) (m : Machine)
    → (finish_recovery w message m).1 ≡ done msg
    → Lifted (finish_recovery w message m).0
unfolding finish_recovery resume
finish_recovery_done w message msg m e = ground (
  arith,
  save_state_done w.usage_faults m.service.state m.disk,
  remove_marker_done w.removal_faults (save_state w.usage_faults m.service.state m.disk).0,
)

finish_recovery_failed :
    (w : World) (message : Message) (p : Problem) (m : Machine)
    → (finish_recovery w message m).1 ≡ failed p
    → (finish_recovery w message m).0.service.recovery ≡ m.service.recovery
unfolding finish_recovery resume
finish_recovery_failed w message p m e = ground arith

-- A recovery that is answered as done has the state of the service in the usage file, no marker
-- left, and lifts the block; one that fails leaves the recovery in force.
pub recover_state_outcome :
    (w : World) (r : StateRecovery) (m : Machine)
    → ((msg : Message)
        → (recover_state w r m).1 ≡ done msg
        → ((recover_state w r m).0.service.recovery ≡ none)
          × ((recover_state w r m).0.disk.marker ≡ absent)
          × ((recover_state w r m).0.disk.usage
              ≡ some (stored (recover_state w r m).0.service.state)))
      × ((p : Problem)
          → (recover_state w r m).1 ≡ failed p
          → (recover_state w r m).0.service.recovery ≡ m.service.recovery)
unfolding recover_state
recover_state_outcome w r m =
    let fresh : UsageState =
      new_state_in_timezone ((location w m).date w.now) m.service.cfg.timezone in
    let marked : Disk = (write_recovery_marker w.marker_faults r.reset_required m.disk).0 in
    let moved : Disk = (quarantine_state w.quarantine_faults marked).0.0 in
    let kept : Machine = record m { disk = marked } in
    let renewed : Machine = record m {
      service = record m.service { state = fresh };
      disk = moved;
    } in
    (
      λ msg e. ground (
        arith,
        finish_recovery_done w persistence_restored msg kept,
        finish_recovery_done w persistence_restored msg renewed,
        finish_recovery_done w state_reset msg renewed,
      ),
      λ p e. ground (
        arith,
        finish_recovery_failed w persistence_restored p kept,
        finish_recovery_failed w persistence_restored p renewed,
        finish_recovery_failed w state_reset p renewed,
      ),
    )

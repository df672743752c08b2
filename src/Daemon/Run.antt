-- ===== src/Daemon/Run.antt =====
-- The life of the daemon: `New`, and the calls that `Run` and `serve` make one after the other under
-- the service's mutex. A restart reads what the last run left on disk.
pub mod Mode
pub mod Frame
pub mod Iterations
pub mod Commands
pub mod Recovery
pub mod Progress
mod Tests
use local_parental_control.Text.{Str, str_eq}
use local_parental_control.Daemon.Service.{
  World, Machine, enter_state_recovery, not_persisted, StateRecovery, timezone_changed,
}
use local_parental_control.Base.{
  some, Bool, ◌≡◌, none, Result, ok, Option, false, err, [], if◌then◌else◌, ◌==◌, true,
}
use local_parental_control.Daemon.Admin.{AdminWorld, Request, execute}
use local_parental_control.Daemon.Iteration.{tick}
use local_parental_control.Config.{Config}
use local_parental_control.Daemon.Users.{LookupUser, ResolveError, resolve_users}
use local_parental_control.Daemon.Store.{save_state, Disk}
use local_parental_control.Daemon.State.{UsageState}
use local_parental_control.Daemon.Load.{load_service_state, StateReader}

-- The state and the recovery that `New` begins with.
unfoldable pub start_state : StateReader → Config → Disk → Str → UsageState × Option StateRecovery
start_state reader cfg disk date =
    let (state, recovery) = load_service_state reader disk date in
    elim recovery [
      | some r ↦ (state, some r)
      | none ↦
          if state.timezone == []
          then (record state { timezone = cfg.timezone }, none)
          else (if state.timezone == cfg.timezone then (state, none) else (
            state,
            some (record {
              reason = timezone_changed state.timezone cfg.timezone;
              reset_required = true;
            }),
          ))
    ]

-- `New`, with the database of users as a parameter and no event recorded yet.
unfoldable pub new_service :
    World → StateReader → LookupUser → Config → Disk → Result ResolveError Machine
new_service w reader lookup_user cfg disk =
    let (state, recovery) = start_state reader cfg disk ((w.zone_of cfg.timezone).date w.now) in
    elim (resolve_users lookup_user cfg) [
      | err e ↦ err e
      | ok uid_users ↦ ok (record {
        service = record {
          cfg = cfg;
          state = state;
          uid_users = uid_users;
          pending_kill = [];
          last_tick = w.now;
          recovery = recovery;
          application_monitoring_error = none;
          previous_users = [];
          previous_apps = [];
        };
        disk = disk;
        log = [];
      })
    ]

-- What `Run` does when its context ends.
unfoldable pub shut_down : World → Machine → Machine
shut_down w m = elim m.service.recovery [
  | some r ↦ m
  | none ↦
      let (disk, error) = save_state w.usage_faults m.service.state m.disk in
      elim error [
        | none ↦ record m { disk = disk }
        | some step ↦ enter_state_recovery w (not_persisted step) false (record m { disk = disk })
      ]
]

-- The calls that change the service.
pub data Call : Type 0 where
  iteration : World → Call
  administer : AdminWorld → Request → Call
  stop : World → Call

unfoldable pub perform : Call → Machine → Machine
perform (iteration w) m = (tick w m).0
perform (administer a req) m = (execute a req m).0
perform (stop w) m = shut_down w m

-- A call, or a restart from the files of the run before.
pub data Move (m : Machine) : Machine → Type 0 where
  call : (c : Call) → Move m (perform c m)
  restart :
      (w : World) (reader : StateReader) (lookup_user : LookupUser) (cfg : Config) {n : Machine}
      → new_service w reader lookup_user cfg m.disk ≡ ok n
      → Move m n

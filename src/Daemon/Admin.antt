-- ===== src/Daemon/Admin.antt =====
-- The administrative commands: `execute` of internal/daemon/daemon.go, and `recoverState`.
pub mod Reload
pub mod Recovery
pub mod Reset
use local_parental_control.Text.{Str, codes, str_eq}
use local_parental_control.Daemon.Users.{ResolveError, resolve_users, LookupUser}
use local_parental_control.Daemon.Status.{Status, is_some, status}
use local_parental_control.Daemon.Service.{
  World, Machine, StateRecovery, Service, enter_state_recovery, location, not_persisted,
}
use local_parental_control.Daemon.Store.{
  FileStep, write_recovery_marker, quarantine_state, save_state, remove_marker,
}
use local_parental_control.Base.{
  Option, List, if◌then◌else◌, err, ◌==◌, none, Bool, not, ok, some, [], false, ℕ, ◌∷◌, ◌||◌,
  Result, ◌&&◌,
}
use local_parental_control.Daemon.State.{UsageState, new_state_in_timezone}
use local_parental_control.Config.{Config, Application}
use local_parental_control.Dict.{erase, lookup, Dict, insert, contains}
use local_parental_control.Daemon.Terminate.{cancel_pending_terminations, user_config}
use local_parental_control.Daemon.Iteration.{resume}

pub record Request : Type 0 where
  pub command : Str
  pub user : Str
  pub application : Str

pub data Problem : Type 0 where
  not_loaded : Problem
  not_resolved : ResolveError → Problem
  not_filtered : Problem
  not_needed : Problem
  recovery_first : Problem
  unknown_user unknown_application unknown_command : Str → Problem
  file_problem : FileStep → Problem

pub data Message : Type 0 where
  reloaded state_reset persistence_restored counters_reset : Message

-- `api.Response`: a status, a message, or an error.
pub data Response : Type 0 where
  status_response : Status → Response
  done : Message → Response
  failed : Problem → Response

-- What an administrative command meets beyond an iteration's world: the configuration that is
-- loaded (`none` is an error), the user database, and whether the domain filter refuses the rules.
pub record AdminWorld : Type 0 where
  pub world : World
  pub loaded : Option Config
  pub lookup_user : LookupUser
  pub filter_fails : Config → Dict ℕ Str → Bool

-- The end of a recovery: save the state, remove the marker, and only then lift the block.
unfoldable pub finish_recovery : World → Message → Machine → Machine × Response
finish_recovery w message m =
    let (saved, save_error) = save_state w.usage_faults m.service.state m.disk in
    let (cleared, clear_error) = remove_marker w.removal_faults saved in
    elim save_error [
      | some step ↦ (record m { disk = saved }, failed (file_problem step))
      | none ↦ elim clear_error [
        | some step ↦ (record m { disk = cleared }, failed (file_problem step))
        | none ↦ (record m { service = resume w m.service; disk = cleared }, done message)
      ]
    ]

-- `recoverState`
unfoldable pub recover_state : World → StateRecovery → Machine → Machine × Response
recover_state w r m =
    let (marked, mark_error) = write_recovery_marker w.marker_faults r.reset_required m.disk in
    let ((moved, move_error), put_aside) = quarantine_state w.quarantine_faults marked in
    let fresh : UsageState =
      new_state_in_timezone ((location w m).date w.now) m.service.cfg.timezone in
    elim mark_error [
      | some step ↦ (record m { disk = marked }, failed (file_problem step))
      | none ↦
          if r.reset_required
          then (elim move_error [
            | some step ↦ (record m { disk = moved }, failed (file_problem step))
            | none ↦
                finish_recovery w (if put_aside then state_reset else persistence_restored)
                  (record m { service = record m.service { state = fresh }; disk = moved })
          ])
          else finish_recovery w persistence_restored (record m { disk = marked })
    ]

-- A reload that fails resolves the users of the old configuration again; an error of that is ignored.
unfoldable pub restore_users : AdminWorld → Machine → Machine
restore_users a m = elim (resolve_users a.lookup_user m.service.cfg) [
  | err e ↦ m
  | ok uid_users ↦ record m { service = record m.service { uid_users = uid_users } }
]

-- `reload`: the new configuration takes effect as a whole, or not at all.
unfoldable pub reload : AdminWorld → Machine → Machine × Response
reload a m =
    let s : Service = m.service in
    elim a.loaded [
      | none ↦ (m, failed not_loaded)
      | some cfg ↦ elim (resolve_users a.lookup_user cfg) [
        | err e ↦ (restore_users a m, failed (not_resolved e))
        | ok uid_users ↦
            if a.filter_fails cfg uid_users
            then (
              restore_users a (record m { service = record s { uid_users = uid_users } }),
              failed not_filtered,
            )
            else (
              record m {
                service = record s {
                  cfg = cfg;
                  uid_users = uid_users;
                  pending_kill = [];
                  previous_users = [];
                  previous_apps = [];
                };
              },
              done reloaded,
            )
      ]
    ]

-- The counters that a reset clears.
unfoldable pub reset_user : Str → UsageState → UsageState
reset_user user state = record state {
  users = erase user state.users;
  device_seconds = erase user state.device_seconds;
  continuous_seconds = erase user state.continuous_seconds;
  break_until = erase user state.break_until;
}

unfoldable pub reset_application : Str → Str → UsageState → UsageState
reset_application user application state = elim (lookup user state.users) [
  | none ↦ state
  | some apps ↦ record state { users = insert user (erase application apps) state.users }
]

unfoldable pub has_application : Str → List Application → Bool
has_application id [] = false
has_application id (app ∷ apps) = app.id == id || has_application id apps

-- The end of a reset: cancel the kills that it covers, and save.
unfoldable pub finish_reset : World → Str → Str → UsageState → Machine → Machine × Response
finish_reset w user application state m =
    let s : Service =
      cancel_pending_terminations user application (record m.service { state = state }) in
    let (disk, error) = save_state w.usage_faults s.state m.disk in
    let ended : Machine = record m { service = s; disk = disk } in
    elim error [
      | some step ↦
          (enter_state_recovery w (not_persisted step) false ended, failed (file_problem step))
      | none ↦ (ended, done counters_reset)
    ]

unfoldable pub reset_counters : World → Str → Str → Machine → Machine × Response
reset_counters w user application m =
    let s : Service = m.service in
    if is_some s.recovery
    then (m, failed recovery_first)
    else (if not (contains user s.cfg.users)
        then (m, failed (unknown_user user))
        else (if application == []
            then finish_reset w user application (reset_user user s.state) m
            else (if has_application application (user_config s user).applications
                then finish_reset w user application (reset_application user application s.state) m
                else (m, failed (unknown_application application)))))

unfoldable pub execute : AdminWorld → Request → Machine → Machine × Response
execute a req m =
    if req.command == codes "status"
    then (m, status_response (status a.world m))
    else (if req.command == codes "reload"
        then reload a m
        else (if req.command == codes "recover-state"
            then (elim m.service.recovery [
              | none ↦ (m, failed not_needed)
              | some r ↦ recover_state a.world r m
            ])
            else (if req.command == codes "reset"
                then reset_counters a.world req.user req.application m
                else (m, failed (unknown_command req.command)))))

-- ===== src/Daemon/Iteration.antt =====
-- `tick` and the recovery of internal/daemon: a whole monitoring iteration, and what the service
-- does while its state waits for recovery.
pub mod Enforcement
pub mod Counters
pub mod Charging
-- What every recovery ends with: the samples begin anew.
use local_parental_control.Daemon.Service.{
  World, Reason, Service, Machine, StateRecovery, LockReason, enter_state_recovery, lock_all,
  location, recovery_required, scan_failed, not_persisted, timezone_changed, timezone_recovery,
  clock_rolled_back, rollback_recovery,
}
use local_parental_control.Config.Clock.{Zone}
use local_parental_control.Base.{
  List, none, Option, Bool, ℕ, if◌then◌else◌, [], true, some, ◌&&◌, false, ◌==◌, not,
}
use local_parental_control.Dict.{Dict}
use local_parental_control.Daemon.State.{Instant, UsageState, new_state_in_timezone}
use local_parental_control.Process.{Info}
use local_parental_control.Daemon.Store.{FileStep, save_state, remove_marker}
use local_parental_control.Int.{ℤ, ltb_ℤ, seconds, times, ◌-ℤ◌}
use local_parental_control.Daemon.Tick.{
  kill_due, see_processes, no_one, unlocked_users, account_users, add_active, sample_users,
  enforce_apps, close_all,
}
use local_parental_control.Text.{Str, str_ltb, str_eq}

unfoldable pub resume : World → Service → Service
resume w s = record s {
  recovery = none;
  last_tick = w.now;
  previous_users = [];
  previous_apps = [];
}

unfoldable pub set_recovery_reason : Reason → Service → Service
set_recovery_reason reason s = elim s.recovery [
  | none ↦ s
  | some r ↦ record s { recovery = some (record r { reason = reason }) }
]

-- `retryStatePersistence`: the error that it meets, if any.
unfoldable pub retry_state_persistence : World → Machine → Machine × Option FileStep
retry_state_persistence w m =
    let (saved, save_error) = save_state w.usage_faults m.service.state m.disk in
    let (cleared, clear_error) = remove_marker w.removal_faults saved in
    elim save_error [
      | some step ↦ (
        record m { service = set_recovery_reason (not_persisted step) m.service; disk = saved },
        some step,
      )
      | none ↦ elim clear_error [
        | some step ↦ (
          record m { service = set_recovery_reason (not_persisted step) m.service; disk = cleared },
          some step,
        )
        | none ↦ (record m { service = resume w m.service; disk = cleared }, none)
      ]
    ]

-- The iteration of a service that waits for recovery: without a reset it tries to write the state
-- again, and otherwise every configured user is locked.
unfoldable pub recovery_tick : World → StateRecovery → Machine → Machine
recovery_tick w r m =
    let (tried, error) = retry_state_persistence w m in
    if r.reset_required then lock_all recovery_required m.service.uid_users m else (elim error [
      | none ↦ tried
      | some step ↦ lock_all recovery_required tried.service.uid_users tried
    ])

-- A recovery that the iteration itself begins.
unfoldable pub halt_tick : World → Reason → LockReason → Machine → Machine
halt_tick w reason why m =
    let entered : Machine = enter_state_recovery w reason true m in
    lock_all why entered.service.uid_users entered

-- The begin of the interval that this iteration accounts: after a change of the day no earlier
-- than midnight, never in the future, and never longer ago than two polls.
unfoldable pub clip_start : World → Zone → Bool → ℤ → Instant → Instant
clip_start w zone new_day poll_seconds last =
    let midnight : Instant = zone.midnight w.now in
    let in_day : Instant = if new_day && ltb_ℤ last midnight then midnight else last in
    let past : Instant = if ltb_ℤ w.now in_day then w.now else in_day in
    let longest : ℤ = seconds (times 2 poll_seconds) in
    if ltb_ℤ longest (w.now -ℤ past) then w.now -ℤ longest else past

-- The processes of the scan; none of them where it failed.
unfoldable pub scanned : World → List Info
scanned w = elim w.scan [ none ↦ [] | some processes ↦ processes ]

unfoldable pub begin_sample : World → Service → Service
begin_sample w s = elim w.scan [
  | none ↦ record s {
    previous_users = [];
    previous_apps = [];
    application_monitoring_error = some scan_failed;
  }
  | some processes ↦ record s { application_monitoring_error = none }
]

-- The kills that are due, after a scan that did not fail.
unfoldable pub finish_kills : World → Dict ℕ Info → Machine → Machine
finish_kills w current m =
    let (kills, log) = kill_due w current m.service.pending_kill m.log in
    elim w.scan [
      | none ↦ m
      | some processes ↦ record m { service = record m.service { pending_kill = kills }; log = log }
    ]

-- Saving the state ends the iteration; a failure enters the recovery that retries.
unfoldable pub persist : World → Machine → Machine × Option Reason
persist w m =
    let (disk, error) = save_state w.usage_faults m.service.state m.disk in
    let saved : Machine = record m { disk = disk } in
    elim error [
      | some step ↦
          (enter_state_recovery w (not_persisted step) false saved, some (not_persisted step))
      | none ↦ (saved, elim w.scan [ none ↦ some scan_failed | some processes ↦ none ])
    ]

-- The iteration from the scan on.
unfoldable pub monitor : World → Instant → Machine → Machine × Option Reason
monitor w interval_start m =
    let processes : List Info = scanned w in
    let started : Machine = record m { service = begin_sample w m.service } in
    let (seen_machine, seen) = see_processes w processes (started, no_one) in
    let unlocked : Dict Str Bool =
      unlocked_users w seen.active_users seen_machine.service.uid_users [] in
    let (charged, counted) =
      account_users w interval_start seen.active_users unlocked seen_machine.service.uid_users
        (seen_machine, []) in
    let s : Service = charged.service in
    let sampled : Machine = record charged {
      service = record s {
        state = add_active counted s.previous_apps seen.active s.state;
        previous_users = sample_users seen.active_users unlocked;
        previous_apps = seen.active;
      };
    } in
    let killed : Machine = finish_kills w seen.current (enforce_apps w processes sampled) in
    let (ended, error) = persist w killed in
    (record ended { log = close_all processes ended.log }, error)

unfoldable pub tick : World → Machine → Machine × Option Reason
tick w m =
    let s : Service = m.service in
    let zone : Zone = location w m in
    let date : Str = zone.date w.now in
    let known : UsageState =
      if s.state.timezone == [] then record s.state { timezone = s.cfg.timezone } else s.state in
    let new_day : Bool = str_ltb known.date date in
    let today : UsageState = if new_day then new_state_in_timezone date s.cfg.timezone else known in
    let start : Instant = clip_start w zone new_day s.cfg.poll_interval_seconds s.last_tick in
    let ready : Machine = record m { service = record s { state = today; last_tick = w.now } } in
    elim s.recovery [
      | some r ↦ (recovery_tick w r m, none)
      | none ↦
          if not (known.timezone == s.cfg.timezone)
          then (
            halt_tick w (timezone_changed known.timezone s.cfg.timezone) timezone_recovery m,
            none,
          )
          else (if str_ltb date known.date
              then (
                halt_tick w (clock_rolled_back date known.date) rollback_recovery
                    (record m { service = record s { state = known } }),
                none,
              )
              else monitor w start ready)
    ]

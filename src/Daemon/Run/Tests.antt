-- ===== src/Daemon/Run/Tests.antt =====
-- Lives of a daemon without users.
use local_parental_control.Config.{Config}
use local_parental_control.Config.Clock.{Zone}
use local_parental_control.Daemon.Store.{Faults, Disk, reset, absent, load_recovery_marker}
use local_parental_control.Daemon.Users.{LookupUser, resolve_users, resolve_from}
use local_parental_control.Text.{codes}
use local_parental_control.Base.{Option, false, true, none, some, ◌∷◌, ◌≡◌, ok, [], refl, inr, inl}
use local_parental_control.Daemon.Service.{Machine, World, StateRecovery, interrupted}
use local_parental_control.Daemon.Run.{new_service, perform, stop, iteration, start_state, call}
use local_parental_control.Daemon.Run.Mode.{ViewStep, by_iteration, normal, mode}
use local_parental_control.Daemon.Run.Recovery.{
  IsConsistent, IsDurable, Life-IsConsistent, Unrecovered-IsDurable, later, called, begin, here,
}
use local_parental_control.Daemon.Run.Progress.{Resumes, retrying-Resumes, blocked-is_locked}
use local_parental_control.Dict.{lookup}
use local_parental_control.Daemon.Tick.Locks.{is_locked}
use local_parental_control.Daemon.Iteration.{tick}
use local_parental_control.Int.{pos}
use local_parental_control.Daemon.State.{new_state}
use local_parental_control.Daemon.Run.Commands.{perform-ViewStep}
use local_parental_control.Daemon.Status.{sorted_names, sort_by}
use local_parental_control.Daemon.Load.{load_service_state, load_state, StateReader}

abbrev household : Config
household = record {
  timezone = codes "UTC";
  poll_interval_seconds = pos 5;
  termination_grace_seconds = pos 10;
  users = [];
}

-- A zone in which every instant lies on one day.
abbrev plain_zone : Zone
plain_zone = record {
  date = λ _. codes "2026-03-01";
  hour = λ _. 0;
  minute = λ _. 0;
  midnight = λ _. pos 0;
}

abbrev healthy : Faults
healthy _ = false

abbrev broken : Faults
broken _ = true

-- A world whose calls on the usage file are as given.
abbrev world : Faults → World
world faults = record {
  now = pos 1000000000;
  zone_of = λ _. plain_zone;
  scan = some [];
  unlocked = λ _. none;
  signal_fails = λ _ _. false;
  usage_faults = faults;
  marker_faults = healthy;
  removal_faults = healthy;
  quarantine_faults = healthy;
}

abbrev nobody : LookupUser
nobody name = none

abbrev any_date : StateReader
any_date = record { text_size = λ _. 300; decoded = λ state. some state; valid_date = λ _. true }

abbrev no_files : Disk
no_files = record { usage = none; marker = absent; preserved = [] }

abbrev marked_files : Disk
marked_files = record no_files { marker = reset }

-- A service with a recovery, and with files.
abbrev service_with : Option StateRecovery → Disk → Machine
service_with recovery disk = record {
  service = record {
    cfg = household;
    state = record (new_state (codes "2026-03-01")) { timezone = codes "UTC" };
    uid_users = [];
    pending_kill = [];
    last_tick = pos 1000000000;
    recovery = recovery;
    application_monitoring_error = none;
    previous_users = [];
    previous_apps = [];
  };
  disk = disk;
  log = [];
}

abbrev running : Machine
running = service_with none no_files

abbrev stopped : Machine
stopped = service_with (some (record { reason = interrupted; reset_required = true })) marked_files

abbrev waiting : Machine
waiting = service_with (some (record { reason = interrupted; reset_required = false })) no_files

started : new_service (world healthy) any_date nobody household no_files ≡ ok running
unfolding new_service resolve_users resolve_from sorted_names sort_by start_state load_service_state
    load_recovery_marker load_state new_state
started = refl

perform-ViewStep_example :
    ViewStep by_iteration normal absent
      (mode (perform (iteration (world broken)) running))
      (perform (iteration (world broken)) running).disk.marker
perform-ViewStep_example = perform-ViewStep (iteration (world broken)) running

Life-IsConsistent_example : IsConsistent (perform (stop (world broken)) running)
Life-IsConsistent_example = Life-IsConsistent (
    later (begin (world healthy) any_date nobody household no_files started)
      (call (stop (world broken))))

Unrecovered-IsDurable_example : IsDurable (perform (iteration (world healthy)) stopped)
Unrecovered-IsDurable_example =
    Unrecovered-IsDurable {m = stopped} (called here (iteration (world healthy)) (λ e. cc))
      (refl, refl)

retrying-Resumes_example : Resumes (world broken ∷ world healthy ∷ []) waiting
retrying-Resumes_example =
    retrying-Resumes (world broken ∷ world healthy ∷ []) waiting refl
      (inr (inl (λ _. refl, λ _. refl)))

abbrev stopped_home : Machine
stopped_home = record stopped {
  service = record stopped.service { uid_users = (1000, codes "alice") ∷ [] };
}

blocked-is_locked_example : is_locked 1000 (tick (world broken) stopped_home).0.log ≡ true
unfolding lookup
blocked-is_locked_example =
    blocked-is_locked (world broken) stopped_home 1000 (codes "alice") refl refl

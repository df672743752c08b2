-- ===== src/Daemon/Service.antt =====
-- The daemon's state (`Service` of internal/daemon/daemon.go) and what surrounds it.

-- The causes of a recovery and of the errors that the daemon reports.
use local_parental_control.Base.{ℕ, Bool, List, Option, some, ◌∷◌, []}
use local_parental_control.Text.{Str}
use local_parental_control.Daemon.State.{Instant, UsageState}
use local_parental_control.Config.{Config}
use local_parental_control.Daemon.Store.{Disk, FileStep, Faults, write_recovery_marker}
use local_parental_control.Config.Clock.{Zone}
use local_parental_control.Dict.{Dict}
use local_parental_control.Process.{Info, Signal}

pub data Reason : Type 0 where
  timezone_changed clock_rolled_back : Str → Str → Reason
  not_persisted : FileStep → Reason
  interrupted bad_marker bad_state : Reason
  scan_failed : Reason

pub record StateRecovery : Type 0 where
  pub reason : Reason
  pub reset_required : Bool

pub record PendingTermination : Type 0 where
  pub deadline : Instant
  pub process : Info

pub record Service : Type 0 where
  pub cfg : Config
  pub state : UsageState
  pub uid_users : Dict ℕ Str
  pub pending_kill : Dict ℕ PendingTermination
  pub last_tick : Instant
  pub recovery : Option StateRecovery
  pub application_monitoring_error : Option Reason
  pub previous_users : Dict Str Bool
  pub previous_apps : Dict Str (Dict Str Bool)

pub data LockReason : Type 0 where
  recovery_required timezone_recovery rollback_recovery device_limit mandatory_break : LockReason

-- What the daemon asks of the system: screen locks, signals, and the release of pidfds.
pub data Event : Type 0 where
  locked : ℕ → LockReason → Event
  signalled : Signal → Info → Event
  closed : Info → Event

-- The service with its files and the record of its requests, the latest first.
pub record Machine : Type 0 where
  pub service : Service
  pub disk : Disk
  pub log : List Event

-- What the system answers: the clock, the zones, the process scan (`none` is an error), the state
-- of a user's sessions (`none` is an error), the signals that fail, and the file calls that fail
-- in the saving of the state, the writing and the removal of the marker, and the quarantine.
pub record World : Type 0 where
  pub now : Instant
  pub zone_of : Str → Zone
  pub scan : Option (List Info)
  pub unlocked : ℕ → Option Bool
  pub signal_fails : Signal → Info → Bool
  pub usage_faults : Faults
  pub marker_faults : Faults
  pub removal_faults : Faults
  pub quarantine_faults : Faults

-- `s.cfg.Location()`
abbrev pub location : World → Machine → Zone
location w m = w.zone_of m.service.cfg.timezone

-- A lock request; its failure is only logged.
unfoldable pub lock : ℕ → LockReason → Machine → Machine
lock uid reason m = record m { log = locked uid reason ∷ m.log }

unfoldable pub lock_all : LockReason → Dict ℕ Str → Machine → Machine
unfolding lock
lock_all reason [] m = m
lock_all reason ((uid, username) ∷ users) m = lock_all reason users (lock uid reason m)

-- The recovery is entered whether or not its marker could be written.
unfoldable pub enter_state_recovery : World → Reason → Bool → Machine → Machine
enter_state_recovery w reason reset_required m = record m {
  service = record m.service {
    recovery = some (record { reason = reason; reset_required = reset_required });
  };
  disk = (write_recovery_marker w.marker_faults reset_required m.disk).0;
}

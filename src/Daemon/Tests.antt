-- ===== src/Daemon/Tests.antt =====
-- The daemon's theorems at a household of one user, alice, with UID 1000, who may use the device
-- from 11:00 until 20:00.
use local_parental_control.Base.{
  ℕ, ◌≡◌, Bool, true, false, none, [], some, ◌∷◌, if◌then◌else◌, inl, All, ok, ◌*◌, ◌⊎◌, ◌==◌, inr,
  ◌/◌, refl, ◌%◌, ℕ_eq,
}
use local_parental_control.Text.{Str, codes, str_eq, str_ltb}
use local_parental_control.Config.{UserConfig, Config}
use local_parental_control.Config.Clock.{
  Zone, parse_clock, parse_time, get_num, parse_minute, skip_colon, allowed_at, is_digit, or_zero,
}
use local_parental_control.Daemon.State.{UsageState, Instant}
use local_parental_control.Process.{Info, same_identity}
use local_parental_control.Daemon.Service.{
  PendingTermination, Machine, StateRecovery, World, interrupted, location,
}
use local_parental_control.Daemon.Store.{
  write_data, Faults, Disk, save_state, reset, absent, stored,
}
use local_parental_control.Dict.{lookup, get_or, contains, insert}
use local_parental_control.Daemon.Tick.Charging.{device_of}
use local_parental_control.Daemon.Tick.{kill_due, enforce_user}
use local_parental_control.Daemon.Tick.Kills.{Killed, Justified, kill_due-Justified}
use local_parental_control.Daemon.Admin.{
  Message, reload, reset_counters, recover_state, AdminWorld, done, failed, finish_reset,
  not_filtered, reloaded, counters_reset, Problem, restore_users,
}
use local_parental_control.Daemon.Users.{LookupUser, resolve_users, resolve_from}
use local_parental_control.Daemon.Users.Laws.{IsGiven, resolve_users-IsGiven}
use local_parental_control.Daemon.Admin.Reset.{IsReset, reset_counters-IsReset}
use local_parental_control.Daemon.Status.{
  user_status, handle_status, sorted_names, sort_by, insert_by,
}
use local_parental_control.Int.{pos, pos_part}
use local_parental_control.Daemon.Iteration.{tick}
use local_parental_control.Daemon.Store.Laws.{
  disk_after, first_fault, save_steps, save_state_faults,
}
use local_parental_control.Daemon.Tick.Locks.{is_locked}
use local_parental_control.Daemon.Iteration.Charging.{tick-device}
use local_parental_control.Daemon.Admin.Reload.{reload_fails, tick-reload}
use local_parental_control.Daemon.Status.Laws.{
  device_blocked-enforce_user, IsSameView, handle_status-IsSameView,
}
use local_parental_control.Daemon.Admin.Recovery.{recover_state_outcome}
use local_parental_control.Config.Paths.{parse_uint, parse_digits}
use local_parental_control.Daemon.Iteration.Enforcement.{tick-is_locked}

abbrev alice : Str
alice = codes "alice"

abbrev rules : UserConfig
rules = record {
  daily_device_minutes = pos 180;
  continuous_use_minutes = pos 60;
  break_minutes = pos 10;
  all_day = false;
  allowed_from = codes "11:00";
  allowed_until = codes "20:00";
  applications = [];
  blocked_domains = [];
}

abbrev household : Config
household = record {
  timezone = codes "UTC";
  poll_interval_seconds = pos 5;
  termination_grace_seconds = pos 10;
  users = (alice, rules) ∷ [];
}

abbrev at_minute : ℕ → Instant
at_minute n = pos (n * 60000000000)

-- A zone on its first day.
abbrev plain_zone : Zone
plain_zone = record {
  date = λ _. codes "2026-03-01";
  hour = λ t. pos_part t / 60000000000 / 60;
  minute = λ t. pos_part t / 60000000000 % 60;
  midnight = λ _. pos 0;
}

abbrev used_up : UsageState
used_up = record {
  date = codes "2026-03-01";
  timezone = codes "UTC";
  device_seconds = (alice, pos 10800) ∷ [];
  continuous_seconds = (alice, pos 30) ∷ [];
  break_until = [];
  users = [];
}

abbrev shell : Info
shell = record { pid = 7; uid = 1000; executable = codes "/bin/sh"; start_time = 3; pidfd = 5 }

abbrev overdue : PendingTermination
overdue = record { deadline = at_minute 500; process = shell }

abbrev full_disk : Faults
full_disk write_data = true
full_disk _ = false

abbrev healthy : Faults
healthy _ = false

abbrev empty_disk : Disk
empty_disk = record { usage = none; marker = absent; preserved = [] }

abbrev running : Machine
running = record {
  service = record {
    cfg = household;
    state = used_up;
    uid_users = (1000, alice) ∷ [];
    pending_kill = (7, overdue) ∷ [];
    last_tick = at_minute 599;
    recovery = none;
    application_monitoring_error = none;
    previous_users = (alice, true) ∷ [];
    previous_apps = [];
  };
  disk = empty_disk;
  log = [];
}

-- The world at a minute of the day; the process scan fails, and the files are as given.
abbrev world_at : ℕ → Faults → World
world_at n faults = record {
  now = at_minute n;
  zone_of = λ _. plain_zone;
  scan = none;
  unlocked = λ _. some true;
  signal_fails = λ _ _. false;
  usage_faults = faults;
  marker_faults = healthy;
  removal_faults = healthy;
  quarantine_faults = healthy;
}

tick-is_locked_example : is_locked 1000 (tick (world_at 600 full_disk) running).0.log ≡ true
unfolding lookup get_or parse_clock parse_time get_num parse_minute skip_colon allowed_at or_zero
tick-is_locked_example =
    tick-is_locked 1000 alice (world_at 600 full_disk) running refl refl (λ r e. cc)

tick-device_example :
    device_of alice (tick (world_at 700 healthy) running).0.service
    ≡ device_of alice running.service
unfolding str_ltb
tick-device_example = tick-device alice (world_at 700 healthy) running refl (inr (inl refl))

shell-Killed :
    Killed shell
      (kill_due (world_at 600 healthy) ((7, shell) ∷ []) running.service.pending_kill []).1
unfolding kill_due same_identity lookup
shell-Killed = inl refl

kill_due-Justified_example :
    Killed shell []
    ⊎ Justified (world_at 600 healthy) ((7, shell) ∷ []) shell running.service.pending_kill
kill_due-Justified_example =
    kill_due-Justified (world_at 600 healthy) ((7, shell) ∷ []) running.service.pending_kill []
      shell shell-Killed

save_state_faults_example : save_state full_disk used_up empty_disk ≡ (
  disk_after used_up empty_disk (first_fault full_disk save_steps),
  first_fault full_disk save_steps,
)
save_state_faults_example = save_state_faults full_disk used_up empty_disk

abbrev reset_disk : Disk
reset_disk = record empty_disk { marker = reset }

abbrev waiting : StateRecovery
waiting = record { reason = interrupted; reset_required = true }

abbrev stopped : Machine
stopped = record running {
  service = record running.service { recovery = some waiting };
  disk = reset_disk;
}

recover_state_outcome_example :
    ((msg : Message)
      → (recover_state (world_at 600 healthy) waiting stopped).1 ≡ done msg
      → ((recover_state (world_at 600 healthy) waiting stopped).0.service.recovery ≡ none)
        × ((recover_state (world_at 600 healthy) waiting stopped).0.disk.marker ≡ absent)
        × ((recover_state (world_at 600 healthy) waiting stopped).0.disk.usage
            ≡ some (stored (recover_state (world_at 600 healthy) waiting stopped).0.service.state)))
    × ((p : Problem)
        → (recover_state (world_at 600 healthy) waiting stopped).1 ≡ failed p
        → (recover_state (world_at 600 healthy) waiting stopped).0.service.recovery
          ≡ stopped.service.recovery)
recover_state_outcome_example = recover_state_outcome (world_at 600 healthy) waiting stopped

-- A user database that knows alice alone.
abbrev passwd : LookupUser
passwd name = if name == alice then some (codes "1000") else none

resolved : resolve_users passwd household ≡ ok ((1000, alice) ∷ [])
unfolding resolve_users resolve_from sorted_names sort_by insert_by parse_uint parse_digits lookup
    insert is_digit
resolved = refl

resolve_users-IsGiven_example :
    IsGiven passwd ((1000, alice) ∷ [])
    × All
        (λ name. (uid : ℕ) × (lookup uid ((1000, alice) ∷ []) ≡ some name))
        (sorted_names household.users)
resolve_users-IsGiven_example = resolve_users-IsGiven passwd household resolved

-- A reload whose configuration loads, with a filter that refuses the rules or takes them.
abbrev reload_world : Bool → AdminWorld
reload_world refuses = record {
  world = world_at 600 healthy;
  loaded = some household;
  lookup_user = passwd;
  filter_fails = λ _ _. refuses;
}

refused : (reload (reload_world true) running).1 ≡ failed not_filtered
unfolding reload resolve_users resolve_from sorted_names sort_by insert_by parse_uint parse_digits
    lookup insert is_digit restore_users
refused = refl

accepted : (reload (reload_world false) running).1 ≡ done reloaded
unfolding reload resolve_users resolve_from sorted_names sort_by insert_by parse_uint parse_digits
    lookup insert is_digit
accepted = refl

reload_day :
    str_ltb (reload (reload_world false) running).0.service.state.date (
      (location (world_at 700 healthy) (reload (reload_world false) running).0).date
        (at_minute 700))
    ≡ false
unfolding reload resolve_users resolve_from sorted_names sort_by insert_by parse_uint parse_digits
    lookup insert is_digit str_ltb
reload_day = refl

reload_fails_example : (reload (reload_world true) running).0 ≡ running
reload_fails_example = reload_fails (reload_world true) running not_filtered resolved refused

tick-reload_example :
    device_of alice (tick (world_at 700 healthy) (reload (reload_world false) running).0).0.service
    ≡ device_of alice running.service
tick-reload_example =
    tick-reload (reload_world false) (world_at 700 healthy) running alice accepted reload_day

reset_done : (reset_counters (world_at 600 healthy) alice [] running).1 ≡ done counters_reset
unfolding reset_counters contains finish_reset save_state lookup
reset_done = refl

reset_counters-IsReset_example :
    IsReset alice running.service.uid_users used_up
      (reset_counters (world_at 600 healthy) alice [] running).0.service
reset_counters-IsReset_example =
    reset_counters-IsReset (world_at 600 healthy) alice running counters_reset reset_done

device_blocked-enforce_user_example :
    ((user_status (world_at 700 healthy) running alice).device_blocked ≡ true
      → is_locked 1000 (enforce_user (world_at 700 healthy) 1000 alice running).log ≡ true)
    × ((user_status (world_at 700 healthy) running alice).device_blocked ≡ false
        → (enforce_user (world_at 700 healthy) 1000 alice running).log ≡ running.log)
device_blocked-enforce_user_example =
    device_blocked-enforce_user (world_at 700 healthy) running 1000 alice refl

-- Another user, bob, has used the device as well.
abbrev shared : Machine
shared = record running {
  service = record running.service {
    state = record used_up { device_seconds = (codes "bob", pos 60) ∷ used_up.device_seconds };
    uid_users = (1001, codes "bob") ∷ running.service.uid_users;
  };
}

same_view : IsSameView alice running shared
unfolding lookup
same_view = record {
  recovery = refl;
  scan_error = refl;
  date = refl;
  timezone = refl;
  settings = refl;
  apps = refl;
  device = refl;
  continuous = refl;
  break = refl;
}

alice_known : lookup 1000 running.service.uid_users ≡ some alice
unfolding lookup
alice_known = refl

alice_shared : lookup 1000 shared.service.uid_users ≡ some alice
unfolding lookup
alice_shared = refl

handle_status-IsSameView_example :
    handle_status (world_at 700 healthy) shared 1000
    ≡ handle_status (world_at 700 healthy) running 1000
handle_status-IsSameView_example =
    handle_status-IsSameView (world_at 700 healthy) running shared 1000 alice alice_known
      alice_shared same_view

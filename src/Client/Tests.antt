-- ===== src/Client/Tests.antt =====
-- Runs of the client.
use local_parental_control.Text.{str_eq, codes, str_beq}
use local_parental_control.Config.Clock.{Zone}
use local_parental_control.Config.{Config}
use local_parental_control.Client.{
  ClientWorld, run, held, run_command, request_for, plain_request, report, call, exits,
  response_code,
}
use local_parental_control.Daemon.Service.{World, Machine}
use local_parental_control.Daemon.Admin.{AdminWorld, execute, reload}
use local_parental_control.Client.Laws.{IsRun, run-IsRun}
use local_parental_control.Base.{some, [], none, ◌∷◌, false, ◌≡◌, refl, true, if◌then◌else◌}
use local_parental_control.Int.{pos}
use local_parental_control.Daemon.State.{new_state}
use local_parental_control.Daemon.Store.{absent}
use local_parental_control.Daemon.Users.{resolve_users, resolve_from}
use local_parental_control.Daemon.Status.{sorted_names, sort_by}
use local_parental_control.Config.Executables.{end_of_input, FileSystem}
use local_parental_control.Client.Discover.{Packages, Suggestion}

abbrev no_zone : Zone
no_zone = record {
  date = λ _. codes "2026-03-01";
  hour = λ _. 0;
  minute = λ _. 0;
  midnight = λ _. pos 0;
}

abbrev any_household : Config
any_household = record {
  timezone = codes "UTC";
  poll_interval_seconds = pos 5;
  termination_grace_seconds = pos 10;
  users = [];
}

-- Every path leads to one program, the only file in the one directory of PATH.
abbrev one_program : FileSystem
one_program = record {
  eval_symlinks = λ _. some (codes "/usr/bin/vlc");
  stat = λ _. some (record { owner = 0; is_dir = false; is_regular = true; mode = 493 });
  lstat = λ _. none;
  header = λ _. some (127 ∷ codes "ELF");
  size = λ _. none;
  decoded = λ _. none;
  next_value = λ _. end_of_input;
  parent = λ path. path;
}

abbrev one_package : Packages
one_package = record {
  path_list = codes "/usr/bin" ∷ [];
  read_dir =
      λ directory. if str_beq directory (codes "/usr/bin") then some (codes "vlc" ∷ []) else none;
  command_output = λ _ _. none;
  scan_lines = λ s. s ∷ [];
  walk_dir = λ _. [];
  relative = λ _ _. none;
  files = one_program;
  unicode = record { lower = λ s. s; trim = λ s. s };
  unicode_fields = λ s. s ∷ [];
}

abbrev terminal : ClientWorld
terminal = record {
  parse_flags = λ args.
      some (record { config_path = []; socket_path = []; show_version = false; arguments = args });
  platform = record {
    zone_known = λ _. true;
    lookup_user = λ _. none;
    unicode = record { lower = λ s. s; trim = λ s. s };
    has_unicode_space = λ _. false;
  };
  files = one_program;
  packages = one_package;
  link = λ _. held;
}

abbrev quiet_world : World
quiet_world = record {
  now = pos 100;
  zone_of = λ _. no_zone;
  scan = some [];
  unlocked = λ _. none;
  signal_fails = λ _ _. false;
  usage_faults = λ _. false;
  marker_faults = λ _. false;
  removal_faults = λ _. false;
  quarantine_faults = λ _. false;
}

abbrev served_world : AdminWorld
served_world = record {
  world = quiet_world;
  loaded = some any_household;
  lookup_user = λ _. none;
  filter_fails = λ _ _. false;
}

abbrev machine : Machine
machine = record {
  service = record {
    cfg = any_household;
    state = record (new_state (codes "2026-03-01")) { timezone = codes "UTC" };
    uid_users = [];
    pending_kill = [];
    last_tick = pos 90;
    recovery = none;
    application_monitoring_error = none;
    previous_users = [];
    previous_apps = [];
  };
  disk = record { usage = none; marker = absent; preserved = [] };
  log = [];
}

run-IsRun_example :
    IsRun served_world machine (run terminal served_world (codes "status" ∷ []) machine)
run-IsRun_example = run-IsRun terminal served_world (codes "status" ∷ []) machine

reload_runs : (run terminal served_world (codes "reload" ∷ []) machine).1.code ≡ 0
unfolding run run_command request_for plain_request report call exits response_code execute reload
    resolve_users resolve_from sorted_names sort_by
reload_runs = refl

unknown_runs : (run terminal served_world (codes "restart" ∷ []) machine).1.code ≡ 2
unfolding run run_command request_for exits
unknown_runs = refl

abbrev suggested : Suggestion
suggested = record { source = codes "path"; pkg = codes "-"; executable = codes "/usr/bin/vlc" }

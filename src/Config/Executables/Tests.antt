-- ===== src/Config/Executables/Tests.antt =====
-- A configuration with a native executable and a Snap executable.
use local_parental_control.Text.{
  str_eq, Str, codes, str_beq, trim_space, is_ascii, trim_right, trim_left, has_prefix, is_space,
  join, split, split_first, str_ltb,
}
use local_parental_control.Base.{List, true, false, if◌then◌else◌, some, ◌∷◌, [], ◌≡◌, ok, refl, ℕ}
use local_parental_control.Config.Validate.{
  Platform, defaults, all_defaults, user_defaults, or_default, validate, in_range,
  validate_unique_user_ids, is_blank, validate_users, validate_user, check_hours, check_application,
  check_applications, check_executables, has_slash, has_space_byte, normalize_domains, seen_in,
  valid_application_id,
}
use local_parental_control.Config.Executables.{
  FileInfo, FileSystem, load_secure, load, decode, validate_secure_file, end_of_input,
  validate_executables_at, identify_users, identify_applications, identify_paths, identify,
  inspect_native_executable, stable_snap_executable, stable_parts, has_elf_header,
  writable_by_others, is_executable,
}
use local_parental_control.Config.{Config, Application}
use local_parental_control.Config.Executables.Load.{IsSecure, load_secure-IsSecure}
use local_parental_control.Int.{pos}
use local_parental_control.Config.Paths.{
  relative_elements, below_base, valid_snap_revision, parse_uint, parse_digits, clean,
  clean_element, clean_from, elements_of, is_abs,
}
use local_parental_control.Daemon.Status.{sorted_names, sort_by, insert_by}
use local_parental_control.Config.Clock.{is_digit}
use local_parental_control.Dict.{lookup, get_or, insert, Dict}
use local_parental_control.Daemon.Users.{resolve_users}
use local_parental_control.Config.Executables.Users.{load_secure-resolve_users}

abbrev video_paths : List Str → Application
video_paths paths = record {
  id = codes "video";
  name = codes "Video";
  executables = paths;
  daily_minutes = pos 60;
}

abbrev household_with : List Str → Config
household_with paths = record {
  timezone = codes "UTC";
  poll_interval_seconds = pos 2;
  termination_grace_seconds = pos 15;
  users =
      (
        codes "alice",
        record {
          daily_device_minutes = pos 180;
          continuous_use_minutes = pos 60;
          break_minutes = pos 10;
          all_day = true;
          allowed_from = [];
          allowed_until = [];
          applications = video_paths paths ∷ [];
          blocked_domains = [];
        },
      )
      ∷ [];
}

abbrev system : Platform
system = record {
  zone_known = λ _. true;
  lookup_user = λ _. some (codes "1000");
  unicode = record { lower = λ s. s; trim = λ s. s };
  has_unicode_space = λ _. false;
}

abbrev root_directory : FileInfo
root_directory = record { owner = 0; is_dir = true; is_regular = false; mode = 493 }

abbrev root_file : FileInfo
root_file = record { owner = 0; is_dir = false; is_regular = true; mode = 384 }

abbrev program : FileInfo
program = record { owner = 0; is_dir = false; is_regular = true; mode = 493 }

-- The paths lead to the files that Debian and Snap install.
abbrev disk_files : FileSystem
disk_files = record {
  eval_symlinks = λ path.
      if str_beq path (codes "/usr/bin/mpv")
      then some (codes "/usr/lib/mpv")
      else some (codes "/snap/vlc/7/bin/vlc");
  stat = λ _. some program;
  lstat =
      λ path. if str_beq path (codes "/etc/lpc.json") then some root_file else some root_directory;
  header = λ _. some (127 ∷ codes "ELF");
  size = λ _. some 900;
  decoded = λ _. some (household_with (codes "/usr/bin/mpv" ∷ codes "/snap/vlc/6/bin/vlc" ∷ []));
  next_value = λ _. end_of_input;
  parent = λ _. codes "/etc";
}

abbrev identified : Config
identified = household_with (codes "/usr/lib/mpv" ∷ codes "/snap/vlc/current/bin/vlc" ∷ [])

loaded_now : load_secure system disk_files (codes "/etc/lpc.json") ≡ ok identified
unfolding load_secure load decode validate_secure_file validate_executables_at identify_users
    identify_applications identify_paths identify inspect_native_executable stable_snap_executable
    stable_parts relative_elements below_base has_elf_header writable_by_others is_executable
    valid_snap_revision defaults all_defaults user_defaults or_default validate in_range
    validate_unique_user_ids sorted_names sort_by is_blank trim_space is_ascii trim_right trim_left
    parse_uint parse_digits is_digit lookup validate_users validate_user get_or check_hours clean
    clean_element clean_from elements_of is_abs check_application check_applications
    check_executables has_slash has_space_byte normalize_domains seen_in valid_application_id
    insert_by insert has_prefix is_space join split split_first str_ltb
loaded_now = refl

load_secure-IsSecure_example : IsSecure system disk_files (codes "/etc/lpc.json") identified
load_secure-IsSecure_example =
    load_secure-IsSecure system disk_files (codes "/etc/lpc.json") {c = identified} loaded_now

load_secure-resolve_users_example :
    (result : Dict ℕ Str) × (resolve_users system.lookup_user identified ≡ ok result)
load_secure-resolve_users_example =
    load_secure-resolve_users system disk_files (codes "/etc/lpc.json") {c = identified} loaded_now

-- ===== src/Config/Executables.antt =====
-- The loading of a configuration in internal/config/config.go: the inspection of the file and of the
-- executables that it names, `load`, and `LoadSecure`. A failure is a value, without its text.
pub mod Laws
pub mod Identities
pub mod Load
pub mod Users
mod Tests
use local_parental_control.Config.Validate.{
  ◌>>=◌, ◌>>◌, guard, map_error, ConfigError, Platform, seen_in, validate, defaults,
}
use local_parental_control.Config.{Config, UserConfig, Application}
use local_parental_control.Base.{
  ℕ, List, Bool, Option, Result, nat_eq, ok, true, some, ◌||◌, none, err, ◌/◌, ◌∷◌, not, [], ◌%◌,
  if◌then◌else◌, ◌++◌, ltb, ◌==◌, ◌&&◌,
}
use local_parental_control.Text.{Str, str_beq, codes, join, str_eq}
use local_parental_control.Dict.{Dict}
use local_parental_control.Config.Paths.{relative_elements, clean, slash, valid_snap_revision}

-- What the source asks of a file: its owner, its kind, and its permission bits.
pub record FileInfo : Type 0 where
  pub owner : ℕ
  pub is_dir : Bool
  pub is_regular : Bool
  pub mode : ℕ

pub data NextValue : Type 0 where
  end_of_input another_value malformed : NextValue

-- The file system and the JSON decoder: `filepath.EvalSymlinks`, `os.Stat`, `os.Lstat`, the first four
-- bytes of a file (`none` where it cannot be opened or is shorter), its size, the configuration that
-- its first value decodes to, and what follows it. `none` is an error.
pub record FileSystem : Type 0 where
  pub eval_symlinks : Str → Option Str
  pub stat : Str → Option FileInfo
  pub lstat : Str → Option FileInfo
  pub header : Str → Option Str
  pub size : Str → Option ℕ
  pub decoded : Str → Option Config
  pub next_value : Str → NextValue
  pub parent : Str → Str

pub data FileProblem : Type 0 where
  not_found unsafe_file snap_launcher unreadable not_elf : FileProblem

pub data LoadProblem : Type 0 where
  no_directory unsafe_directory no_file unsafe_configuration : LoadProblem
  too_large not_decoded multiple_values trailing_data : LoadProblem
  invalid : ConfigError → LoadProblem
  bad_executable : Str → FileProblem → LoadProblem
  shared_executable : Str → LoadProblem

-- The bit of a weight 2^n.
abbrev pub has_bit : ℕ → ℕ → Bool
has_bit mode weight = nat_eq (mode / weight % 2) 1

-- `Mode().Perm()&0022 != 0`
unfoldable pub writable_by_others : ℕ → Bool
writable_by_others mode = has_bit mode 16 || has_bit mode 2

-- `Mode().Perm()&0111 != 0`
unfoldable pub is_executable : ℕ → Bool
is_executable mode = has_bit mode 64 || has_bit mode 8 || has_bit mode 1

unfoldable pub validate_secure_file : FileSystem → Str → ℕ → ℕ → Result LoadProblem (Unit {0})
validate_secure_file files path expected_uid expected_mode =
    elim (files.lstat (files.parent path)) [
      | none ↦ err no_directory
      | some above ↦
          if not (nat_eq above.owner expected_uid)
            || not above.is_dir
            || writable_by_others above.mode
          then err unsafe_directory
          else elim (files.lstat path) [
            | none ↦ err no_file
            | some info ↦
                if not (nat_eq info.owner expected_uid)
                  || not info.is_regular
                  || not (nat_eq info.mode expected_mode)
                then err unsafe_configuration
                else ok tt
          ]
    ]

-- `hasELFHeader` on the bytes that were read.
unfoldable pub has_elf_header : Str → Bool
has_elf_header header = str_beq header (127 ∷ codes "ELF")

unfoldable pub inspect_native_executable : FileSystem → Str → ℕ → Result FileProblem Str
inspect_native_executable files path expected_uid = elim (files.eval_symlinks path) [
  | none ↦ err not_found
  | some resolved ↦ elim (files.stat resolved) [
    | none ↦ err not_found
    | some info ↦
        if not (nat_eq info.owner expected_uid)
          || not info.is_regular
          || not (is_executable info.mode)
          || writable_by_others info.mode
        then err unsafe_file
        else if str_beq (clean resolved) (codes "/usr/bin/snap")
        then err snap_launcher
        else elim (files.header resolved) [
          | none ↦ err unreadable
          | some header ↦ if has_elf_header header then ok (clean resolved) else err not_elf
        ]
  ]
]

-- The parts of a path below the directory of Snap packages, with the revision replaced.
unfoldable pub stable_parts : List Str → Option (List Str)
stable_parts (pkg ∷ revision ∷ file ∷ more) =
    if pkg == []
    then none
    else if not (revision == codes "current") && not (valid_snap_revision revision)
    then none
    else some (pkg ∷ codes "current" ∷ file ∷ more)
stable_parts _ = none

-- `filepath.Join` cleans the path that it joins.
unfoldable pub stable_snap_executable : Str → Str → Option Str
stable_snap_executable executable snap_root =
    elim (relative_elements (clean snap_root) (clean executable)) [
      | none ↦ none
      | some parts ↦ elim (stable_parts parts) [
        | none ↦ none
        | some stable ↦ some (clean (join (slash ∷ []) (clean snap_root ∷ stable)))
      ]
    ]

-- The identity that is stored for an executable of the configuration.
unfoldable pub identify : FileSystem → ℕ → Str → Str → Result LoadProblem Str
identify files uid snap_root executable = elim (stable_snap_executable executable snap_root) [
  | some stable ↦ do
    resolved ← map_error (bad_executable executable) (inspect_native_executable files stable uid)
    ok stable
  | none ↦ do
    resolved ←
        map_error (bad_executable executable) (inspect_native_executable files executable uid)
    ok (clean resolved)
]

-- The loop over the executables of a rule, with the identities of the user that are taken.
unfoldable pub identify_paths :
    FileSystem → ℕ → Str → List Str → List Str → Result LoadProblem (List Str)
identify_paths files uid snap_root seen [] = ok []
identify_paths files uid snap_root seen (executable ∷ executables) = do
  stored ← identify files uid snap_root executable
  guard (not (seen_in seen stored)) (shared_executable stored)
  rest ← identify_paths files uid snap_root (stored ∷ seen) executables
  ok (stored ∷ rest)

unfoldable pub identify_applications :
    FileSystem → ℕ → Str → List Str → List Application → Result LoadProblem (List Application)
identify_applications files uid snap_root seen [] = ok []
identify_applications files uid snap_root seen (app ∷ apps) = do
  paths ← identify_paths files uid snap_root seen app.executables
  rest ← identify_applications files uid snap_root (paths ++ seen) apps
  ok (record app { executables = paths } ∷ rest)

-- The loop over the users, in the order of the map.
unfoldable pub identify_users :
    FileSystem → ℕ → Str → Dict Str UserConfig → Result LoadProblem (Dict Str UserConfig)
identify_users files uid snap_root [] = ok []
identify_users files uid snap_root ((name, uc) ∷ users) = do
  apps ← identify_applications files uid snap_root [] uc.applications
  rest ← identify_users files uid snap_root users
  ok ((name, record uc { applications = apps }) ∷ rest)

unfoldable pub validate_executables_at : FileSystem → Config → ℕ → Str → Result LoadProblem Config
validate_executables_at files c uid snap_root = do
  users ← identify_users files uid snap_root c.users
  ok (record c { users = users })

abbrev pub max_config_size : ℕ
max_config_size = 1048576

unfoldable pub decode : FileSystem → Str → Result LoadProblem Config
decode files path = elim (files.decoded path) [
  | none ↦ err not_decoded
  | some c ↦ elim (files.next_value path) [
    | end_of_input ↦ ok c
    | another_value ↦ err multiple_values
    | malformed ↦ err trailing_data
  ]
]

unfoldable pub load : Platform → FileSystem → Bool → Str → Result LoadProblem Config
load p files with_executables path = elim (files.size path) [
  | none ↦ err no_file
  | some size ↦ if ltb max_config_size size then err too_large else do
    written ← decode files path
    c ← map_error invalid (validate p (defaults written))
    if with_executables then validate_executables_at files c 0 (codes "/snap") else ok c
]

unfoldable pub load_secure : Platform → FileSystem → Str → Result LoadProblem Config
load_secure p files path = do validate_secure_file files path 0 384; load p files true path

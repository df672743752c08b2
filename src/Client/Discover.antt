-- ===== src/Client/Discover.antt =====
-- The discovery of applications, cmd/lpctl/discover.go, on what the system answers.
pub mod Laws
use local_parental_control.Config.Executables.{FileSystem, inspect_native_executable}
use local_parental_control.Text.{
  str_eq, Str, contains_text, codes, to_lower, str_beq, has_prefix, fields, split_first, trim_space,
  str_ltb,
}
use local_parental_control.Base.{
  List, Bool, Option, ℕ, [], err, ◌++◌, ◌∷◌, if◌then◌else◌, none, get_elem?, not, ok, some, ◌||◌,
  reverse, drop, ◌&&◌, length,
}
use local_parental_control.Dict.{Dict, insert}
use local_parental_control.Config.Paths.{clean, slash}
use local_parental_control.Config.Domain.{Unicode}
use local_parental_control.Config.Validate.{seen_in}

pub record Suggestion : Type 0 where
  pub source : Str
  pub pkg : Str
  pub executable : Str

-- A file or directory of `filepath.WalkDir`; `is_skipped` where it is a directory or not readable.
pub record Walked : Type 0 where
  pub path : Str
  pub name : Str
  pub is_skipped : Bool

-- The directories of PATH, the names in a directory, the output of a command that is found and
-- succeeds, the lines of package bufio, `filepath.WalkDir`, `filepath.Rel`, and the files.
pub record Packages : Type 0 where
  pub path_list : List Str
  pub read_dir : Str → Option (List Str)
  pub command_output : Str → List Str → Option Str
  pub scan_lines : Str → List Str
  pub walk_dir : Str → List Walked
  pub relative : Str → Str → Option Str
  pub files : FileSystem
  pub unicode : Unicode
  pub unicode_fields : Str → List Str

abbrev pub Found : Type 0
Found = Dict Str Suggestion

unfoldable pub add_found : Suggestion → Found → Found
add_found r found = insert (r.source ++ (0 ∷ r.pkg ++ (0 ∷ r.executable))) r found

unfoldable pub has_keyword : Packages → Str → Str → Bool
has_keyword p keyword text = contains_text (to_lower p.unicode.lower text) keyword

-- `filepath.Join` of two elements that are not empty.
unfoldable pub join_path : Str → Str → Str
join_path directory name = clean (directory ++ (slash ∷ name))

-- An executable that passes the inspection is added under its resolved path.
unfoldable pub add_native : Packages → Str → Str → Str → Found → Found
add_native p source pkg path found = elim (inspect_native_executable p.files path 0) [
  | err problem ↦ found
  | ok executable ↦ add_found (record { source = source; pkg = pkg; executable = executable }) found
]

unfoldable pub add_entries : Packages → Str → Str → List Str → Found → Found
add_entries p keyword directory [] found = found
add_entries p keyword directory (name ∷ names) found = add_entries p keyword directory names (
    if has_keyword p keyword name
    then add_native p (codes "path") (codes "-") (join_path directory name) found
    else found)

unfoldable pub add_directory : Packages → Str → Str → Found → Found
add_directory p keyword directory found = elim (p.read_dir directory) [
  | none ↦ found
  | some names ↦ add_entries p keyword directory names found
]

unfoldable pub discover_path : Packages → Str → List Str → List Str → Found → Found
discover_path p keyword seen [] found = found
discover_path p keyword seen (directory ∷ directories) found =
    if str_beq directory [] || seen_in seen directory
    then discover_path p keyword seen directories found
    else discover_path p keyword (directory ∷ seen) directories
        (add_directory p keyword directory found)

pub record PackageManager : Type 0 where
  pub name : Str
  pub list_args : List Str
  pub file_args : Str → List Str
  pub file_column : ℕ

abbrev pub native_package_managers : List PackageManager
native_package_managers =
    record {
      name = codes "dpkg-query";
      list_args =
          codes "-W"
          ∷ (codes "-f=${binary:Package}" ++ (9 ∷ codes "${binary:Summary}" ++ (10 ∷ [])))
          ∷ [];
      file_args = λ pkg. codes "-L" ∷ pkg ∷ [];
      file_column = 0;
    }
    ∷ record {
      name = codes "rpm";
      list_args =
          codes "-qa"
          ∷ codes "--qf"
          ∷ (codes "%{NAME}" ++ (9 ∷ codes "%{SUMMARY}" ++ (10 ∷ [])))
          ∷ [];
      file_args = λ pkg. codes "-ql" ∷ pkg ∷ [];
      file_column = 0;
    }
    ∷ record {
      name = codes "pacman";
      list_args = codes "-Q" ∷ [];
      file_args = λ pkg. codes "-Ql" ∷ pkg ∷ [];
      file_column = 1;
    }
    ∷ record {
      name = codes "apk";
      list_args = codes "info" ∷ [];
      file_args = λ pkg. codes "info" ∷ codes "-L" ∷ pkg ∷ [];
      file_column = 0;
    }
    ∷ []

-- `strings.TrimSuffix`
unfoldable pub trim_suffix : Str → Str → Str
trim_suffix text suffix =
    if has_prefix (reverse text) (reverse suffix)
    then reverse (drop (length suffix) (reverse text))
    else text

-- The lines that are not blank, trimmed.
unfoldable pub keep_lines : Packages → List Str → List Str
keep_lines p [] = []
keep_lines p (line ∷ lines) =
    if str_beq (trim_space p.unicode.trim line) []
    then keep_lines p lines
    else trim_space p.unicode.trim line ∷ keep_lines p lines

unfoldable pub output_lines : Packages → Str → List Str
output_lines p output = keep_lines p (p.scan_lines output)

unfoldable pub add_files : Packages → PackageManager → Str → List Str → Found → Found
add_files p manager pkg [] found = found
add_files p manager pkg (line ∷ lines) found =
    add_files p manager pkg lines
      (elim (get_elem? (fields p.unicode_fields line) manager.file_column) [
        | none ↦ found
        | some path ↦ add_native p (trim_suffix manager.name (codes "-query")) pkg path found
      ])

unfoldable pub add_package : Packages → PackageManager → List Str → Found → Found
add_package p manager [] found = found
add_package p manager (pkg ∷ columns) found =
    elim (p.command_output manager.name (manager.file_args pkg)) [
      | none ↦ found
      | some text ↦ add_files p manager pkg (output_lines p text) found
    ]

unfoldable pub add_packages : Packages → Str → PackageManager → List Str → Found → Found
add_packages p keyword manager [] found = found
add_packages p keyword manager (line ∷ lines) found = add_packages p keyword manager lines (
    if has_keyword p keyword line
    then add_package p manager (fields p.unicode_fields line) found
    else found)

unfoldable pub discover_native_packages : Packages → Str → PackageManager → Found → Found
discover_native_packages p keyword manager found =
    elim (p.command_output manager.name manager.list_args) [
      | none ↦ found
      | some output ↦ add_packages p keyword manager (output_lines p output) found
    ]

unfoldable pub discover_managers : Packages → Str → List PackageManager → Found → Found
discover_managers p keyword [] found = found
discover_managers p keyword (manager ∷ managers) found =
    discover_managers p keyword managers (discover_native_packages p keyword manager found)

-- A path below the root of a package keeps the unresolved root, without the revision.
unfoldable pub add_below : Packages → Str → Str → Str → Str → Found → Found
add_below p root resolved_root pkg executable found = elim (p.relative resolved_root executable) [
  | none ↦ found
  | some below ↦
      if str_beq below (codes ".") || has_prefix below (codes "../")
      then found
      else add_found
          (record { source = codes "snap"; pkg = pkg; executable = join_path root below }) found
]

unfoldable pub add_inspected : Packages → Str → Str → Str → Str → Found → Found
add_inspected p root resolved_root pkg path found =
    elim (inspect_native_executable p.files path 0) [
      | err problem ↦ found
      | ok executable ↦ add_below p root resolved_root pkg executable found
    ]

unfoldable pub add_walked : Packages → Str → Str → Str → Str → List Walked → Found → Found
add_walked p root resolved_root pkg keyword [] found = found
add_walked p root resolved_root pkg keyword (entry ∷ entries) found =
    add_walked p root resolved_root pkg keyword entries (
      if entry.is_skipped
        || not (has_keyword p keyword entry.name)
          && not (has_keyword p (to_lower p.unicode.lower pkg) entry.name)
      then found
      else add_inspected p root resolved_root pkg entry.path found)

unfoldable pub discover_snap_package : Packages → Str → Str → Str → Found → Found
discover_snap_package p root pkg keyword found = elim (p.files.eval_symlinks root) [
  | none ↦ found
  | some resolved_root ↦
      add_walked p root resolved_root pkg keyword (p.walk_dir resolved_root) found
]

-- A set of names.
unfoldable pub add_name : Str → List Str → List Str
add_name name names = if seen_in names name then names else name ∷ names

unfoldable pub snap_commands : Packages → Str → List Str → List Str → List Str
snap_commands p keyword [] packages = packages
snap_commands p keyword (name ∷ names) packages =
    snap_commands p keyword names
      (if has_keyword p keyword name then add_name (split_first b'.' name).0 packages else packages)

unfoldable pub snap_lines : Packages → Str → List Str → List Str → List Str
snap_lines p keyword [] packages = packages
snap_lines p keyword (line ∷ lines) packages = snap_lines p keyword lines (
    if has_keyword p keyword line
    then elim (fields p.unicode_fields line) [
      | [] ↦ packages
      | pkg ∷ columns ↦ add_name pkg packages
    ]
    else packages)

unfoldable pub snap_packages : Packages → Str → List Str
snap_packages p keyword =
    let commands : List Str = elim (p.read_dir (codes "/snap/bin")) [
      | none ↦ []
      | some names ↦ names
    ] in
    let packages : List Str = snap_commands p keyword commands [] in
    elim (p.command_output (codes "snap") (codes "list" ∷ [])) [
      | none ↦ packages
      | some output ↦ snap_lines p keyword (drop 1 (output_lines p output)) packages
    ]

unfoldable pub discover_snaps : Packages → Str → List Str → Found → Found
discover_snaps p keyword [] found = found
discover_snaps p keyword (pkg ∷ packages) found = discover_snaps p keyword packages (
    discover_snap_package p (clean (codes "/snap/" ++ (pkg ++ codes "/current"))) pkg keyword found)

-- The order of `sort.Slice`.
unfoldable pub comes_before : Suggestion → Suggestion → Bool
comes_before a b =
    if not (str_beq a.source b.source)
    then str_ltb a.source b.source
    else if not (str_beq a.pkg b.pkg)
    then str_ltb a.pkg b.pkg
    else str_ltb a.executable b.executable

unfoldable pub insert_suggestion : Suggestion → List Suggestion → List Suggestion
insert_suggestion a [] = a ∷ []
insert_suggestion a (b ∷ rest) =
    if comes_before b a then b ∷ insert_suggestion a rest else a ∷ b ∷ rest

unfoldable pub sort_found : Found → List Suggestion
sort_found [] = []
sort_found ((key, r) ∷ found) = insert_suggestion r (sort_found found)

unfoldable pub find_all : Packages → Str → Found
find_all p keyword = discover_snaps p keyword (snap_packages p keyword) (
    discover_managers p keyword native_package_managers (discover_path p keyword [] p.path_list []))

unfoldable pub discover_applications : Packages → Str → Option (List Suggestion)
discover_applications p text =
    let keyword : Str = to_lower p.unicode.lower (trim_space p.unicode.trim text) in
    if str_beq keyword [] then none else some (sort_found (find_all p keyword))

-- ===== src/Config/Executables/Load.antt =====
-- What `LoadSecure` answers: a valid configuration from a protected file, with identities.
use local_parental_control.Config.Validate.{Platform, validate, defaults}
use local_parental_control.Config.Executables.{
  FileSystem, validate_secure_file, identify_applications, identify_users, FileInfo,
  writable_by_others, identify_paths, load, validate_executables_at, max_config_size, decode,
  load_secure,
}
use local_parental_control.Config.{Application, Config, UserConfig}
use local_parental_control.Text.{Str, codes, str_eq}
use local_parental_control.Base.{
  ℕ, List, ◌≡◌, some, ok, [], Option-cases, All, map, false, ok-inj, inl, true, inr, ◌∷◌, arith,
  Result-cases, ap, Bool-cases, ◌++◌, ◌==◌, refl, ltb, subst, sym, ◌≢◌,
}
use local_parental_control.Config.Validate.Laws.{IsValidUser, IsValidApplication}
use local_parental_control.Dict.{get_or, lookup, Dict}
use local_parental_control.Config.Validate.Users.{
  IsValidConfig, validate-IsValidConfig, validate_facts, sorted_names-contains, validate_users-keys,
  All-map, keys_some,
}
use local_parental_control.Daemon.Status.{sorted_names}
use local_parental_control.Daemon.Terminate.{no_user}
use local_parental_control.Config.Executables.Identities.{
  HasIdentities, identify_users-HasIdentities,
}

-- A file of the superuser that nobody else reads or writes, in a directory that only he changes.
pub record IsProtected (files : FileSystem) (path : Str) : Type 0 where
  pub above : FileInfo
  pub info : FileInfo
  pub above_found : files.lstat (files.parent path) ≡ some above
  pub above_owned : above.owner ≡ 0
  pub directory : above.is_dir ≡ true
  pub above_protected : writable_by_others above.mode ≡ false
  pub found : files.lstat path ≡ some info
  pub owned : info.owner ≡ 0
  pub regular : info.is_regular ≡ true
  pub private : info.mode ≡ 384

validate_secure_file-IsProtected :
    (files : FileSystem) (path : Str)
    → validate_secure_file files path 0 384 ≡ ok tt
    → IsProtected files path
unfolding validate_secure_file
validate_secure_file-IsProtected files path h =
    elim (Option-cases (files.lstat (files.parent path))) [
      | inl e ↦ absurd (cc (rw (e, validate_secure_file) at h))
      | inr (above, e) ↦ elim (Option-cases (files.lstat path)) [
        | inl f ↦ absurd (ground arith)
        | inr (info, f) ↦ record {
          above = above;
          info = info;
          above_found = e;
          above_owned = ground arith;
          directory = ground arith;
          above_protected = ground arith;
          found = f;
          owned = ground arith;
          regular = ground arith;
          private = ground arith;
        }
      ]
    ]

pub record IsSecure (p : Platform) (files : FileSystem) (path : Str) (c : Config) : Type 0 where
  pub file : IsProtected files path
  pub valid : IsValidConfig p (sorted_names c.users) c
  pub executables : All (λ entry. HasIdentities files 0 (codes "/snap") (entry.1)) c.users

identify_paths-some :
    (files : FileSystem) (uid : ℕ) (snap_root : Str) (seen executables : List Str) {out : List Str}
    → identify_paths files uid snap_root seen executables ≡ ok out
    → executables ≢ []
    → out ≢ []
unfolding identify_paths
identify_paths-some files uid root seen [] {out} h some_paths = absurd (some_paths refl)
identify_paths-some files uid root seen (e ∷ es) {out} h some_paths = λ none_left. ground arith

identify_applications-IsValidApplication :
    (p : Platform) (files : FileSystem) (uid : ℕ) (snap_root : Str) (seen : List Str)
    (apps : List Application) {out : List Application}
    → identify_applications files uid snap_root seen apps ≡ ok out
    → All (IsValidApplication p) apps
    → All (IsValidApplication p) out × (map Application.id out ≡ map Application.id apps)
unfolding identify_applications
identify_applications-IsValidApplication p files uid root seen [] {out} h all =
    rw (← ok-inj h) (tt, refl)
identify_applications-IsValidApplication p files uid root seen (app ∷ apps) {out} h (first, all) =
    elim (Result-cases (identify_paths files uid root seen app.executables)) [
      | inl (problem, bad) ↦ absurd (cc (rw (bad, identify_applications) at h))
      | inr (paths, good) ↦
          elim (Result-cases (identify_applications files uid root (paths ++ seen) apps)) [
            | inl (problem, bad) ↦ absurd (cc (rw (good, identify_applications, bad) at h))
            | inr (rest, more) ↦
                let same : record app { executables = paths } ∷ rest ≡ out =
                  ok-inj (rw (good, identify_applications, more) at h) in
                let (valid, ids) =
                  identify_applications-IsValidApplication p files uid root (paths ++ seen) apps
                    {out = rest} more all in
                let kept : IsValidApplication p (record app { executables = paths }) = record {
                  id = first.id;
                  name = first.name;
                  limit = first.limit;
                  executables =
                      identify_paths-some files uid root seen app.executables {out = paths} good
                        first.executables;
                } in
                rw (← same) ((kept, valid), ap (λ names. app.id ∷ names) ids)
          ]
    ]

identified-IsValidUser :
    (p : Platform) (files : FileSystem) (uid : ℕ) (snap_root : Str) (uc : UserConfig)
    {apps : List Application}
    → identify_applications files uid snap_root [] uc.applications ≡ ok apps
    → IsValidUser p uc
    → IsValidUser p (record uc { applications = apps })
identified-IsValidUser p files uid root uc {apps} h valid =
    let (limits, ids) =
      identify_applications-IsValidApplication p files uid root [] uc.applications {out = apps} h
        valid.rules in
    record {
      device = valid.device;
      continuous = valid.continuous;
      break = valid.break;
      hours = valid.hours;
      domains = valid.domains;
      distinct_domains = valid.distinct_domains;
      rules = limits;
      distinct_ids = rw ids valid.distinct_ids;
    }

pub identify_users-kept :
    (p : Platform) (files : FileSystem) (uid : ℕ) (snap_root : Str) (users : Dict Str UserConfig)
    {out : Dict Str UserConfig}
    → identify_users files uid snap_root users ≡ ok out
    → (map (λ e. e.0) out ≡ map (λ e. e.0) users)
      × ((name : Str)
          → IsValidUser p (get_or name no_user users)
          → IsValidUser p (get_or name no_user out))
unfolding identify_users get_or lookup
identify_users-kept p files uid root [] {out} h = rw (← ok-inj h) (refl, λ name valid. valid)
identify_users-kept p files uid root ((key, uc) ∷ users) {out} h =
    elim (Result-cases (identify_applications files uid root [] uc.applications)) [
      | inl (problem, bad) ↦ absurd (cc (rw (bad, identify_users) at h))
      | inr (apps, good) ↦ elim (Result-cases (identify_users files uid root users)) [
        | inl (problem, bad) ↦ absurd (cc (rw (good, identify_users, bad) at h))
        | inr (rest, more) ↦
            let (keys, kept) = identify_users-kept p files uid root users {out = rest} more in
            let same : (key, record uc { applications = apps }) ∷ rest ≡ out =
              ok-inj (rw (good, identify_users, more) at h) in
            rw (← same) (
              ap (λ names. key ∷ names) keys,
              λ name valid. elim (Bool-cases (key == name)) [
                | inl here ↦
                    rw (get_or, lookup, here)
                      (identified-IsValidUser p files uid root uc good
                        (rw (get_or, lookup, here) at valid))
                | inr there ↦
                    rw (get_or, lookup, there) (kept name (rw (get_or, lookup, there) at valid))
              ],
            )
      ]
    ]

pub load-facts :
    (p : Platform) (files : FileSystem) (path : Str) {c : Config}
    → load p files true path ≡ ok c
    → (written checked : Config) × (validate p (defaults written) ≡ ok checked)
      × (validate_executables_at files checked 0 (codes "/snap") ≡ ok c)
unfolding load
load-facts p files path {c} h = elim (Option-cases (files.size path)) [
  | inl e ↦ absurd (cc (rw (load, e) at h))
  | inr (size, e) ↦ elim (Bool-cases (ltb max_config_size size)) [
    | inl large ↦ absurd (cc (rw (load, e, large) at h))
    | inr fits ↦ elim (Result-cases (decode files path)) [
      | inl (q, bad) ↦ absurd (cc (rw (load, e, fits, bad) at h))
      | inr (written, good) ↦ elim (Result-cases (validate p (defaults written))) [
        | inl (q, bad) ↦ absurd (cc (rw (load, e, fits, good, bad) at h))
        | inr (checked, fine) ↦ (written, checked, fine, rw (load, e, fits, good, fine) at h)
      ]
    ]
  ]
]

pub executables_facts :
    (files : FileSystem) (checked : Config) {c : Config}
    → validate_executables_at files checked 0 (codes "/snap") ≡ ok c
    → (identify_users files 0 (codes "/snap") checked.users ≡ ok c.users)
      × (c ≡ record checked { users = c.users })
unfolding validate_executables_at
executables_facts files checked {c} h = ground arith

identified-IsValidConfig :
    (p : Platform) (files : FileSystem) (written checked : Config) {users : Dict Str UserConfig}
    → validate p (defaults written) ≡ ok checked
    → identify_users files 0 (codes "/snap") checked.users ≡ ok users
    → IsValidConfig p (sorted_names users) (record checked { users = users })
unfolding sorted_names
identified-IsValidConfig p files written checked {users} fine good =
    let valid = validate-IsValidConfig p (defaults written) fine in
    let (zone, filled, poll, grace, ids, validated, same) =
      validate_facts p (defaults written) fine in
    let there = sorted_names-contains (defaults written).users in
    let keys =
      validate_users-keys p (sorted_names (defaults written).users) (defaults written).users
        {out = checked.users} there validated in
    let (names, kept) =
      identify_users-kept p files 0 (codes "/snap") checked.users {out = users} good in
    rw (names, keys)
      (record {
        some_users = keys_some checked.users users names valid.some_users;
        names_given = valid.names_given;
        zone = valid.zone;
        poll = valid.poll;
        grace = valid.grace;
        users = All-map (sorted_names (defaults written).users) valid.users kept;
      })

-- A configuration that LoadSecure returns comes from a regular file of the superuser with the mode
-- 0600, in a directory, itself no link, that belongs to the superuser and that nobody else can write.
-- It has users, whose names are not blank, a known zone, and a poll interval and a grace period of 1 to
-- 60 seconds. Each user has limits and breaks of 1 to 1440 minutes, all day without clock times or
-- hours that begin before they end, blocked domains that are distinct and in normal form, and
-- applications with distinct identifiers that are not empty and hold no slash, backslash or white
-- space, with names that are not blank, limits of 1 to 1440 minutes, and at least one executable. Each
-- executable is an identity, which is taken once for a user: the path of an executable ELF file of the
-- superuser that nobody else can write and that is not the launcher of Snap, or a path of the current
-- revision of a Snap package that leads to such a file.
pub load_secure-IsSecure :
    (p : Platform) (files : FileSystem) (path : Str) {c : Config}
    → load_secure p files path ≡ ok c
    → IsSecure p files path c
unfolding load_secure
load_secure-IsSecure p files path {c} h =
    elim (Result-cases (validate_secure_file files path 0 384)) [
      | inl (q, bad) ↦ absurd (cc (rw (load_secure, bad) at h))
      | inr (tt, good) ↦
          let (written, checked, fine, rest) =
            load-facts p files path {c = c} (rw (load_secure, good) at h) in
          let (identified, same) = executables_facts files checked {c = c} rest in
          record {
            file = validate_secure_file-IsProtected files path good;
            valid =
                subst (λ config. IsValidConfig p (sorted_names c.users) config) (sym same)
                  (identified-IsValidConfig p files written checked {users = c.users} fine
                    identified);
            executables =
                identify_users-HasIdentities files 0 (codes "/snap") checked.users {out = c.users}
                  identified;
          }
    ]

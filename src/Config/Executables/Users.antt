-- ===== src/Config/Executables/Users.antt =====
-- The users of a loaded configuration in the daemon.
use local_parental_control.Config.Validate.{Platform, defaults}
use local_parental_control.Config.Executables.{FileSystem, load_secure, validate_secure_file}
use local_parental_control.Daemon.Users.{resolve_users, resolve_from}
use local_parental_control.Daemon.Status.{sorted_names, sort_by}
use local_parental_control.Text.{Str, codes}
use local_parental_control.Config.{Config}
use local_parental_control.Base.{◌≡◌, ok, ℕ, Result-cases, inl, inr, ap, [], ◌∙◌}
use local_parental_control.Dict.{Dict}
use local_parental_control.Config.Executables.Load.{
  load-facts, executables_facts, identify_users-kept,
}
use local_parental_control.Config.Validate.Users.{validate-resolve_users}

-- A configuration that LoadSecure returns resolves: with the user database of the validation the
-- daemon finds a UID of its own for each configured user, so that neither its start nor a reload
-- fails there.
pub load_secure-resolve_users :
    (p : Platform) (files : FileSystem) (path : Str) {c : Config}
    → load_secure p files path ≡ ok c
    → (result : Dict ℕ Str) × (resolve_users p.lookup_user c ≡ ok result)
unfolding load_secure resolve_users sorted_names
load_secure-resolve_users p files path {c} h =
    elim (Result-cases (validate_secure_file files path 0 384)) [
      | inl (q, bad) ↦ absurd (cc (rw (load_secure, bad) at h))
      | inr (tt, good) ↦
          let (written, checked, fine, rest) =
            load-facts p files path {c = c} (rw (load_secure, good) at h) in
          let (identified, same) = executables_facts files checked {c = c} rest in
          let (keys, kept) =
            identify_users-kept p files 0 (codes "/snap") checked.users {out = c.users}
              identified in
          let (result, ends) = validate-resolve_users p (defaults written) {out = checked} fine in
          (
            result,
            ap (λ names. resolve_from p.lookup_user [] (sort_by (λ name. name) names)) keys ∙ ends,
          )
    ]

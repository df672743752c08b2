-- ===== src/Daemon/Users.antt =====
-- `resolveUsers` of internal/daemon/daemon.go: from the configured names to numeric UIDs.
pub mod Laws
use local_parental_control.Text.{Str}
use local_parental_control.Dict.{Dict, lookup, insert}
use local_parental_control.Config.{Config}
use local_parental_control.Base.{ℕ, Option, Result, List, [], ok, ◌∷◌, none, err, some, ℕ_eq}
use local_parental_control.Daemon.Status.{sorted_names}
use local_parental_control.Config.Paths.{parse_uint}

-- `user.Lookup`: the text of the UID, where the user exists.
abbrev pub LookupUser : Type 0
LookupUser = Str → Option Str

pub data ResolveError : Type 0 where
  no_such_user : Str → ResolveError
  invalid_uid : Str → ResolveError
  same_uid : Str → Str → ResolveError

unfoldable pub resolve_from : LookupUser → Dict ℕ Str → List Str → Result ResolveError (Dict ℕ Str)
resolve_from lookup_user resolved [] = ok resolved
resolve_from lookup_user resolved (name ∷ names) = elim (lookup_user name) [
  | none ↦ err (no_such_user name)
  | some text ↦ elim (parse_uint 32 text) [
    | none ↦ err (invalid_uid name)
    | some uid ↦ elim (lookup uid resolved) [
      | some other ↦ err (same_uid other name)
      | none ↦ resolve_from lookup_user (insert uid name resolved) names
    ]
  ]
]

unfoldable pub resolve_users : LookupUser → Config → Result ResolveError (Dict ℕ Str)
resolve_users lookup_user cfg = resolve_from lookup_user [] (sorted_names cfg.users)

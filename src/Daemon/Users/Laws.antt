-- ===== src/Daemon/Users/Laws.antt =====
-- The resolved UIDs are those of the configured users, each with a UID of its own.
use local_parental_control.Daemon.Users.{LookupUser, resolve_from, resolve_users}
use local_parental_control.Text.{Str}
use local_parental_control.Dict.{Dict, lookup, insert, lookup-insert, lookup-insert_self}
use local_parental_control.Base.{
  ℕ, List, ◌≡◌, some, Bool-cases, ok, nat_eq, All, ℕ_eq, inl, ◌∷◌, [], some-inj, nat_eq_iff, inr,
  none, ok-inj, subst, Option-cases,
}
use local_parental_control.Config.Paths.{parse_uint}
use local_parental_control.Config.{Config}
use local_parental_control.Daemon.Status.{sorted_names}

-- The UID that the user database gives a name.
abbrev pub UidGiven : LookupUser → Str → ℕ → Type 0
UidGiven lookup_user name uid =
    (text : Str) × (lookup_user name ≡ some text) × (parse_uint 32 text ≡ some uid)

-- Every entry is given by the user database.
abbrev pub IsGiven : LookupUser → Dict ℕ Str → Type 0
IsGiven lookup_user resolved =
    (uid : ℕ) (name : Str) → lookup uid resolved ≡ some name → UidGiven lookup_user name uid

insert-IsGiven :
    (lookup_user : LookupUser) (uid : ℕ) (name : Str) (resolved : Dict ℕ Str)
    → UidGiven lookup_user name uid
    → IsGiven lookup_user resolved
    → IsGiven lookup_user (insert uid name resolved)
insert-IsGiven lookup_user uid name resolved given all u n e = elim (Bool-cases (nat_eq uid u)) [
  | inl same ↦
      let found : some name ≡ some n = rw (lookup-insert uid u name resolved, same) at e in
      rw (← some-inj found, ← (nat_eq_iff uid u).0 same) given
  | inr other ↦ all u n (rw (lookup-insert uid u name resolved, other) at e)
]

insert_keeps :
    (uid : ℕ) (name : Str) (resolved : Dict ℕ Str)
    → lookup uid resolved ≡ none
    → (u : ℕ) (n : Str) → lookup u resolved ≡ some n
    → lookup u (insert uid name resolved) ≡ some n
insert_keeps uid name resolved free u n h = elim (Bool-cases (nat_eq uid u)) [
  | inl same ↦ absurd (cc (rw (← (nat_eq_iff uid u).0 same) at h, free))
  | inr other ↦ rw (lookup-insert uid u name resolved, other) h
]

pub resolve_from-IsGiven :
    (lookup_user : LookupUser) (names : List Str) (resolved : Dict ℕ Str) {result : Dict ℕ Str}
    → IsGiven lookup_user resolved
    → resolve_from lookup_user resolved names ≡ ok result
    → IsGiven lookup_user result
      × ((uid : ℕ) (name : Str) → lookup uid resolved ≡ some name → lookup uid result ≡ some name)
      × All (λ name. (uid : ℕ) × (lookup uid result ≡ some name)) names
unfolding resolve_from
resolve_from-IsGiven lookup_user [] resolved {result} all e =
    let same : resolved ≡ result = ok-inj e in
    (subst (IsGiven lookup_user) same all, λ uid name h. rw (← same) h, tt)
resolve_from-IsGiven lookup_user (name ∷ names) resolved {result} all e =
    elim (Option-cases (lookup_user name)) [
      | inl missing ↦ absurd (cc (rw (missing, resolve_from) at e))
      | inr (text, found) ↦ elim (Option-cases (parse_uint 32 text)) [
        | inl bad ↦ absurd (cc (rw (found, resolve_from, bad) at e))
        | inr (uid, good) ↦ elim (Option-cases (lookup uid resolved)) [
          | inr (other, taken) ↦ absurd (cc (rw (found, resolve_from, good, taken) at e))
          | inl free ↦
              let (given, kept, each) =
                resolve_from-IsGiven lookup_user names (insert uid name resolved) {result = result}
                  (insert-IsGiven lookup_user uid name resolved (text, found, good) all)
                  (rw (found, resolve_from, good, free) at e) in
              (
                given,
                λ u n h. kept u n (insert_keeps uid name resolved free u n h),
                ((uid, kept uid name (lookup-insert_self uid name resolved)), each),
              )
        ]
      ]
    ]

nothing-IsGiven : (lookup_user : LookupUser) → IsGiven lookup_user []
unfolding lookup
nothing-IsGiven lookup_user uid name e = cc

-- Where the users of a configuration resolve, every configured name has a UID, which is the one
-- that the user database gives it, and every UID that is monitored is given to its name.
pub resolve_users-IsGiven :
    (lookup_user : LookupUser) (cfg : Config) {result : Dict ℕ Str}
    → resolve_users lookup_user cfg ≡ ok result
    → IsGiven lookup_user result
      × All (λ name. (uid : ℕ) × (lookup uid result ≡ some name)) (sorted_names cfg.users)
unfolding resolve_users
resolve_users-IsGiven lookup_user cfg {result} e =
    let (given, kept, each) =
      resolve_from-IsGiven lookup_user (sorted_names cfg.users) [] {result = result}
        (nothing-IsGiven lookup_user) e in
    (given, each)

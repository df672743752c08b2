-- ===== src/Config/Validate/Users.antt =====
-- What an accepted configuration satisfies as a whole: every user is valid, and resolves.
use local_parental_control.Config.Validate.{
  Platform, validate_users, validate, validate_unique_user_ids, seen_in, in_range, is_blank,
  validate_user, is_empty,
}
use local_parental_control.Dict.{
  insert, contains, Dict, lookup, get_or, get_or-insert, get_or-insert_self,
}
use local_parental_control.Base.{
  List, All, ◌≡◌, true, ok, ℕ, map, ◌∷◌, Bool-cases, arith, ap, [], ◌∙◌, ◌||◌, sym, ◌==◌, refl,
  ok-inj, inl, Result-cases, inr, Option-cases, ℕ_eq, subst, ◌≢◌, false,
}
use local_parental_control.Config.{Config, UserConfig}
use local_parental_control.Text.{Str, str_beq, str_beq_iff, str_eq}
use local_parental_control.Daemon.Status.{sorted_names, insert_by, sort_by}
use local_parental_control.Daemon.Users.{resolve_users, resolve_from}
use local_parental_control.Config.Validate.Laws.{
  InRange, IsValidUser, validate_user-IsValidUser, in_range-InRange, IsBlank, not-IsBlank,
}
use local_parental_control.Daemon.Terminate.{no_user}
use local_parental_control.Config.Paths.{parse_uint}

pub record IsValidConfig (p : Platform) (names : List Str) (c : Config) : Type 0 where
  pub some_users : c.users ≢ []
  pub names_given : All (λ name. ¬ (IsBlank p name)) names
  pub zone : p.zone_known c.timezone ≡ true
  pub poll : InRange 1 60 c.poll_interval_seconds
  pub grace : InRange 1 60 c.termination_grace_seconds
  pub users : All (λ name. IsValidUser p (get_or name no_user c.users)) names

module _ (p : Platform) where
  valid_stays :
      (usernames : List Str) (name : Str) (users : Dict Str UserConfig) {out : Dict Str UserConfig}
      → validate_users p usernames users ≡ ok out
      → IsValidUser p (get_or name no_user users)
      → IsValidUser p (get_or name no_user out)
  unfolding validate_users
  valid_stays [] name users {out} h valid = rw (← ok-inj h) valid
  valid_stays (username ∷ usernames) name users {out} h valid =
      elim (Result-cases (validate_user p username (get_or username no_user users))) [
        | inl (e, bad) ↦ absurd (cc (rw (validate_users, bad) at h))
        | inr (uc, good) ↦
            valid_stays usernames name (insert username uc users) {out = out}
              (rw (validate_users, good) at h)
              (rw (get_or-insert username name uc no_user users)
                (elim (Bool-cases (username == name)) [
                  | inl same ↦
                      rw same
                        (validate_user-IsValidUser p username (get_or username no_user users) good)
                  | inr other ↦ rw other valid
                ]))
      ]

  validate_users-IsValidUser :
      (usernames : List Str) (users : Dict Str UserConfig) {out : Dict Str UserConfig}
      → validate_users p usernames users ≡ ok out
      → All (λ name. IsValidUser p (get_or name no_user out)) usernames
  unfolding validate_users
  validate_users-IsValidUser [] users {out} h = tt
  validate_users-IsValidUser (username ∷ usernames) users {out} h =
      elim (Result-cases (validate_user p username (get_or username no_user users))) [
        | inl (e, bad) ↦ absurd (cc (rw (validate_users, bad) at h))
        | inr (uc, good) ↦
            let later : validate_users p usernames (insert username uc users) ≡ ok out =
              rw (validate_users, good) at h in
            (
              valid_stays usernames username (insert username uc users) {out = out} later (
                  rw (get_or-insert_self username uc no_user users)
                    (validate_user-IsValidUser p username (get_or username no_user users) good)),
              validate_users-IsValidUser usernames (insert username uc users) {out = out} later,
            )
      ]

  pub validate_facts :
      (c : Config) {out : Config}
      → validate p c ≡ ok out
      → (p.zone_known c.timezone ≡ true)
        × (is_empty c.users ≡ false)
        × (in_range 1 60 c.poll_interval_seconds ≡ true)
        × (in_range 1 60 c.termination_grace_seconds ≡ true)
        × (validate_unique_user_ids p [] (sorted_names c.users) ≡ ok tt)
        × (validate_users p (sorted_names c.users) c.users ≡ ok out.users)
        × (out ≡ record c { users = out.users })
  unfolding validate
  validate_facts c {out} h = ground arith

  unique_ids-resolve_from :
      (names : List Str) (resolved : Dict ℕ Str)
      → validate_unique_user_ids p resolved names ≡ ok tt
      → (result : Dict ℕ Str) × (resolve_from p.lookup_user resolved names ≡ ok result)
  unfolding validate_unique_user_ids resolve_from
  unique_ids-resolve_from [] resolved h = (resolved, refl)
  unique_ids-resolve_from (name ∷ names) resolved h = elim (Bool-cases (is_blank p name)) [
    | inl blank ↦ absurd (cc (rw (validate_unique_user_ids, blank) at h))
    | inr named ↦ elim (Option-cases (p.lookup_user name)) [
      | inl missing ↦ absurd (cc (rw (validate_unique_user_ids, named, missing) at h))
      | inr (text, known) ↦ elim (Option-cases (parse_uint 32 text)) [
        | inl bad ↦ absurd (cc (rw (validate_unique_user_ids, named, known, bad) at h))
        | inr (uid, good) ↦ elim (Option-cases (lookup uid resolved)) [
          | inr (other, taken) ↦
              absurd (cc (rw (validate_unique_user_ids, named, known, good, taken) at h))
          | inl free ↦
              let (result, ends) =
                unique_ids-resolve_from names (insert uid name resolved)
                  (rw (validate_unique_user_ids, named, known, good, free) at h) in
              (result, rw (resolve_from, known, good, free) ends)
        ]
      ]
    ]
  ]

-- The keys of a map are kept by a write to a key that is there.
insert_keys :
    {V : Type 0} (k : Str) (v : V) (d : Dict Str V)
    → contains k d ≡ true
    → map (λ e. e.0) (insert k v d) ≡ map (λ e. e.0) d
unfolding insert contains lookup
insert_keys k v [] h = cc
insert_keys k v ((j, w) ∷ d) h = elim (Bool-cases (j == k)) [
  | inl same ↦ rw (insert, same) (ap (λ x. x ∷ map (λ e. e.0) d) (sym ((str_beq_iff j k).0 same)))
  | inr other ↦
      rw (insert, other)
        (ap (λ rest. j ∷ rest) (insert_keys k v d (rw (contains, lookup, other) at h)))
]

contains-seen :
    {V : Type 0} (d : Dict Str V) (k : Str) → contains k d ≡ seen_in (map (λ e. e.0) d) k
unfolding contains lookup seen_in
contains-seen [] k = refl
contains-seen ((j, v) ∷ d) k = ground (arith, contains-seen d k)

seen-insert_by :
    (a x : Str) (items : List Str)
    → seen_in (insert_by (λ name. name) a items) x ≡ (str_beq a x || seen_in items x)
unfolding insert_by seen_in
seen-insert_by a x [] = refl
seen-insert_by a x (b ∷ items) = ground (arith, seen-insert_by a x items)

seen-sort_by :
    (x : Str) (items : List Str) → seen_in (sort_by (λ name. name) items) x ≡ seen_in items x
unfolding sort_by seen_in
seen-sort_by x [] = refl
seen-sort_by x (a ∷ items) =
    seen-insert_by a x (sort_by (λ name. name) items)
    ∙ ap (λ b. str_beq a x || b) (seen-sort_by x items)

pub All-map :
    {P Q : Str → Type 0} (names : List Str)
    → All P names
    → ((name : Str) → P name → Q name)
    → All Q names
All-map [] h f = tt
All-map (name ∷ names) (first, all) f = (f name first, All-map names all f)

all_seen :
    (names others : List Str)
    → ((x : Str) → seen_in names x ≡ true → seen_in others x ≡ true)
    → All (λ x. seen_in others x ≡ true) names
unfolding seen_in
all_seen [] others f = tt
all_seen (x ∷ names) others f =
    (f x (ground (arith, str_beq_iff x x)), all_seen names others (λ y h. f y (ground (arith))))

pub sorted_names-contains :
    {V : Type 0} (users : Dict Str V)
    → All (λ name. contains name users ≡ true) (sorted_names users)
unfolding sorted_names
sorted_names-contains users = all_map_contains (
    all_seen (sort_by (λ name. name) (map (λ e. e.0) users)) (map (λ e. e.0) users)
      (λ x h. sym (seen-sort_by x (map (λ e. e.0) users)) ∙ h))
  where
    all_map_contains :
        All
          (λ x. seen_in (map (λ e. e.0) users) x ≡ true)
          (sort_by (λ name. name) (map (λ e. e.0) users))
        → All (λ name. contains name users ≡ true) (sort_by (λ name. name) (map (λ e. e.0) users))
    all_map_contains h =
        All-map (sort_by (λ name. name) (map (λ e. e.0) users)) h
          (λ name there. contains-seen users name ∙ there)

pub validate_users-keys :
    (p : Platform) (usernames : List Str) (users : Dict Str UserConfig) {out : Dict Str UserConfig}
    → All (λ name. contains name users ≡ true) usernames
    → validate_users p usernames users ≡ ok out
    → map (λ e. e.0) out ≡ map (λ e. e.0) users
unfolding validate_users
validate_users-keys p [] users {out} h e = ap (map (λ e. e.0)) (sym (ok-inj e))
validate_users-keys p (username ∷ usernames) users {out} (here, all) e =
    elim (Result-cases (validate_user p username (get_or username no_user users))) [
      | inl (problem, bad) ↦ absurd (cc (rw (validate_users, bad) at e))
      | inr (uc, good) ↦
          let same = insert_keys username uc users here in
          validate_users-keys p usernames (insert username uc users) {out = out}
            (All-map usernames all (λ name there.
              contains-seen (insert username uc users) name
              ∙ (ap (λ keys. seen_in keys name) same ∙ (sym (contains-seen users name) ∙ there))))
            (rw (validate_users, good) at e)
          ∙ same
    ]

unique_ids-named :
    (p : Platform) (names : List Str) (resolved : Dict ℕ Str)
    → validate_unique_user_ids p resolved names ≡ ok tt
    → All (λ name. ¬ (IsBlank p name)) names
unfolding validate_unique_user_ids
unique_ids-named p [] resolved h = tt
unique_ids-named p (name ∷ names) resolved h = elim (Bool-cases (is_blank p name)) [
  | inl blank ↦ absurd (cc (rw (validate_unique_user_ids, blank) at h))
  | inr named ↦ elim (Option-cases (p.lookup_user name)) [
    | inl missing ↦ absurd (cc (rw (validate_unique_user_ids, named, missing) at h))
    | inr (text, known) ↦ elim (Option-cases (parse_uint 32 text)) [
      | inl bad ↦ absurd (cc (rw (validate_unique_user_ids, named, known, bad) at h))
      | inr (uid, good) ↦ elim (Option-cases (lookup uid resolved)) [
        | inr (other, taken) ↦
            absurd (cc (rw (validate_unique_user_ids, named, known, good, taken) at h))
        | inl free ↦ (
          not-IsBlank p name named,
          unique_ids-named p names (insert uid name resolved)
              (rw (validate_unique_user_ids, named, known, good, free) at h),
        )
      ]
    ]
  ]
]

-- A map with the keys of one that is not empty is not empty.
pub keys_some : (d e : Dict Str UserConfig) → map (λ x. x.0) e ≡ map (λ x. x.0) d → d ≢ [] → e ≢ []
keys_some [] e same h = absurd (h refl)
keys_some (x ∷ d) [] same h = absurd cc
keys_some (x ∷ d) (y ∷ e) same h = λ f. cc

is_empty_nonempty : (d : Dict Str UserConfig) → is_empty d ≡ false → d ≢ []
is_empty_nonempty [] h = cc
is_empty_nonempty (x ∷ d) h = λ e. cc

-- A configuration that the validation accepts has users with names, a known zone, a poll interval and
-- a grace period of 1 to 60 seconds, and for each configured name a user who satisfies IsValidUser.
pub validate-IsValidConfig :
    (p : Platform) (c : Config) {out : Config}
    → validate p c ≡ ok out
    → IsValidConfig p (sorted_names c.users) out
validate-IsValidConfig p c {out} h =
    let (zone, filled, poll, grace, ids, users, same) = validate_facts p c h in
    let keys =
      validate_users-keys p (sorted_names c.users) c.users {out = out.users}
        (sorted_names-contains c.users) users in
    let valid : IsValidConfig p (sorted_names c.users) (record c { users = out.users }) = record {
      some_users = keys_some c.users out.users keys (is_empty_nonempty c.users filled);
      names_given = unique_ids-named p (sorted_names c.users) [] ids;
      zone = zone;
      poll = in_range-InRange 1 60 c.poll_interval_seconds poll;
      grace = in_range-InRange 1 60 c.termination_grace_seconds grace;
      users = validate_users-IsValidUser p (sorted_names c.users) c.users users;
    } in
    subst (IsValidConfig p (sorted_names c.users)) (sym same) valid

-- A configuration that the validation accepts resolves: with the same user database the daemon finds
-- a UID of its own for each user of the accepted configuration, so that no reload of it fails there.
pub validate-resolve_users :
    (p : Platform) (c : Config) {out : Config}
    → validate p c ≡ ok out
    → (result : Dict ℕ Str) × (resolve_users p.lookup_user out ≡ ok result)
unfolding resolve_users sorted_names
validate-resolve_users p c {out} h =
    let (zone, filled, poll, grace, ids, users, same) = validate_facts p c h in
    let keys =
      validate_users-keys p (sorted_names c.users) c.users {out = out.users}
        (sorted_names-contains c.users) users in
    let (result, ends) = unique_ids-resolve_from p (sorted_names c.users) [] ids in
    (result, ap (λ names. resolve_from p.lookup_user [] (sort_by (λ name. name) names)) keys ∙ ends)

-- ===== src/Config/Executables/Identities.antt =====
-- The identities of a configuration that was loaded.
use local_parental_control.Text.{str_eq, Str}
use local_parental_control.Config.Validate.Laws.{Distinct, unseen_apart}
use local_parental_control.Config.Executables.{
  FileSystem, identify, identify_paths, identify_applications, identify_users,
}
use local_parental_control.Base.{
  ℕ, ◌≡◌, ok, inl, inr, false, arith, ◌∷◌, List, Result-cases, All, ok-inj, ◌++◌, Bool-cases, [],
  ◌||◌, refl,
}
use local_parental_control.Config.Validate.{seen_in}
use local_parental_control.Config.{UserConfig, Application}
use local_parental_control.Dict.{Dict}
use local_parental_control.Config.Executables.Laws.{IsIdentity, identify-IsIdentity}

-- The names are identities, different ones, and none of them was taken before.
record Accepted (files : FileSystem) (uid : ℕ) (snap_root : Str) (seen names : List Str)
    : Type 0 where
  pub identities : All (IsIdentity files uid snap_root) names
  pub fresh : All (λ y. seen_in seen y ≡ false) names
  pub distinct : Distinct names

identify_paths-Accepted :
    (files : FileSystem) (uid : ℕ) (snap_root : Str) (seen executables : List Str) {out : List Str}
    → identify_paths files uid snap_root seen executables ≡ ok out
    → Accepted files uid snap_root seen out
unfolding identify_paths
identify_paths-Accepted files uid root seen [] {out} h =
    rw (← ok-inj h) (record { identities = tt; fresh = tt; distinct = tt })
identify_paths-Accepted files uid root seen (e ∷ es) {out} h =
    elim (Result-cases (identify files uid root e)) [
      | inl (p, bad) ↦ absurd (cc (rw (bad, identify_paths) at h))
      | inr (stored, good) ↦ elim (Bool-cases (seen_in seen stored)) [
        | inl old ↦ absurd (cc (rw (good, identify_paths, old) at h))
        | inr new ↦ elim (Result-cases (identify_paths files uid root (stored ∷ seen) es)) [
          | inl (p, bad) ↦ absurd (cc (rw (good, identify_paths, new, bad) at h))
          | inr (rest, more) ↦
              let others =
                identify_paths-Accepted files uid root (stored ∷ seen) es {out = rest} more in
              let (apart, unseen) = unseen_apart rest stored seen others.fresh in
              let same : stored ∷ rest ≡ out = ok-inj (rw (good, identify_paths, new, more) at h) in
              rw (← same) (record {
                identities = (identify-IsIdentity files uid root e good, others.identities);
                fresh = (new, unseen);
                distinct = (apart, others.distinct);
              })
        ]
      ]
    ]

seen_in-append :
    (xs seen : List Str) (y : Str) → seen_in (xs ++ seen) y ≡ (seen_in xs y || seen_in seen y)
unfolding seen_in
seen_in-append [] seen y = refl
seen_in-append (x ∷ xs) seen y = ground (arith, seen_in-append xs seen y)

unseen_before :
    (xs seen names : List Str)
    → All (λ y. seen_in (xs ++ seen) y ≡ false) names
    → All (λ y. seen_in seen y ≡ false) names
unseen_before xs seen [] h = tt
unseen_before xs seen (y ∷ names) (first, all) =
    (ground (arith, seen_in-append xs seen y), unseen_before xs seen names all)

-- What differs from every name of a list is not among them.
apart_from :
    (x : Str) (xs seen names : List Str)
    → All (λ y. seen_in (x ∷ xs ++ seen) y ≡ false) names
    → seen_in names x ≡ false
unfolding seen_in
apart_from x xs seen names h = (unseen_apart names x (xs ++ seen) h).0

unseen_tail :
    (x : Str) (xs seen names : List Str)
    → All (λ y. seen_in (x ∷ xs ++ seen) y ≡ false) names
    → All (λ y. seen_in (xs ++ seen) y ≡ false) names
unfolding seen_in
unseen_tail x xs seen names h = (unseen_apart names x (xs ++ seen) h).1

append-Distinct :
    (xs seen names : List Str)
    → Distinct xs
    → Distinct names
    → All (λ y. seen_in (xs ++ seen) y ≡ false) names
    → Distinct (xs ++ names)
unfolding seen_in
append-Distinct [] seen names a b h = b
append-Distinct (x ∷ xs) seen names (apart, a) b h = (
  rw (seen_in-append xs names x, apart) (apart_from x xs seen names h),
  append-Distinct xs seen names a b (unseen_tail x xs seen names h),
)

pub All-append : (P : Str → Type 0) (xs ys : List Str) → All P xs → All P ys → All P (xs ++ ys)
All-append P [] ys a b = b
All-append P (x ∷ xs) ys (p, a) b = (p, All-append P xs ys a b)

Accepted-append :
    (files : FileSystem) (uid : ℕ) (snap_root : Str) (seen paths names : List Str)
    → Accepted files uid snap_root seen paths
    → Accepted files uid snap_root (paths ++ seen) names
    → Accepted files uid snap_root seen (paths ++ names)
Accepted-append files uid root seen paths names a b = record {
  identities = All-append (IsIdentity files uid root) paths names a.identities b.identities;
  fresh =
      All-append (λ y. seen_in seen y ≡ false) paths names a.fresh
        (unseen_before paths seen names b.fresh);
  distinct = append-Distinct paths seen names a.distinct b.distinct b.fresh;
}

-- The executables of all rules of a user.
unfoldable pub executables_of : List Application → List Str
executables_of [] = []
executables_of (app ∷ apps) = app.executables ++ executables_of apps

identify_applications-Accepted :
    (files : FileSystem) (uid : ℕ) (snap_root : Str) (seen : List Str) (apps : List Application)
    {out : List Application}
    → identify_applications files uid snap_root seen apps ≡ ok out
    → Accepted files uid snap_root seen (executables_of out)
unfolding identify_applications executables_of
identify_applications-Accepted files uid root seen [] {out} h =
    rw (← ok-inj h) (record { identities = tt; fresh = tt; distinct = tt })
identify_applications-Accepted files uid root seen (app ∷ apps) {out} h =
    elim (Result-cases (identify_paths files uid root seen app.executables)) [
      | inl (p, bad) ↦ absurd (cc (rw (bad, identify_applications) at h))
      | inr (paths, good) ↦
          elim (Result-cases (identify_applications files uid root (paths ++ seen) apps)) [
            | inl (p, bad) ↦ absurd (cc (rw (good, identify_applications, bad) at h))
            | inr (rest, more) ↦
                let same : record app { executables = paths } ∷ rest ≡ out =
                  ok-inj (rw (good, identify_applications, more) at h) in
                rw (← same) (
                  Accepted-append files uid root seen paths (executables_of rest)
                    (identify_paths-Accepted files uid root seen app.executables good)
                    (identify_applications-Accepted files uid root (paths ++ seen) apps {out = rest}
                      more))
          ]
    ]

-- A user's executables are identities, and no two of them are the same.
abbrev pub HasIdentities : FileSystem → ℕ → Str → UserConfig → Type 0
HasIdentities files uid snap_root uc =
    All (IsIdentity files uid snap_root) (executables_of uc.applications)
    × Distinct (executables_of uc.applications)

pub identify_users-HasIdentities :
    (files : FileSystem) (uid : ℕ) (snap_root : Str) (users : Dict Str UserConfig)
    {out : Dict Str UserConfig}
    → identify_users files uid snap_root users ≡ ok out
    → All (λ entry. HasIdentities files uid snap_root (entry.1)) out
unfolding identify_users
identify_users-HasIdentities files uid root [] {out} h = rw (← ok-inj h) tt
identify_users-HasIdentities files uid root ((name, uc) ∷ users) {out} h =
    elim (Result-cases (identify_applications files uid root [] uc.applications)) [
      | inl (p, bad) ↦ absurd (cc (rw (bad, identify_users) at h))
      | inr (apps, good) ↦ elim (Result-cases (identify_users files uid root users)) [
        | inl (p, bad) ↦ absurd (cc (rw (good, identify_users, bad) at h))
        | inr (rest, more) ↦
            let accepted =
              identify_applications-Accepted files uid root [] uc.applications {out = apps} good in
            let same : (name, record uc { applications = apps }) ∷ rest ≡ out =
              ok-inj (rw (good, identify_users, more) at h) in
            rw (← same) (
              (accepted.identities, accepted.distinct),
              identify_users-HasIdentities files uid root users {out = rest} more,
            )
      ]
    ]

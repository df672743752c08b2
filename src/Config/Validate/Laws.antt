-- ===== src/Config/Validate/Laws.antt =====
-- What an accepted user's configuration satisfies.
use local_parental_control.Base.{
  ℕ, List, All, ◌≡◌, true, ok, ◌∷◌, false, map, arith, Bool-cases, [], ◌⊎◌, ok-inj, Result-cases,
  subst, inl, some, sym, inr, refl, Option-cases, ◌<◌, ltb, ltb→lt, ◌≢◌, nat_eq_iff,
}
use local_parental_control.Config.{UserConfig, Application}
use local_parental_control.Config.Domain.{Unicode, normalize_domain}
use local_parental_control.Config.Validate.{
  in_range, seen_in, normalize_domains, check_application, check_applications, check_hours,
  validate_user, Platform, has_slash, has_space_byte, valid_application_id, is_blank, is_empty,
}
use local_parental_control.Int.{ℤ, pos, ◌≤ℤ◌}
use local_parental_control.Text.{Str, str_beq_iff, trim_space, is_ascii, is_space}
use local_parental_control.Config.Clock.{parse_clock}
use local_parental_control.Config.Domain.Laws.{normalize_domain-normalize_domain}

abbrev pub InRange : ℕ → ℕ → ℤ → Type 0
InRange low high value = (pos low ≤ℤ value) × (value ≤ℤ pos high)

-- Every element differs from those behind it.
abbrev pub Distinct : List Str → Type 0
Distinct [] = Unit {0}
Distinct (x ∷ xs) = (seen_in xs x ≡ false) × Distinct xs

-- The hours of a user: all day and no clock times, or an interval of the clock that is not empty.
abbrev pub HasHours : UserConfig → Type 0
HasHours uc =
    ((uc.all_day ≡ true) × (uc.allowed_from ≡ []) × (uc.allowed_until ≡ []))
    ⊎ ((uc.all_day ≡ false)
        × ((from : ℕ) × (until : ℕ) × (parse_clock uc.allowed_from ≡ some from)
            × (parse_clock uc.allowed_until ≡ some until)
            × (from < until)))

-- An identifier that is not empty and has no slash, no backslash and no white space.
pub record IsValidId (p : Platform) (id : Str) : Type 0 where
  pub named : id ≢ []
  pub no_slash : All (λ c. (c ≢ b'/') × (c ≢ 92)) id
  pub no_space : is_ascii id ≡ true → All (λ c. is_space c ≡ false) id
  pub no_unicode_space : is_ascii id ≡ false → p.has_unicode_space id ≡ false

abbrev pub IsBlank : Platform → Str → Type 0
IsBlank p text = trim_space p.unicode.trim text ≡ []

pub record IsValidApplication (p : Platform) (app : Application) : Type 0 where
  pub id : IsValidId p app.id
  pub name : ¬ (IsBlank p app.name)
  pub limit : InRange 1 1440 app.daily_minutes
  pub executables : app.executables ≢ []

pub record IsValidUser (p : Platform) (uc : UserConfig) : Type 0 where
  pub device : InRange 1 1440 uc.daily_device_minutes
  pub continuous : InRange 1 1440 uc.continuous_use_minutes
  pub break : InRange 1 1440 uc.break_minutes
  pub hours : HasHours uc
  pub domains : All (λ d. normalize_domain p.unicode d ≡ ok d) uc.blocked_domains
  pub distinct_domains : Distinct uc.blocked_domains
  pub rules : All (IsValidApplication p) uc.applications
  pub distinct_ids : Distinct (map Application.id uc.applications)

pub in_range-InRange :
    (low high : ℕ) (value : ℤ) → in_range low high value ≡ true → InRange low high value
unfolding in_range
in_range-InRange low high value h = ground arith

-- What is in none of the lists `x ∷ seen`, as a loop's set of names, is not `x`.
pub unseen_apart :
    (xs : List Str) (x : Str) (seen : List Str)
    → All (λ y. seen_in (x ∷ seen) y ≡ false) xs
    → (seen_in xs x ≡ false) × All (λ y. seen_in seen y ≡ false) xs
unfolding seen_in
unseen_apart [] x seen h = (refl, tt)
unseen_apart (y ∷ xs) x seen (first, all) =
    let (apart, rest) = unseen_apart xs x seen all in
    (ground (arith, str_beq_iff x y, str_beq_iff y x), (ground arith, rest))

normalize_domains-valid :
    (u : Unicode) (seen domains : List Str) {out : List Str}
    → normalize_domains u seen domains ≡ ok out
    → All (λ d. normalize_domain u d ≡ ok d) out
      × All (λ d. seen_in seen d ≡ false) out
      × Distinct out
unfolding normalize_domains
normalize_domains-valid u seen [] {out} h = rw (← ok-inj h) (tt, tt, tt)
normalize_domains-valid u seen (domain ∷ domains) {out} h =
    elim (Result-cases (normalize_domain u domain)) [
      | inl (e, bad) ↦ absurd (cc (rw (bad, normalize_domains) at h))
      | inr (normal, good) ↦ elim (Bool-cases (seen_in seen normal)) [
        | inl old ↦ absurd (cc (rw (good, normalize_domains, old) at h))
        | inr fresh ↦ elim (Result-cases (normalize_domains u (normal ∷ seen) domains)) [
          | inl (e, bad) ↦ absurd (cc (rw (good, normalize_domains, fresh, bad) at h))
          | inr (rest, more) ↦
              let (fixed, unseen, distinct) =
                normalize_domains-valid u (normal ∷ seen) domains {out = rest} more in
              let (apart, others) = unseen_apart rest normal seen unseen in
              let same : normal ∷ rest ≡ out =
                ok-inj (rw (good, normalize_domains, fresh, more) at h) in
              rw (← same) (
                (normalize_domain-normalize_domain u domain good, fixed),
                (fresh, others),
                (apart, distinct),
              )
        ]
      ]
    ]

has_slash-All : (id : Str) → has_slash id ≡ false → All (λ c. (c ≢ b'/') × (c ≢ 92)) id
unfolding has_slash
has_slash-All [] h = tt
has_slash-All (c ∷ id) h = (
  (λ e. ground (arith, nat_eq_iff c b'/'), λ e. ground (arith, nat_eq_iff c 92)),
  has_slash-All id (ground arith),
)

has_space_byte-All : (id : Str) → has_space_byte id ≡ false → All (λ c. is_space c ≡ false) id
unfolding has_space_byte
has_space_byte-All [] h = tt
has_space_byte-All (c ∷ id) h = (ground arith, has_space_byte-All id (ground arith))

valid_application_id-IsValidId :
    (p : Platform) (id : Str) → valid_application_id p.has_unicode_space id ≡ true → IsValidId p id
unfolding valid_application_id
valid_application_id-IsValidId p id h = record {
  named = λ e. ground (arith, str_beq_iff id []);
  no_slash = has_slash-All id (ground arith);
  no_space = λ ascii. has_space_byte-All id (ground arith);
  no_unicode_space = λ other. ground arith;
}

pub not-IsBlank : (p : Platform) (text : Str) → is_blank p text ≡ false → ¬ (IsBlank p text)
unfolding is_blank
not-IsBlank p text h e = ground (arith, str_beq_iff (trim_space p.unicode.trim text) [])

not_empty : (executables : List Str) → is_empty executables ≡ false → executables ≢ []
not_empty executables h e = cc

check_application_facts :
    (p : Platform) (ids paths : List Str) (app : Application) {more : List Str}
    → check_application p ids paths app ≡ ok more
    → (seen_in ids app.id ≡ false)
      × (in_range 1 1440 app.daily_minutes ≡ true)
      × (valid_application_id p.has_unicode_space app.id ≡ true)
      × (is_blank p app.name ≡ false)
      × (is_empty app.executables ≡ false)
unfolding check_application
check_application_facts p ids paths app {more} h = ground arith

check_applications-valid :
    (p : Platform) (ids paths : List Str) (apps : List Application)
    → check_applications p ids paths apps ≡ ok tt
    → All (IsValidApplication p) apps
      × All (λ id. seen_in ids id ≡ false) (map Application.id apps)
      × Distinct (map Application.id apps)
unfolding check_applications
check_applications-valid p ids paths [] h = (tt, tt, tt)
check_applications-valid p ids paths (app ∷ apps) h =
    elim (Result-cases (check_application p ids paths app)) [
      | inl (e, bad) ↦ absurd (cc (rw (bad, check_applications) at h))
      | inr (more, good) ↦
          let (fresh, range, valid, named, filled) = check_application_facts p ids paths app good in
          let (limits, unseen, distinct) =
            check_applications-valid p (app.id ∷ ids) more apps
              (rw (good, check_applications) at h) in
          let (apart, others) = unseen_apart (map Application.id apps) app.id ids unseen in
          (
            (
              record {
                id = valid_application_id-IsValidId p app.id valid;
                name = not-IsBlank p app.name named;
                limit = in_range-InRange 1 1440 app.daily_minutes range;
                executables = not_empty app.executables filled;
              },
              limits,
            ),
            (fresh, others),
            (apart, distinct),
          )
    ]

hours_from : (uc : UserConfig) → check_hours uc ≡ ok tt → uc.all_day ≡ true → uc.allowed_from ≡ []
unfolding check_hours
hours_from uc h all_day = ground (arith, str_beq_iff uc.allowed_from [])

hours_until : (uc : UserConfig) → check_hours uc ≡ ok tt → uc.all_day ≡ true → uc.allowed_until ≡ []
unfolding check_hours
hours_until uc h all_day = ground (arith, str_beq_iff uc.allowed_until [])

check_hours-HasHours : (uc : UserConfig) → check_hours uc ≡ ok tt → HasHours uc
unfolding check_hours
check_hours-HasHours uc h = elim (Bool-cases uc.all_day) [
  | inl all_day ↦ inl (all_day, hours_from uc h all_day, hours_until uc h all_day)
  | inr some_day ↦ elim (Option-cases (parse_clock uc.allowed_from)) [
    | inl bad ↦ absurd (cc (rw (some_day, check_hours, bad) at h))
    | inr (from, good) ↦ elim (Option-cases (parse_clock uc.allowed_until)) [
      | inl bad ↦ absurd (cc (rw (some_day, check_hours, good, bad) at h))
      | inr (until, fine) ↦ elim (Bool-cases (ltb from until)) [
        | inl before ↦ inr (some_day, (from, until, good, fine, ltb→lt from until before))
        | inr empty ↦ absurd (cc (rw (some_day, check_hours, good, fine, empty) at h))
      ]
    ]
  ]
]

validate_user_facts :
    (p : Platform) (username : Str) (uc : UserConfig) {out : UserConfig}
    → validate_user p username uc ≡ ok out
    → (in_range 1 1440 uc.daily_device_minutes ≡ true)
      × (in_range 1 1440 uc.continuous_use_minutes ≡ true)
      × (in_range 1 1440 uc.break_minutes ≡ true)
      × (check_hours uc ≡ ok tt)
      × (check_applications p [] [] uc.applications ≡ ok tt)
      × (normalize_domains p.unicode [] uc.blocked_domains ≡ ok out.blocked_domains)
      × (out ≡ record uc { blocked_domains = out.blocked_domains })
unfolding validate_user
validate_user_facts p username uc {out} h = ground arith

pub validate_user-IsValidUser :
    (p : Platform) (username : Str) (uc : UserConfig) {out : UserConfig}
    → validate_user p username uc ≡ ok out
    → IsValidUser p out
validate_user-IsValidUser p username uc {out} h =
    let (device, continuous, break, hours, apps, domains, same) =
      validate_user_facts p username uc h in
    let (fixed, unseen, distinct) =
      normalize_domains-valid p.unicode [] uc.blocked_domains {out = out.blocked_domains} domains in
    let (limits, fresh, ids) = check_applications-valid p [] [] uc.applications apps in
    let valid : IsValidUser p (record uc { blocked_domains = out.blocked_domains }) = record {
      device = in_range-InRange 1 1440 uc.daily_device_minutes device;
      continuous = in_range-InRange 1 1440 uc.continuous_use_minutes continuous;
      break = in_range-InRange 1 1440 uc.break_minutes break;
      hours = check_hours-HasHours uc hours;
      domains = fixed;
      distinct_domains = distinct;
      rules = limits;
      distinct_ids = ids;
    } in
    subst (IsValidUser p) (sym same) valid

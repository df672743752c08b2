-- ===== src/Config/Validate.antt =====
-- `defaults`, `Validate` and the helpers that they call, of internal/config/config.go. A failure is a
-- value for each error of the source, without its text.
pub mod Laws
mod Tests
pub mod Users
use local_parental_control.Base.{
  ℕ, Result, Bool, List, ok, not, false, true, if◌then◌else◌, ◌∷◌, err, [], nat_eq, ◌||◌, ◌&&◌,
  none, some, ltb, ℕ_eq,
}
use local_parental_control.Text.{Str, str_beq, is_space, trim_space, codes, is_ascii, str_eq}
use local_parental_control.Config.Domain.{DomainError, Unicode, normalize_domain}
use local_parental_control.Daemon.Users.{
  ResolveError, LookupUser, no_such_user, invalid_uid, same_uid,
}
use local_parental_control.Int.{ℤ, pos, leb_ℤ, ltb_ℤ}
use local_parental_control.Config.{UserConfig, Config, Application}
use local_parental_control.Dict.{Dict, get_or, insert, lookup}
use local_parental_control.Config.Paths.{is_abs, clean, parse_uint}
use local_parental_control.Daemon.Terminate.{no_user}
use local_parental_control.Daemon.Status.{sorted_names}
use local_parental_control.Config.Clock.{parse_clock}

pub data AppError : Type 0 where
  bad_id same_id no_name bad_daily_minutes no_executables : AppError
  not_absolute same_executable : Str → AppError

pub data UserError : Type 0 where
  empty_name bad_device_minutes bad_continuous_minutes bad_break_minutes : UserError
  hours_with_all_day bad_from bad_until empty_hours : UserError
  bad_domain : DomainError → UserError
  same_domain : Str → UserError
  bad_application : AppError → UserError

pub data ConfigError : Type 0 where
  bad_timezone bad_poll_interval bad_grace no_users empty_username : ConfigError
  bad_uid : ResolveError → ConfigError
  bad_user : Str → UserError → ConfigError

-- What the validation asks of the system: the zones that load, the user database, and Unicode.
pub record Platform : Type 0 where
  pub zone_known : Str → Bool
  pub lookup_user : LookupUser
  pub unicode : Unicode
  pub has_unicode_space : Str → Bool

infixl 5 ◌>>=◌ ◌>>◌
abbrev pub ◌>>=◌ : {E A B : Type 0} → Result E A → (A → Result E B) → Result E B
ok a >>= f = f a
err e >>= f = err e

abbrev pub ◌>>◌ : {E B : Type 0} → Result E (Unit {0}) → Result E B → Result E B
m >> k = m >>= λ _. k

-- An early return with an error, unless the test holds.
abbrev pub guard : {E : Type 0} → Bool → E → Result E (Unit {0})
guard true e = ok tt
guard false e = err e

abbrev pub map_error : {E F A : Type 0} → (E → F) → Result E A → Result F A
map_error f (ok a) = ok a
map_error f (err e) = err (f e)

unfoldable pub or_default : ℤ → ℤ → ℤ
or_default value standard = if leb_ℤ value (pos 0) && leb_ℤ (pos 0) value then standard else value

unfoldable pub user_defaults : UserConfig → UserConfig
unfolding or_default
user_defaults uc = record uc {
  continuous_use_minutes = or_default uc.continuous_use_minutes (pos 60);
  break_minutes = or_default uc.break_minutes (pos 10);
}

unfoldable pub all_defaults : Dict Str UserConfig → Dict Str UserConfig
unfolding user_defaults
all_defaults [] = []
all_defaults ((username, uc) ∷ users) = (username, user_defaults uc) ∷ all_defaults users

unfoldable pub defaults : Config → Config
unfolding all_defaults or_default
defaults c = record {
  timezone = if str_beq c.timezone [] then codes "Local" else c.timezone;
  poll_interval_seconds = or_default c.poll_interval_seconds (pos 2);
  termination_grace_seconds = or_default c.termination_grace_seconds (pos 15);
  users = all_defaults c.users;
}

-- `!(value < low || value > high)`
unfoldable pub in_range : ℕ → ℕ → ℤ → Bool
in_range low high value = not (ltb_ℤ value (pos low) || ltb_ℤ (pos high) value)

-- `seen[name]` of a map that is used as a set.
unfoldable pub seen_in : List Str → Str → Bool
seen_in [] name = false
seen_in (other ∷ seen) name = str_beq other name || seen_in seen name

unfoldable pub has_space_byte : Str → Bool
has_space_byte [] = false
has_space_byte (c ∷ s) = is_space c || has_space_byte s

unfoldable pub has_slash : Str → Bool
has_slash [] = false
has_slash (c ∷ s) = nat_eq c b'/' || nat_eq c 92 || has_slash s

-- `validApplicationID`
unfoldable pub valid_application_id : (Str → Bool) → Str → Bool
valid_application_id has_unicode_space id = not (
    str_beq id []
    || ((if is_ascii id then has_space_byte id else has_unicode_space id) || has_slash id))

unfoldable pub is_blank : Platform → Str → Bool
is_blank p text = str_beq (trim_space p.unicode.trim text) []

-- The loop over the executables of a rule, with the paths that are taken.
unfoldable pub check_executables : List Str → List Str → Result AppError (List Str)
check_executables paths [] = ok paths
check_executables paths (executable ∷ executables) = do
  guard (is_abs executable) (not_absolute executable)
  guard (not (seen_in paths (clean executable))) (same_executable (clean executable))
  check_executables (clean executable ∷ paths) executables

abbrev pub is_empty {ℓ} : {A : Type ℓ} → List A → Bool
is_empty [] = true
is_empty (x ∷ xs) = false

-- One application rule; the result is the paths that are taken then.
unfoldable pub check_application :
    Platform → List Str → List Str → Application → Result AppError (List Str)
check_application p ids paths app = do
  guard (valid_application_id p.has_unicode_space app.id) bad_id
  guard (not (seen_in ids app.id)) same_id
  guard (not (is_blank p app.name)) no_name
  guard (in_range 1 1440 app.daily_minutes) bad_daily_minutes
  guard (not (is_empty app.executables)) no_executables
  check_executables paths app.executables

unfoldable pub check_applications :
    Platform → List Str → List Str → List Application → Result AppError (Unit {0})
check_applications p ids paths [] = ok tt
check_applications p ids paths (app ∷ apps) = do
  more ← check_application p ids paths app
  check_applications p (app.id ∷ ids) more apps

-- The loop over the blocked domains, which are replaced by their normal form.
unfoldable pub normalize_domains : Unicode → List Str → List Str → Result UserError (List Str)
normalize_domains u seen [] = ok []
normalize_domains u seen (domain ∷ domains) = do
  normalized ← map_error bad_domain (normalize_domain u domain)
  guard (not (seen_in seen normalized)) (same_domain normalized)
  rest ← normalize_domains u (normalized ∷ seen) domains
  ok (normalized ∷ rest)

unfoldable pub check_hours : UserConfig → Result UserError (Unit {0})
check_hours uc =
    if uc.all_day
    then guard (str_beq uc.allowed_from [] && str_beq uc.allowed_until []) hours_with_all_day
    else (elim (parse_clock uc.allowed_from) [
      | none ↦ err bad_from
      | some from ↦ elim (parse_clock uc.allowed_until) [
        | none ↦ err bad_until
        | some until ↦ guard (ltb from until) empty_hours
      ]
    ])

-- The body of the loop over the users.
unfoldable pub validate_user : Platform → Str → UserConfig → Result UserError UserConfig
validate_user p username uc = do
  guard (not (is_blank p username)) empty_name
  guard (in_range 1 1440 uc.daily_device_minutes) bad_device_minutes
  guard (in_range 1 1440 uc.continuous_use_minutes) bad_continuous_minutes
  guard (in_range 1 1440 uc.break_minutes) bad_break_minutes
  check_hours uc
  domains ← normalize_domains p.unicode [] uc.blocked_domains
  map_error bad_application (check_applications p [] [] uc.applications)
  ok (record uc { blocked_domains = domains })

unfoldable pub validate_users :
    Platform → List Str → Dict Str UserConfig → Result ConfigError (Dict Str UserConfig)
validate_users p [] users = ok users
validate_users p (username ∷ usernames) users = do
  uc ← map_error (bad_user username) (validate_user p username (get_or username no_user users))
  validate_users p usernames (insert username uc users)

-- `validateUniqueUserIDs`, with the UIDs that are taken.
unfoldable pub validate_unique_user_ids :
    Platform → Dict ℕ Str → List Str → Result ConfigError (Unit {0})
validate_unique_user_ids p resolved [] = ok tt
validate_unique_user_ids p resolved (username ∷ usernames) =
    if is_blank p username then err empty_username else (elim (p.lookup_user username) [
      | none ↦ err (bad_uid (no_such_user username))
      | some text ↦ elim (parse_uint 32 text) [
        | none ↦ err (bad_uid (invalid_uid username))
        | some uid ↦ elim (lookup uid resolved) [
          | some other ↦ err (bad_uid (same_uid other username))
          | none ↦ validate_unique_user_ids p (insert uid username resolved) usernames
        ]
      ]
    ])

unfoldable pub validate : Platform → Config → Result ConfigError Config
validate p c = do
  guard (p.zone_known c.timezone) bad_timezone
  guard (in_range 1 60 c.poll_interval_seconds) bad_poll_interval
  guard (in_range 1 60 c.termination_grace_seconds) bad_grace
  guard (not (is_empty c.users)) no_users
  validate_unique_user_ids p [] (sorted_names c.users)
  users ← validate_users p (sorted_names c.users) c.users
  ok (record c { users = users })

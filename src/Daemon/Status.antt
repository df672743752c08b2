-- ===== src/Daemon/Status.antt =====
-- The status that the daemon reports (`statusForUsers`), with the types of internal/api/api.go.
pub mod Laws
use local_parental_control.Text.{Str, str_ltb, str_eq}
use local_parental_control.Dict.{Dict, lookup, get_or}
use local_parental_control.Daemon.State.{UsageState, Instant}
use local_parental_control.Base.{
  Option, Bool, List, map, false, ℕ, ◌∷◌, none, some, if◌then◌else◌, [], true, ℕ_eq, ◌||◌, not,
}
use local_parental_control.Daemon.Service.{World, Machine, Reason, Service, location}
use local_parental_control.Int.{ℤ, times, leb_ℤ, ltb_ℤ, pos}
use local_parental_control.Config.{Application, UserConfig}
use local_parental_control.Daemon.Terminate.{used, user_config}
use local_parental_control.Config.Clock.{allowed_at}

pub record ApplicationStatus : Type 0 where
  pub id : Str
  pub name : Str
  pub used_seconds : ℤ
  pub limit_seconds : ℤ
  pub blocked : Bool

-- `break_until` is the deadline that the source formats; the empty text is `none`.
pub record UserStatus : Type 0 where
  pub name : Str
  pub device_used_seconds : ℤ
  pub device_limit_seconds : ℤ
  pub all_day : Bool
  pub allowed_from : Str
  pub allowed_until : Str
  pub device_blocked : Bool
  pub continuous_used_seconds : ℤ
  pub continuous_limit_seconds : ℤ
  pub break_until : Option Instant
  pub recovery_required : Bool
  pub applications : List ApplicationStatus

pub record Status : Type 0 where
  pub date : Str
  pub recovery_required : Bool
  pub recovery_reason : Option Reason
  pub application_monitoring_degraded : Bool
  pub application_monitoring_error : Option Reason
  pub users : List UserStatus

-- `sort.Strings`, and `sort.Slice` by a text.
module _ {A : Type 0} (key : A → Str) where
  unfoldable pub insert_by : A → List A → List A
  insert_by a [] = a ∷ []
  insert_by a (b ∷ items) = if str_ltb (key b) (key a) then b ∷ insert_by a items else a ∷ b ∷ items

  unfoldable pub sort_by : List A → List A
  unfolding insert_by
  sort_by [] = []
  sort_by (a ∷ items) = insert_by a (sort_by items)

-- The names of a map's keys, in order.
unfoldable pub sorted_names : {V : Type 0} → Dict Str V → List Str
sorted_names users = sort_by (λ name. name) (map (λ e. e.0) users)

unfoldable pub application_status : UsageState → Str → Application → ApplicationStatus
application_status state name app =
    let amount : ℤ = used state name app.id in
    let limit : ℤ = times 60 app.daily_minutes in
    record {
      id = app.id;
      name = app.name;
      used_seconds = amount;
      limit_seconds = limit;
      blocked = leb_ℤ limit amount;
    }

-- The deadline of a break that is not over.
unfoldable pub current_break : Instant → Str → UsageState → Option Instant
current_break now name state = elim (lookup name state.break_until) [
  | none ↦ none
  | some until ↦ if ltb_ℤ now until then some until else none
]

abbrev pub is_some {ℓ} : {A : Type ℓ} → Option A → Bool
is_some none = false
is_some (some a) = true

unfoldable pub user_status : World → Machine → Str → UserStatus
user_status w m name =
    let s : Service = m.service in
    let uc : UserConfig = user_config s name in
    let break : Option Instant = current_break w.now name s.state in
    record {
      name = name;
      device_used_seconds = get_or name (pos 0) s.state.device_seconds;
      device_limit_seconds = times 60 uc.daily_device_minutes;
      all_day = uc.all_day;
      allowed_from = uc.allowed_from;
      allowed_until = uc.allowed_until;
      device_blocked =
          is_some s.recovery
          || (leb_ℤ (times 60 uc.daily_device_minutes) (get_or name (pos 0) s.state.device_seconds)
              || (not (allowed_at (location w m) uc w.now) || is_some break));
      continuous_used_seconds = get_or name (pos 0) s.state.continuous_seconds;
      continuous_limit_seconds = times 60 uc.continuous_use_minutes;
      break_until = break;
      recovery_required = is_some s.recovery;
      applications = map (application_status s.state name) (sort_by Application.id uc.applications);
    }

unfoldable pub status_for_users : World → Machine → List Str → Status
status_for_users w m names = record {
  date = m.service.state.date;
  recovery_required = is_some m.service.recovery;
  recovery_reason = (elim m.service.recovery [ none ↦ none | some r ↦ some r.reason ]);
  application_monitoring_degraded = is_some m.service.application_monitoring_error;
  application_monitoring_error = m.service.application_monitoring_error;
  users = map (user_status w m) names;
}

unfoldable pub status : World → Machine → Status
status w m = status_for_users w m (sorted_names m.service.cfg.users)

-- `handleStatus`: what a user's own client is told; `none` answers that the user is not configured.
unfoldable pub handle_status : World → Machine → ℕ → Option Status
handle_status w m uid = elim (lookup uid m.service.uid_users) [
  | none ↦ none
  | some username ↦ some (record (status_for_users w m (username ∷ [])) { recovery_reason = none })
]

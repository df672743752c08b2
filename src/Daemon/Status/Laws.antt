-- ===== src/Daemon/Status/Laws.antt =====
-- The status of a user, the enforcement, and other users.
use local_parental_control.Daemon.Status.{
  user_status, handle_status, current_break, status_for_users, is_some, application_status, sort_by,
}
use local_parental_control.Daemon.Service.{World, Machine, lock}
use local_parental_control.Daemon.Tick.{enforce_user, is_blocked}
use local_parental_control.Base.{
  ℕ, ◌≡◌, none, some, true, ◌∷◌, false, [], Option-cases, inl, arith, inr, ℕ_eq, List, map, refl,
}
use local_parental_control.Text.{Str, str_eq}
use local_parental_control.Dict.{lookup, get_or, Dict}
use local_parental_control.Daemon.Tick.Locks.{is_locked}
use local_parental_control.Daemon.Terminate.{user_config, used}
use local_parental_control.Daemon.State.{UsageState, Instant}
use local_parental_control.Config.{Application}
use local_parental_control.Int.{pos}

-- While no recovery is in force, at one instant and in one state of the service: where the status of
-- a user says that the device is blocked, the enforcement of that user requests a lock of the
-- sessions; where it says that it is not, the enforcement requests nothing.
pub device_blocked-enforce_user :
    (w : World) (m : Machine) (uid : ℕ) (username : Str)
    → m.service.recovery ≡ none
    → ((user_status w m username).device_blocked ≡ true
        → is_locked uid (enforce_user w uid username m).log ≡ true)
      × ((user_status w m username).device_blocked ≡ false
          → (enforce_user w uid username m).log ≡ m.log)
unfolding user_status current_break enforce_user is_blocked lock
device_blocked-enforce_user w m uid username running =
    elim (Option-cases (lookup username m.service.state.break_until)) [
      | inl free ↦ ground arith
      | inr (until, stored) ↦ ground arith
    ]

-- Two services agree on what concerns a user: the settings and the counters of that user, the date and
-- the timezone, whether a recovery is in force, and the health of the process scan.
pub record IsSameView (username : Str) (m n : Machine) : Type 0 where
  pub recovery : is_some n.service.recovery ≡ is_some m.service.recovery
  pub scan_error : n.service.application_monitoring_error ≡ m.service.application_monitoring_error
  pub date : n.service.state.date ≡ m.service.state.date
  pub timezone : n.service.cfg.timezone ≡ m.service.cfg.timezone
  pub settings : user_config n.service username ≡ user_config m.service username
  pub apps : lookup username n.service.state.users ≡ lookup username m.service.state.users
  pub device :
      lookup username n.service.state.device_seconds
      ≡ lookup username m.service.state.device_seconds
  pub continuous :
      lookup username n.service.state.continuous_seconds
      ≡ lookup username m.service.state.continuous_seconds
  pub break :
      lookup username n.service.state.break_until ≡ lookup username m.service.state.break_until

get_or_same :
    {V : Type 0} (key : Str) (zero : V) (d e : Dict Str V)
    → lookup key e ≡ lookup key d
    → get_or key zero e ≡ get_or key zero d
unfolding get_or
get_or_same key zero d e h = rw (get_or, h)

application_status-same :
    (s t : UsageState) (username : Str) (apps : List Application)
    → get_or username [] t.users ≡ get_or username [] s.users
    → map (application_status t username) apps ≡ map (application_status s username) apps
unfolding application_status used
application_status-same s t username [] h = refl
application_status-same s t username (app ∷ apps) h =
    rw (application_status, used, h, application_status-same s t username apps h)

current_break-same :
    (now : Instant) (username : Str) (s t : UsageState)
    → lookup username t.break_until ≡ lookup username s.break_until
    → current_break now username t ≡ current_break now username s
unfolding current_break
current_break-same now username s t h = rw (current_break, h)

user_status-IsSameView :
    (w : World) (m n : Machine) (username : Str)
    → IsSameView username m n
    → user_status w n username ≡ user_status w m username
unfolding user_status
user_status-IsSameView w m n username v =
    let s : UsageState = m.service.state in
    let t : UsageState = n.service.state in
    let apps =
      application_status-same s t username
        (sort_by Application.id (user_config m.service username).applications)
        (get_or_same username [] s.users t.users v.apps) in
    rw (
      v.settings,
      get_or_same username (pos 0) s.device_seconds t.device_seconds v.device,
      get_or_same username (pos 0) s.continuous_seconds t.continuous_seconds v.continuous,
      current_break-same w.now username s t v.break,
      v.recovery,
      v.timezone,
      apps,
    )

-- What a user's own client is told depends on that user alone: two services that map the UID to the
-- same name and agree on the settings and the counters of that user, on the date and the timezone, on
-- whether a recovery is in force and on the health of the scan give the same answer, whatever their
-- other users are and do, and whatever the reason of a recovery is.
pub handle_status-IsSameView :
    (w : World) (m n : Machine) (uid : ℕ) (username : Str)
    → lookup uid m.service.uid_users ≡ some username
    → lookup uid n.service.uid_users ≡ some username
    → IsSameView username m n
    → handle_status w n uid ≡ handle_status w m uid
unfolding handle_status status_for_users
handle_status-IsSameView w m n uid username known_m known_n v = rw (
  handle_status,
  known_m,
  known_n,
  status_for_users,
  user_status-IsSameView w m n username v,
  v.date,
  v.recovery,
  v.scan_error,
)

-- ===== src/Daemon/Terminate.antt =====
-- Applications of a user: their rules, their counters, and the termination of their processes.

-- The first application one of whose executables matches.
use local_parental_control.Text.{Str, str_eq}
use local_parental_control.Config.{UserConfig, Application}
use local_parental_control.Daemon.Service.{
  Service, World, Machine, PendingTermination, Event, signalled,
}
use local_parental_control.Daemon.State.{UsageState}
use local_parental_control.Base.{
  ℕ, List, Option, Bool, none, false, [], some, ◌∷◌, if◌then◌else◌, nat_eq, ◌==◌, true, ◌||◌, ℕ_eq,
}
use local_parental_control.Int.{pos, ℤ, leb_ℤ, ◌+ℤ◌, times, seconds}
use local_parental_control.Dict.{get_or, Dict, insert, contains}
use local_parental_control.Process.{Info, Signal}
use local_parental_control.Config.Paths.{executable_matches}

unfoldable pub any_matches : Str → List Str → Bool
any_matches executable [] = false
any_matches executable (candidate ∷ candidates) =
    executable_matches candidate executable || any_matches executable candidates

unfoldable pub find_app : Str → List Application → Option Application
unfolding any_matches
find_app executable [] = none
find_app executable (app ∷ apps) =
    if any_matches executable app.executables then some app else find_app executable apps

unfoldable pub find_application : UserConfig → Str → Option Application
find_application uc executable = find_app executable uc.applications

-- The zero value of a map lookup that finds no user.
abbrev pub no_user : UserConfig
no_user = record {
  daily_device_minutes = pos 0;
  continuous_use_minutes = pos 0;
  break_minutes = pos 0;
  all_day = false;
  allowed_from = [];
  allowed_until = [];
  applications = [];
  blocked_domains = [];
}

-- `s.cfg.Users[username]`
abbrev pub user_config : Service → Str → UserConfig
user_config s username = get_or username no_user s.cfg.users

unfoldable pub used : UsageState → Str → Str → ℤ
used state user app = get_or app (pos 0) (get_or user [] state.users)

unfoldable pub add : Str → Str → ℤ → UsageState → UsageState
add user app amount state =
    let apps : Dict Str ℤ = get_or user [] state.users in
    record state {
      users = insert user (insert app (get_or app (pos 0) apps +ℤ amount) apps) state.users;
    }

-- `s.used(username, app.ID) >= int64(app.DailyMinutes*60)`
abbrev pub is_spent : UsageState → Str → Application → Bool
is_spent state username app = leb_ℤ (times 60 app.daily_minutes) (used state username app.id)

-- SIGTERM once, and a deadline for SIGKILL if it was sent.
unfoldable pub terminate_process : World → Info → Machine → Machine
terminate_process w p m =
    let s : Service = m.service in
    let pending : PendingTermination = record {
      deadline = w.now +ℤ seconds s.cfg.termination_grace_seconds;
      process = p;
    } in
    let sent : List Event = signalled Signal.terminate p ∷ m.log in
    if contains p.pid s.pending_kill
    then m
    else (if w.signal_fails Signal.terminate p then record m { log = sent } else record m {
      service = record s { pending_kill = insert p.pid pending s.pending_kill };
      log = sent;
    })

-- The UID that `cancelPendingTerminations` finds for a username.
unfoldable pub uid_of : Str → Dict ℕ Str → Option ℕ
uid_of username [] = none
uid_of username ((uid, candidate) ∷ users) =
    if candidate == username then some uid else uid_of username users

-- Whether a pending kill falls under a reset of a user, or of one of the user's applications.
unfoldable pub is_covered : UserConfig → ℕ → Str → PendingTermination → Bool
is_covered uc uid application_id pending =
    if nat_eq pending.process.uid uid
    then (if application_id == []
        then true
        else (elim (find_application uc pending.process.executable) [
          | none ↦ false
          | some app ↦ app.id == application_id
        ]))
    else false

unfoldable pub remove_covered :
    UserConfig → ℕ → Str → Dict ℕ PendingTermination → Dict ℕ PendingTermination
unfolding is_covered
remove_covered uc uid application_id [] = []
remove_covered uc uid application_id ((pid, pending) ∷ kills) =
    if is_covered uc uid application_id pending
    then remove_covered uc uid application_id kills
    else (pid, pending) ∷ remove_covered uc uid application_id kills

unfoldable pub cancel_pending_terminations : Str → Str → Service → Service
unfolding remove_covered uid_of
cancel_pending_terminations username application_id s = elim (uid_of username s.uid_users) [
  | none ↦ s
  | some uid ↦ record s {
    pending_kill = remove_covered (user_config s username) uid application_id s.pending_kill;
  }
]

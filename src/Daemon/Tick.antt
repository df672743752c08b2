-- ===== src/Daemon/Tick.antt =====
-- `tick` of internal/daemon/daemon.go: one monitoring iteration.
pub mod Locks
pub mod Setup
pub mod Hours
pub mod Charging
pub mod Kills
-- What the scan of one iteration found: the processes by PID, the users with a process, and the
-- applications that ran within their limits.
use local_parental_control.Base.{
  [], List, ℕ, Bool, true, not, Option, ◌∷◌, if◌then◌else◌, false, ◌||◌, ◌&&◌, none, some, ℕ_eq,
}
use local_parental_control.Dict.{Dict, insert, lookup, get_or, erase}
use local_parental_control.Text.{Str, str_eq}
use local_parental_control.Daemon.Service.{
  World, Machine, Service, PendingTermination, Event, location, closed, lock, device_limit,
  signalled, mandatory_break,
}
use local_parental_control.Config.Clock.{Zone, allowed_at}
use local_parental_control.Process.{Info, same_identity, Signal}
use local_parental_control.Daemon.State.{Instant, UsageState}
use local_parental_control.Int.{ℤ, pos, leb_ℤ, times, ltb_ℤ}
use local_parental_control.Config.{UserConfig}
use local_parental_control.Daemon.Window.{accounting_interval}
use local_parental_control.Daemon.Terminate.{
  user_config, add, find_application, is_spent, terminate_process,
}
use local_parental_control.Daemon.Accounting.{account_user_interval}

pub record Seen : Type 0 where
  pub current : Dict ℕ Info
  pub active_users : Dict Str Bool
  pub active : Dict Str (Dict Str Bool)

abbrev pub no_one : Seen
no_one = record { current = []; active_users = []; active = [] }

-- `active[username][app.ID] = true`
unfoldable pub mark_active : Str → Str → Dict Str (Dict Str Bool) → Dict Str (Dict Str Bool)
mark_active username app active =
    insert username (insert app true (get_or username [] active)) active

-- One process of the first loop.
unfoldable pub see_process : World → Info → Machine × Seen → Machine × Seen
see_process w p (m, seen) =
    let with_pid : Seen = record seen { current = insert p.pid p seen.current } in
    elim (lookup p.uid m.service.uid_users) [
      | none ↦ (m, with_pid)
      | some username ↦
          let with_user : Seen = record with_pid {
            active_users = insert username true with_pid.active_users;
          } in
          elim (find_application (user_config m.service username) p.executable) [
            | none ↦ (m, with_user)
            | some app ↦
                if is_spent m.service.state username app
                then (terminate_process w p m, with_user)
                else (m, record with_user { active = mark_active username app.id with_user.active })
          ]
    ]

unfoldable pub see_processes : World → List Info → Machine × Seen → Machine × Seen
unfolding see_process
see_processes w [] found = found
see_processes w (p ∷ processes) found = see_processes w processes (see_process w p found)

-- The users whose session state is known, and whether a session is unlocked.
unfoldable pub unlocked_users : World → Dict Str Bool → Dict ℕ Str → Dict Str Bool → Dict Str Bool
unlocked_users w active_users [] unlocked = unlocked
unlocked_users w active_users ((uid, username) ∷ users) unlocked =
    unlocked_users w active_users users (
      if get_or username false active_users
      then (elim (w.unlocked uid) [ none ↦ unlocked | some state ↦ insert username state unlocked ])
      else unlocked)

-- The accounting of one user, if the user was there in the last sample too and is unlocked now. An
-- interval whose accounting had no result would count nothing.
unfoldable pub charge_user :
    Zone
    → Instant
    → Instant
    → Dict Str Bool
    → Dict Str Bool
    → Str
    → Service × Dict Str ℤ
    → Service × Dict Str ℤ
charge_user zone interval_start now active_users unlocked username (s, counted) =
    let (from, until, eligible) =
      accounting_interval interval_start now (user_config s username) zone in
    if get_or username false active_users
    then (if get_or username false s.previous_users && get_or username false unlocked && eligible
        then (elim (account_user_interval username (user_config s username) from until s.state) [
          | none ↦ (s, counted)
          | some (state, amount) ↦ (record s { state = state }, insert username amount counted)
        ])
        else (s, counted))
    else (s, counted)

-- The counters of a user whose break is over, or who is outside the allowed time.
unfoldable pub end_break : Str → UsageState → UsageState
end_break username state = record state {
  continuous_seconds = insert username (pos 0) state.continuous_seconds;
  break_until = erase username state.break_until;
}

-- `!uc.AllowedAt(...) || s.state.DeviceSeconds[username] >= int64(uc.DailyDeviceMinutes*60)`
unfoldable pub is_blocked : Zone → Instant → UserConfig → Str → UsageState → Bool
is_blocked zone now uc username state =
    not (allowed_at zone uc now)
    || leb_ℤ (times 60 uc.daily_device_minutes) (get_or username (pos 0) state.device_seconds)

-- The enforcement of one user's device time: lock, or end a break that is over.
unfoldable pub enforce_user : World → ℕ → Str → Machine → Machine
enforce_user w uid username m =
    let s : Service = m.service in
    let ended : Machine = record m { service = record s { state = end_break username s.state } } in
    if is_blocked (location w m) w.now (user_config s username) username s.state
    then lock uid device_limit ended
    else (elim (lookup username s.state.break_until) [
      | none ↦ m
      | some until ↦ if ltb_ℤ w.now until then lock uid mandatory_break m else ended
    ])

-- The loop over the users: each is charged and then held to the limits.
unfoldable pub account_users :
    World
    → Instant
    → Dict Str Bool
    → Dict Str Bool
    → Dict ℕ Str
    → Machine × Dict Str ℤ
    → Machine × Dict Str ℤ
account_users w interval_start active_users unlocked [] found = found
account_users w interval_start active_users unlocked ((uid, username) ∷ users) (m, counted) =
    let (s, more) =
      charge_user (location w m) interval_start w.now active_users unlocked username
        (m.service, counted) in
    account_users w interval_start active_users unlocked users
      (enforce_user w uid username (record m { service = s }), more)

-- The applications of one user that ran in the last sample too gain the user's seconds.
unfoldable pub add_apps : Str → ℤ → Dict Str Bool → Dict Str Bool → UsageState → UsageState
add_apps username amount previous [] state = state
add_apps username amount previous ((app, on) ∷ apps) state =
    add_apps username amount previous apps
      (if get_or app false previous then add username app amount state else state)

unfoldable pub add_active :
    Dict Str ℤ → Dict Str (Dict Str Bool) → Dict Str (Dict Str Bool) → UsageState → UsageState
unfolding add_apps
add_active counted previous [] state = state
add_active counted previous ((username, apps) ∷ active) state =
    let amount : ℤ = get_or username (pos 0) counted in
    add_active counted previous active (
      if leb_ℤ amount (pos 0) && leb_ℤ (pos 0) amount
      then state
      else add_apps username amount (get_or username [] previous) apps state)

-- `s.previousUsers` for the next sample.
unfoldable pub sample_users : Dict Str Bool → Dict Str Bool → Dict Str Bool
sample_users [] unlocked = []
sample_users ((username, on) ∷ users) unlocked =
    (username, get_or username false unlocked) ∷ sample_users users unlocked

-- The second loop over the processes, after the counters have moved.
unfoldable pub enforce_apps : World → List Info → Machine → Machine
enforce_apps w [] m = m
enforce_apps w (p ∷ processes) m =
    enforce_apps w processes (elim (lookup p.uid m.service.uid_users) [
      | none ↦ m
      | some username ↦ elim (find_application (user_config m.service username) p.executable) [
        | none ↦ m
        | some app ↦ if is_spent m.service.state username app then terminate_process w p m else m
      ]
    ])

-- Whether the process that holds the PID now is the one that was to end.
unfoldable pub still_runs : Dict ℕ Info → ℕ → PendingTermination → Option Info
still_runs current pid pending = elim (lookup pid current) [
  | none ↦ none
  | some process ↦ if same_identity process pending.process then some process else none
]

-- The pending kills after a scan: those whose deadline has come are killed or forgotten.
unfoldable pub kill_due :
    World
    → Dict ℕ Info
    → Dict ℕ PendingTermination
    → List Event
    → Dict ℕ PendingTermination × List Event
unfolding still_runs
kill_due w current [] log = ([], log)
kill_due w current ((pid, pending) ∷ kills) log =
    let due : Bool = leb_ℤ pending.deadline w.now in
    let (rest, later) = kill_due w current kills (
      if due
      then (elim (still_runs current pid pending) [
        | none ↦ log
        | some process ↦ signalled Signal.kill process ∷ log
      ])
      else log) in
    (if due then rest else (pid, pending) ∷ rest, later)

-- `process.Close()` of what the scan opened.
unfoldable pub close_all : List Info → List Event → List Event
close_all [] log = log
close_all (p ∷ processes) log = close_all processes (closed p ∷ log)

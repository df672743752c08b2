-- ===== src/Daemon/Session.antt =====
-- `loginctlController` of internal/daemon/session.go: what it makes of the output of loginctl.
pub mod Properties
pub mod Laws
mod Tests
use local_parental_control.Config.Clock.{◌>>=◌}
use local_parental_control.Base.{
  ℕ, List, Bool, Option, leb, true, false, ◌∷◌, ◌&&◌, none, some, if◌then◌else◌, ◌||◌, [], nat_eq,
  not,
}
use local_parental_control.Text.{Str, split, str_beq, trim_space, codes, str_eq, fields}
use local_parental_control.Dict.{Dict, insert, lookup}
use local_parental_control.Config.Validate.{is_empty}

-- The outputs of loginctl for a user and for a session, where the command succeeds; whether it
-- refuses to lock sessions; and what package `strings` does to a text that is not ASCII.
pub record LoginWorld : Type 0 where
  pub show_user : ℕ → Option Str
  pub show_session : Str → Option Str
  pub lock_fails : List Str → Bool
  pub unicode_trim : Str → Str
  pub unicode_fields : Str → List Str

-- `strings.Cut(line, "=")`
unfoldable pub cut_at : ℕ → Str → Option (Str × Str)
cut_at c [] = none
cut_at c (a ∷ s) =
    if nat_eq a c
    then some ([], s)
    else (elim (cut_at c s) [ none ↦ none | some (before, after) ↦ some (a ∷ before, after) ])

unfoldable pub add_property : Str → Dict Str Str → Dict Str Str
unfolding cut_at
add_property line properties = elim (cut_at b'=' line) [
  | none ↦ properties
  | some (key, value) ↦ insert key value properties
]

unfoldable pub add_properties : List Str → Dict Str Str → Dict Str Str
add_properties [] properties = properties
add_properties (line ∷ lines) properties = add_properties lines (add_property line properties)

-- "yes" or "no"
unfoldable pub parse_yes : Str → Option Bool
parse_yes value =
    if str_beq value (codes "yes")
    then some true
    else (if str_beq value (codes "no") then some false else none)

pub record SessionState : Type 0 where
  pub active : Bool
  pub unlocked : Bool
  pub graphical : Bool

unfoldable pub session_state : Dict Str Str → Option SessionState
unfolding parse_yes
session_state properties = do
  active_value ← lookup (codes "Active") properties
  locked_value ← lookup (codes "LockedHint") properties
  type_value ← lookup (codes "Type") properties
  active ← parse_yes active_value
  locked ← parse_yes locked_value
  some (record {
    active = active;
    unlocked = not locked;
    graphical = str_beq type_value (codes "x11") || str_beq type_value (codes "wayland");
  })

-- `parseSessionState`
unfoldable pub parse_session_state : (Str → Str) → Str → Option SessionState
parse_session_state unicode_trim output =
    session_state (add_properties (split 10 (trim_space unicode_trim output)) [])

-- `[A-Za-z0-9_-]`
unfoldable pub is_session_byte : ℕ → Bool
is_session_byte c =
    leb b'A' c && leb c b'Z'
    || (leb b'a' c && leb c b'z' || (leb b'0' c && leb c b'9' || (nat_eq c b'_' || nat_eq c b'-')))

unfoldable pub all_session_bytes : Str → Bool
all_session_bytes [] = true
all_session_bytes (c ∷ s) = is_session_byte c && all_session_bytes s

unfoldable pub is_session_id : Str → Bool
is_session_id [] = false
is_session_id (c ∷ s) = all_session_bytes (c ∷ s)

unfoldable pub all_session_ids : List Str → Bool
all_session_ids [] = true
all_session_ids (session ∷ sessions) = is_session_id session && all_session_ids sessions

-- `userSessions`
unfoldable pub user_sessions : LoginWorld → ℕ → Option (List Str)
user_sessions l uid = do
  output ← l.show_user uid
  let sessions = fields l.unicode_fields output
  if all_session_ids sessions then some sessions else none

-- The state of one session, where loginctl gives one that can be read.
unfoldable pub read_session : LoginWorld → Str → Option SessionState
read_session l session = do
  output ← l.show_session session
  parse_session_state l.unicode_trim output

abbrev pub is_open : SessionState → Bool
is_open s = s.active && (s.unlocked && s.graphical)

-- The loop of `Unlocked`: the first session that is open ends it, and so does an error.
unfoldable pub any_open : LoginWorld → List Str → Option Bool
any_open l [] = some false
any_open l (session ∷ sessions) =
    let rest : Option Bool = any_open l sessions in
    elim (read_session l session) [
      | none ↦ none
      | some state ↦ if is_open state then some true else rest
    ]

unfoldable pub user_unlocked : LoginWorld → ℕ → Option Bool
user_unlocked l uid = do sessions ← user_sessions l uid; any_open l sessions

-- `Lock`: the sessions that it asks loginctl to lock, or an error.
unfoldable pub lock_sessions : LoginWorld → ℕ → Option (List Str)
lock_sessions l uid = do
  sessions ← user_sessions l uid
  if is_empty sessions then some [] else (if l.lock_fails sessions then none else some sessions)

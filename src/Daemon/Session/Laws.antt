-- ===== src/Daemon/Session/Laws.antt =====
-- What `Unlocked` answers of the sessions of a user.
use local_parental_control.Daemon.Session.{
  LoginWorld, user_sessions, SessionState, read_session, is_open, is_session_id,
}
use local_parental_control.Base.{
  Bool, List, ℕ, ◌≡◌, some, true, ◌∷◌, false, All, ◌⊎◌, [], not, ◌&&◌,
}
use local_parental_control.Text.{Str, split, trim_space}
use local_parental_control.Daemon.Session.Properties.{Describes}

-- The session can be read, and its state is open or not.
abbrev IsRead : LoginWorld → Bool → Str → Type 0
IsRead l open_now session =
    (state : SessionState) × (read_session l session ≡ some state) × (is_open state ≡ open_now)

-- One of the sessions is open, and those before it can be read and are not.
abbrev FirstRead : LoginWorld → List Str → Type 0
FirstRead l [] = ⊥
FirstRead l (session ∷ sessions) =
    IsRead l true session ⊎ (IsRead l false session × FirstRead l sessions)

-- The lines that loginctl prints of a session.
abbrev pub lines_of : LoginWorld → Str → List Str
lines_of l output = split 10 (trim_space l.unicode_trim output)

-- loginctl describes the session as active, not locked and graphical.
abbrev pub IsOpen : LoginWorld → Str → Type 0
IsOpen l session =
    (output : Str) × (l.show_session session ≡ some output)
    × Describes (lines_of l output) true false true

-- loginctl describes the session, and not as active, not locked and graphical.
abbrev pub IsShut : LoginWorld → Str → Type 0
IsShut l session =
    (output : Str) × (active locked graphical : Bool) × (l.show_session session ≡ some output)
    × Describes (lines_of l output) active locked graphical
    × (active && (not locked && graphical) ≡ false)

-- One of the sessions is open, and loginctl describes those before it as not open.
abbrev pub FirstOpen : LoginWorld → List Str → Type 0
FirstOpen l [] = ⊥
FirstOpen l (session ∷ sessions) = IsOpen l session ⊎ (IsShut l session × FirstOpen l sessions)

-- loginctl lists the sessions of a user, each with a valid identifier.
abbrev pub IsListed : LoginWorld → ℕ → List Str → Type 0
IsListed l uid sessions =
    (user_sessions l uid ≡ some sessions) × All (λ s. is_session_id s ≡ true) sessions

-- ===== src/Daemon/Session/Tests.antt =====
-- A user with a locked and an open session.
use local_parental_control.Daemon.Session.{
  LoginWorld, user_unlocked, user_sessions, is_session_id, all_session_ids, all_session_bytes,
  is_session_byte, any_open, read_session, parse_session_state, session_state, add_properties,
  add_property, cut_at, parse_yes,
}
use local_parental_control.Base.{some, ◌≡◌, true, if◌then◌else◌, refl, ◌++◌, false, ◌∷◌, []}
use local_parental_control.Text.{
  codes, str_beq, fields, is_ascii, split, trim_space, trim_right, trim_left, fields_from, is_space,
  split_first,
}
use local_parental_control.Dict.{lookup, insert}

-- The last session is open.
abbrev logins : LoginWorld
logins = record {
  show_user = λ _. some (codes "2 c1");
  show_session = λ session.
      if str_beq session (codes "c1")
      then some (codes "Active=yes" ++ (10 ∷ codes "LockedHint=no" ++ (10 ∷ codes "Type=wayland")))
      else some (codes "Active=yes" ++ (10 ∷ codes "LockedHint=yes" ++ (10 ∷ codes "Type=x11")));
  lock_fails = λ _. false;
  unicode_trim = λ s. s;
  unicode_fields = λ s. s ∷ [];
}

open_now : user_unlocked logins 1000 ≡ some true
unfolding user_unlocked user_sessions all_session_ids fields is_ascii is_session_id
    all_session_bytes is_session_byte any_open read_session parse_session_state session_state lookup
    add_properties split trim_space trim_right trim_left add_property cut_at parse_yes insert
    fields_from is_space split_first
open_now = refl

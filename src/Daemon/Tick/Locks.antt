-- ===== src/Daemon/Tick/Locks.antt =====
-- Lock requests in the log: no step of an iteration removes one, and the loop over the users makes
-- one for each user who may not use the device.
use local_parental_control.Base.{
  ℕ, List, Bool, ◌≡◌, false, true, nat_eq, arith, some, ◌∷◌, Bool-cases, ◌||◌, [], inl, inr, ℕ_eq,
  refl,
}
use local_parental_control.Daemon.Service.{
  Event, lock, lock_all, LockReason, World, Machine, locked, PendingTermination, location, closed,
  signalled,
}
use local_parental_control.Daemon.Tick.{enforce_user, enforce_apps, close_all, kill_due, is_blocked}
use local_parental_control.Daemon.Terminate.{terminate_process, user_config}
use local_parental_control.Dict.{lookup, Dict}
use local_parental_control.Process.{Info}
use local_parental_control.Text.{Str}

abbrev pub is_lock : ℕ → Event → Bool
is_lock uid (locked u reason) = nat_eq u uid
is_lock uid (signalled s p) = false
is_lock uid (closed p) = false

-- A lock of the user's sessions was requested.
abbrev pub is_locked : ℕ → List Event → Bool
is_locked uid [] = false
is_locked uid (e ∷ log) = is_lock uid e || is_locked uid log

module _ (uid : ℕ) where
  is_locked-cons :
      (e : Event) (log : List Event) → is_locked uid log ≡ true → is_locked uid (e ∷ log) ≡ true
  is_locked-cons e log h = ground arith

  lock-is_locked :
      (reason : LockReason) (m : Machine) → is_locked uid (lock uid reason m).log ≡ true
  unfolding lock
  lock-is_locked reason m = ground arith

  lock_keeps :
      (u : ℕ) (reason : LockReason) (m : Machine)
      → is_locked uid m.log ≡ true
      → is_locked uid (lock u reason m).log ≡ true
  unfolding lock
  lock_keeps u reason m h = is_locked-cons (locked u reason) m.log h

  lock_all_keeps :
      (reason : LockReason) (users : Dict ℕ Str) (m : Machine)
      → is_locked uid m.log ≡ true
      → is_locked uid (lock_all reason users m).log ≡ true
  unfolding lock_all
  lock_all_keeps reason [] m h = h
  lock_all_keeps reason ((u, name) ∷ users) m h =
      lock_all_keeps reason users (lock u reason m) (lock_keeps u reason m h)

  -- Everyone on the list is locked.
  pub lock_all-is_locked :
      (reason : LockReason) (users : Dict ℕ Str) (m : Machine) (username : Str)
      → lookup uid users ≡ some username
      → is_locked uid (lock_all reason users m).log ≡ true
  unfolding lock_all lookup
  lock_all-is_locked reason [] m username e = cc
  lock_all-is_locked reason ((u, name) ∷ users) m username e = elim (Bool-cases (nat_eq u uid)) [
    | inl same ↦ lock_all_keeps reason users (lock u reason m) (rw (lock, same) refl)
    | inr other ↦ lock_all-is_locked reason users (lock u reason m) username (rw other at e)
  ]

  pub enforce_user_keeps :
      (w : World) (u : ℕ) (username : Str) (m : Machine)
      → is_locked uid m.log ≡ true
      → is_locked uid (enforce_user w u username m).log ≡ true
  unfolding enforce_user lock
  enforce_user_keeps w u username m h = ground arith

  -- A user who is blocked is locked.
  pub enforce_user-is_locked :
      (w : World) (username : Str) (m : Machine)
      → is_blocked (location w m) w.now (user_config m.service username) username m.service.state
        ≡ true
      → is_locked uid (enforce_user w uid username m).log ≡ true
  unfolding enforce_user lock
  enforce_user-is_locked w username m h = ground arith

  terminate_process_keeps :
      (w : World) (p : Info) (m : Machine)
      → is_locked uid m.log ≡ true
      → is_locked uid (terminate_process w p m).log ≡ true
  unfolding terminate_process
  terminate_process_keeps w p m h = ground arith

  pub enforce_apps_keeps :
      (w : World) (processes : List Info) (m : Machine)
      → is_locked uid m.log ≡ true
      → is_locked uid (enforce_apps w processes m).log ≡ true
  unfolding enforce_apps
  enforce_apps_keeps w [] m h = h
  enforce_apps_keeps w (p ∷ processes) m h =
      enforce_apps_keeps w processes _ (ground (arith, terminate_process_keeps w p m))

  pub close_all_keeps :
      (processes : List Info) (log : List Event)
      → is_locked uid log ≡ true
      → is_locked uid (close_all processes log) ≡ true
  unfolding close_all
  close_all_keeps [] log h = h
  close_all_keeps (p ∷ processes) log h = close_all_keeps processes (closed p ∷ log) h

  pub kill_due_keeps :
      (w : World) (current : Dict ℕ Info) (kills : Dict ℕ PendingTermination) (log : List Event)
      → is_locked uid log ≡ true
      → is_locked uid (kill_due w current kills log).1 ≡ true
  unfolding kill_due
  kill_due_keeps w current [] log h = h
  kill_due_keeps w current ((pid, pending) ∷ kills) log h =
      kill_due_keeps w current kills _ (ground arith)

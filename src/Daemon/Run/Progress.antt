-- ===== src/Daemon/Run/Progress.antt =====
-- What the iterations of a service that waits achieve: retrying ends once the files can be written,
-- and a blocked service locks every user each time.
use local_parental_control.Daemon.Service.{World, Machine, StateRecovery, recovery_required}
use local_parental_control.Daemon.Store.{
  save_state, remove_marker, FileStep, replace_file, Faults, Disk, Marker, make_directory,
  remove_file, validate_directory, sync_directory, create_temporary, change_mode, write_data,
  sync_file, close_file, rename_file, encode_state,
}
use local_parental_control.Daemon.Iteration.{retry_state_persistence, tick, resume, recovery_tick}
use local_parental_control.Base.{
  Option, List, ◌∷◌, ℕ, ◌≡◌, ◌⊎◌, false, none, [], some, inl, Bool-cases, inr, true, ◌∙◌, refl, sym,
  ℕ_eq,
}
use local_parental_control.Daemon.Run.Mode.{
  Kind, Mode, mode, mode_of, normal, retrying, ViewStep, by_iteration, stay, save_failed, halted,
  unsaved, saved, unrecovered, recovered,
}
use local_parental_control.Daemon.State.{UsageState}
use local_parental_control.Daemon.Run.Mode.{blocked}
use local_parental_control.Text.{Str}
use local_parental_control.Dict.{lookup}
use local_parental_control.Daemon.Tick.Locks.{is_locked, lock_all-is_locked}
use local_parental_control.Daemon.Run.Iterations.{tick-Shows}

-- No call of a save, and none of the removal of the marker, fails.
abbrev pub IsHealthy : World → Type 0
IsHealthy w =
    ((step : FileStep) → w.usage_faults step ≡ false)
    × ((step : FileStep) → w.removal_faults step ≡ false)

save_state_healthy :
    (fails : Faults) (state : UsageState) (disk : Disk)
    → ((step : FileStep) → fails step ≡ false)
    → (save_state fails state disk).1 ≡ none
unfolding save_state replace_file
save_state_healthy fails state disk h = rw (
  h make_directory,
  h validate_directory,
  h encode_state,
  h create_temporary,
  h change_mode,
  h write_data,
  h sync_file,
  h close_file,
  h rename_file,
  h sync_directory,
)

remove_marker_healthy :
    (fails : Faults) (disk : Disk)
    → ((step : FileStep) → fails step ≡ false)
    → (remove_marker fails disk).1 ≡ none
unfolding remove_marker
remove_marker_healthy fails disk h = rw (h remove_file, h sync_directory)

retry_healthy :
    (w : World) (m : Machine) → IsHealthy w → mode (retry_state_persistence w m).0 ≡ normal
unfolding retry_state_persistence resume
retry_healthy w m (usage, marker) =
    let (written, save_error) = save_state w.usage_faults m.service.state m.disk in
    rw (
      retry_state_persistence,
      save_state_healthy w.usage_faults m.service.state m.disk usage,
      remove_marker_healthy w.removal_faults written marker,
    )

retry_error_healthy :
    (w : World) (m : Machine) → IsHealthy w → (retry_state_persistence w m).1 ≡ none
unfolding retry_state_persistence
retry_error_healthy w m (usage, marker) =
    let (written, save_error) = save_state w.usage_faults m.service.state m.disk in
    rw (
      retry_state_persistence,
      save_state_healthy w.usage_faults m.service.state m.disk usage,
      remove_marker_healthy w.removal_faults written marker,
    )

retrying_recovery :
    (o : Option StateRecovery)
    → mode_of o ≡ retrying
    → (r : StateRecovery) × (o ≡ some r) × (r.reset_required ≡ false)
retrying_recovery none h = cc
retrying_recovery (some r) h = elim (Bool-cases r.reset_required) [
  | inl required ↦ absurd (cc (rw required at h))
  | inr not_required ↦ (r, refl, not_required)
]

tick_healthy :
    (w : World) (m : Machine) → IsHealthy w → mode m ≡ retrying → mode (tick w m).0 ≡ normal
unfolding tick recovery_tick
tick_healthy w m healthy h =
    let (r, waits, retries) = retrying_recovery m.service.recovery h in
    rw (waits, tick, recovery_tick, retries, retry_error_healthy w m healthy)
      (retry_healthy w m healthy)

-- Some world of the list has files that can be written.
abbrev pub SomeHealthy : List World → Type 0
SomeHealthy [] = ⊥
SomeHealthy (w ∷ worlds) = IsHealthy w ⊎ SomeHealthy worlds

-- One of the machines that the iterations pass through runs normally.
abbrev pub Resumes : List World → Machine → Type 0
Resumes [] m = mode m ≡ normal
Resumes (w ∷ worlds) m = (mode m ≡ normal) ⊎ Resumes worlds (tick w m).0

Resumes-here : (worlds : List World) (m : Machine) → mode m ≡ normal → Resumes worlds m
Resumes-here [] m h = h
Resumes-here (w ∷ worlds) m h = inl h

-- From retrying, an iteration leads to retrying or to normal.
retrying_next :
    {k : Kind} {a b : Mode} {x y : Marker}
    → ViewStep k a x b y
    → a ≡ retrying
    → k ≡ by_iteration
    → (b ≡ retrying) ⊎ (b ≡ normal)
retrying_next (stay e f) h i = inl (e ∙ h)
retrying_next (save_failed e f w) h i = absurd (cc (sym e ∙ h))
retrying_next (halted j e f w) h i = absurd (cc (sym e ∙ h))
retrying_next (unsaved j e f w) h i = inl f
retrying_next (saved j e f w) h i = inr f
retrying_next (unrecovered j waits e f) h i = absurd (cc (sym j ∙ i))
retrying_next (recovered j e f) h i = inr e

-- A service that retries to save its state runs normally again at the latest after the first
-- iteration at which no call of the save, and none of the removal of the marker, fails, whatever
-- fails in the iterations before.
pub retrying-Resumes :
    (worlds : List World) (m : Machine) → mode m ≡ retrying → SomeHealthy worlds → Resumes worlds m
retrying-Resumes [] m h some_healthy = absurd some_healthy
retrying-Resumes (w ∷ worlds) m h (inl healthy) =
    inr (Resumes-here worlds (tick w m).0 (tick_healthy w m healthy h))
retrying-Resumes (w ∷ worlds) m h (inr later) = elim (retrying_next (tick-Shows w m) h refl) [
  | inl still ↦ inr (retrying-Resumes worlds (tick w m).0 still later)
  | inr resumed ↦ inr (Resumes-here worlds (tick w m).0 resumed)
]

blocked_recovery :
    (o : Option StateRecovery)
    → mode_of o ≡ blocked
    → (r : StateRecovery) × (o ≡ some r) × (r.reset_required ≡ true)
blocked_recovery none h = cc
blocked_recovery (some r) h = elim (Bool-cases r.reset_required) [
  | inl required ↦ (r, refl, required)
  | inr not_required ↦ absurd (cc (rw not_required at h))
]

-- Each iteration of a blocked service requests a lock for every monitored UID, whatever the time of
-- day and whatever the sessions, the scan and the files answer.
pub blocked-is_locked :
    (w : World) (m : Machine) (uid : ℕ) (username : Str)
    → mode m ≡ blocked
    → lookup uid m.service.uid_users ≡ some username
    → is_locked uid (tick w m).0.log ≡ true
unfolding tick recovery_tick
blocked-is_locked w m uid username h e =
    let (r, waits, required) = blocked_recovery m.service.recovery h in
    rw (waits, tick, recovery_tick, required)
      (lock_all-is_locked uid recovery_required m.service.uid_users m username e)

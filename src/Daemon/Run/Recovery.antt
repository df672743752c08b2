-- ===== src/Daemon/Run/Recovery.antt =====
-- What follows for every life of the daemon: where a recovery marker can stand, that a block lasts
-- until an administrator recovers the state, and that retrying ends.
use local_parental_control.Daemon.Run.Mode.{
  Mode, Kind, mode, ViewStep, normal, stay, retrying, mode_of, save_failed, halted, unsaved, saved,
  unrecovered, recovered, by_recovery, kind,
}
use local_parental_control.Daemon.Service.{Machine, StateRecovery, World, Service}
use local_parental_control.Daemon.Store.{Marker, absent, reset, Disk, load_recovery_marker}
use local_parental_control.Base.{
  ◌≡◌, ◌≢◌, ◌∙◌, sym, inl, inr, Option-cases, some, ap, Bool-cases, ok, Result-cases, subst, ok-inj,
}
use local_parental_control.Text.{Str}
use local_parental_control.Config.{Config}
use local_parental_control.Daemon.Run.Mode.{blocked}
use local_parental_control.Daemon.Run.{start_state, new_service, Move, Call, call, perform, restart}
use local_parental_control.Daemon.Load.{load_service_state, load_state, StateReader}
use local_parental_control.Daemon.Run.Commands.{perform-ViewStep}
use local_parental_control.Daemon.Users.{LookupUser, resolve_users}
use local_parental_control.Daemon.Load.Laws.{load_service_state_sound}

-- A service that runs has no recovery marker on disk, and one that retries none that asks for a reset.
abbrev pub IsConsistentView : Mode → Marker → Type 0
IsConsistentView a x = (a ≡ normal → x ≡ absent) × (a ≡ retrying → x ≢ reset)

abbrev pub IsConsistent : Machine → Type 0
IsConsistent m = IsConsistentView (mode m) m.disk.marker

absent_weak : {x : Marker} → x ≡ absent → x ≢ reset
absent_weak e k = cc (sym e ∙ k)

ViewStep-IsConsistentView :
    {k : Kind} {a b : Mode} {x y : Marker}
    → ViewStep k a x b y
    → IsConsistentView a x
    → IsConsistentView b y
ViewStep-IsConsistentView (stay e f) (runs, retries) =
    (λ h. f ∙ runs (sym e ∙ h), λ h g. retries (sym e ∙ h) (sym f ∙ g))
ViewStep-IsConsistentView (save_failed e f (inl g)) (runs, retries) =
    (λ h. cc (sym f ∙ h), λ h. absent_weak (g ∙ runs e))
ViewStep-IsConsistentView (save_failed e f (inr (g, weak))) (runs, retries) =
    (λ h. cc (sym f ∙ h), λ h k. cc (sym g ∙ k))
ViewStep-IsConsistentView (halted i e f g) (runs, retries) =
    (λ h. cc (sym f ∙ h), λ h. cc (sym f ∙ h))
ViewStep-IsConsistentView (unsaved i e f (inl g)) (runs, retries) =
    (λ h. absurd (cc (sym f ∙ h)), λ h k. retries e (sym g ∙ k))
ViewStep-IsConsistentView (unsaved i e f (inr g)) (runs, retries) =
    (λ h. cc (sym f ∙ h), λ h. absent_weak g)
ViewStep-IsConsistentView (saved i e f g) (runs, retries) = (λ h. g, λ h. cc (sym f ∙ h))
ViewStep-IsConsistentView (unrecovered i waits e f) (runs, retries) =
    (λ h. absurd (waits (sym e ∙ h)), λ h. f (sym e ∙ h) (retries (sym e ∙ h)))
ViewStep-IsConsistentView (recovered i f g) (runs, retries) = (λ h. g, λ h. cc (sym f ∙ h))

load_reset :
    (reader : StateReader) (disk : Disk) (date : Str)
    → disk.marker ≡ reset
    → mode_of (load_service_state reader disk date).1 ≡ blocked
unfolding load_service_state load_recovery_marker
load_reset reader disk date e = elim (Option-cases (load_state reader disk.usage date).1) [
  | inl fine ↦ rw (e, load_service_state, fine) (rw e)
  | inr (problem, bad) ↦ rw (e, load_service_state, bad)
]

-- A start keeps a block that the marker records.
start_state_blocked :
    (reader : StateReader) (cfg : Config) (disk : Disk) (date : Str)
    → disk.marker ≡ reset
    → mode_of (start_state reader cfg disk date).1 ≡ blocked
unfolding start_state
start_state_blocked reader cfg disk date e =
    let loaded = load_reset reader disk date e in
    elim (Option-cases (load_service_state reader disk date).1) [
      | inl none_needed ↦ cc (rw none_needed at loaded)
      | inr (r, needed) ↦ rw (start_state, needed) (rw needed at loaded)
    ]

waits_not_normal : (r : StateRecovery) → mode_of (some r) ≢ normal
waits_not_normal r h = elim (Bool-cases r.reset_required) [
  | inl required ↦ cc (rw required at h)
  | inr not_required ↦ cc (rw not_required at h)
]

start_state-IsConsistentView :
    (reader : StateReader) (cfg : Config) (disk : Disk) (date : Str)
    → IsConsistentView (mode_of (start_state reader cfg disk date).1) disk.marker
unfolding start_state
start_state-IsConsistentView reader cfg disk date = (
  λ h. elim (Option-cases (load_service_state reader disk date).1) [
    | inl none_needed ↦ (load_service_state_sound reader disk date none_needed).0
    | inr (r, needed) ↦ absurd (waits_not_normal r (rw (start_state, needed) at h))
  ],
  λ h marked. cc (sym h ∙ start_state_blocked reader cfg disk date marked),
)

-- What `New` gives.
new_service_facts :
    (w : World) (reader : StateReader) (lookup_user : LookupUser) (cfg : Config) (disk : Disk)
    {n : Machine}
    → new_service w reader lookup_user cfg disk ≡ ok n
    → (n.disk ≡ disk)
      × (n.service.recovery ≡ (start_state reader cfg disk ((w.zone_of cfg.timezone).date w.now)).1)
unfolding new_service
new_service_facts w reader lookup_user cfg disk {n} e =
    elim (Result-cases (resolve_users lookup_user cfg)) [
      | inl (problem, bad) ↦ absurd (cc (rw (new_service, bad) at e))
      | inr (users, good) ↦
          let same = ok-inj (rw (new_service, good) at e) in
          (ap Machine.disk (sym same), ap (λ m. Service.recovery (Machine.service m)) (sym same))
    ]

new_service-IsConsistent :
    (w : World) (reader : StateReader) (lookup_user : LookupUser) (cfg : Config) (disk : Disk)
    {n : Machine}
    → new_service w reader lookup_user cfg disk ≡ ok n
    → IsConsistent n
new_service-IsConsistent w reader lookup_user cfg disk {n} e =
    let (files, recovery) = new_service_facts w reader lookup_user cfg disk e in
    subst (λ d. IsConsistentView (mode n) (Disk.marker d)) (sym files)
      (subst (λ r. IsConsistentView (mode_of r) disk.marker) (sym recovery)
        (start_state-IsConsistentView reader cfg disk ((w.zone_of cfg.timezone).date w.now)))

-- The machines that a start from any files, and calls and restarts in any order, can reach.
pub data Life : Machine → Type 0 where
  begin :
      (w : World) (reader : StateReader) (lookup_user : LookupUser) (cfg : Config) (disk : Disk)
      {m : Machine}
      → new_service w reader lookup_user cfg disk ≡ ok m
      → Life m
  later : {m n : Machine} → Life m → Move m n → Life n

Move-IsConsistent : {m n : Machine} → Move m n → IsConsistent m → IsConsistent n
Move-IsConsistent {m} (call c) h = ViewStep-IsConsistentView (perform-ViewStep c m) h
Move-IsConsistent {m} (restart w reader lookup_user cfg e) h =
    new_service-IsConsistent w reader lookup_user cfg m.disk e

-- In every life of the daemon, whatever fails: a service that runs normally has no recovery marker
-- on disk, and one that retries to save its state has none that asks for a reset.
pub Life-IsConsistent : {m : Machine} → Life m → IsConsistent m
Life-IsConsistent (begin w reader lookup_user cfg disk e) =
    new_service-IsConsistent w reader lookup_user cfg disk e
Life-IsConsistent (later before move) = Move-IsConsistent move (Life-IsConsistent before)

-- A block that is in force and recorded on disk.
abbrev pub IsDurable : Machine → Type 0
IsDurable m = (mode m ≡ blocked) × (m.disk.marker ≡ reset)

-- Calls and restarts none of which is a `recover-state`.
pub data Unrecovered (m : Machine) : Machine → Type 0 where
  here : Unrecovered m m
  called :
      {n : Machine}
      → Unrecovered m n
      → (c : Call) → kind c ≢ by_recovery
      → Unrecovered m (perform c n)
  restarted :
      {n o : Machine}
      → Unrecovered m n
      → (w : World) (reader : StateReader) (lookup_user : LookupUser) (cfg : Config)
      → new_service w reader lookup_user cfg n.disk ≡ ok o
      → Unrecovered m o

view_endures :
    {k : Kind} {a b : Mode} {x y : Marker}
    → ViewStep k a x b y
    → k ≢ by_recovery
    → a ≡ blocked
    → x ≡ reset
    → (b ≡ blocked) × (y ≡ reset)
view_endures (stay e f) other h g = (e ∙ h, f ∙ g)
view_endures (save_failed e f w) other h g = absurd (cc (sym e ∙ h))
view_endures (halted i e f w) other h g = absurd (cc (sym e ∙ h))
view_endures (unsaved i e f w) other h g = absurd (cc (sym e ∙ h))
view_endures (saved i e f w) other h g = absurd (cc (sym e ∙ h))
view_endures (unrecovered i waits e f) other h g = absurd (other i)
view_endures (recovered i e f) other h g = absurd (other i)

-- A block that is in force and recorded on disk stays in force and recorded on disk through any calls
-- and restarts, with any failures and any change of the clock, until a `recover-state` is executed.
pub Unrecovered-IsDurable : {m n : Machine} → Unrecovered m n → IsDurable m → IsDurable n
Unrecovered-IsDurable here h = h
Unrecovered-IsDurable (called {n} before c other) h =
    let (stopped, marked) = Unrecovered-IsDurable before h in
    view_endures (perform-ViewStep c n) other stopped marked
Unrecovered-IsDurable (restarted {n} before w reader lookup_user cfg e) h =
    let (stopped, marked) = Unrecovered-IsDurable before h in
    let (files, recovery) = new_service_facts w reader lookup_user cfg n.disk e in
    (
      ap mode_of recovery
          ∙ start_state_blocked reader cfg n.disk ((w.zone_of cfg.timezone).date w.now) marked,
      ap Disk.marker files ∙ marked,
    )

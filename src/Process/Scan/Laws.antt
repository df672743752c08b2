-- ===== src/Process/Scan/Laws.antt =====
-- What a scan returns, and what becomes of the pidfds that it opens.
use local_parental_control.Base.{
  ℕ, List, [], Option, ◌∷◌, ◌≡◌, some, if◌then◌else◌, ◌+◌, ◌++◌, nat_eq, arith, Option-cases, sym,
  subst, ◌⊎◌, suc, inl, some-inj, refl, none, inr, ◌∙◌, Bool-cases, ap, append_assoc, Bool,
  if_cases, true, false, ◌&&◌,
}
use local_parental_control.Process.Scan.{
  ProcEntry, hold, open_round, scan_round, Round, scan_from, scan_processes, Opened, opened, found,
  skipped, discarded, broken, vanished, refused, trim_deleted,
}
use local_parental_control.Process.{Info}
use local_parental_control.Text.{Str}
use local_parental_control.Config.Paths.{clean}

abbrev pub is_there : Option ℕ → Bool
is_there none = false
is_there (some n) = true

-- How often a descriptor occurs.
abbrev pub count : ℕ → List ℕ → ℕ
count fd [] = 0
count fd (x ∷ fds) = if nat_eq x fd then suc (count fd fds) else count fd fds

-- How many of the processes hold a descriptor.
abbrev pub held : ℕ → List Info → ℕ
held fd [] = 0
held fd (p ∷ infos) = if nat_eq p.pidfd (fd + 1) then suc (held fd infos) else held fd infos

-- The entry is a directory named by a PID whose UID and start time can be read: the loop calls
-- `pidfd_open` for it.
abbrev pub is_tried : ProcEntry → Bool
is_tried e = is_there e.pid && (e.is_dir && (is_there e.uid && is_there e.start_time))

-- The descriptor that `pidfd_open` gives for an entry, whatever becomes of the entry then.
abbrev pub opens : ProcEntry → List ℕ
opens e = elim e.pidfd_open [
  | opened fd ↦ if is_tried e then fd ∷ [] else []
  | vanished ↦ []
  | refused ↦ []
]

-- How often the loop opens a descriptor, if no round breaks it off.
abbrev pub opened_times : ℕ → List ProcEntry → ℕ
opened_times fd [] = 0
opened_times fd (e ∷ entries) = count fd (opens e) + opened_times fd entries

held-append :
    (fd : ℕ) (infos : List Info) (p : Info)
    → held fd (infos ++ p ∷ []) ≡ held fd infos + held fd (p ∷ [])
held-append fd [] p = ground arith
held-append fd (q ∷ infos) p = ground (arith, held-append fd infos p)

hold_found :
    (pid uid start fd : ℕ) (after : Option ℕ) (exe : Option Str) (p : Info)
    → hold pid uid start fd after exe ≡ found p
    → (p.pidfd ≡ fd + 1)
      × (p.start_time ≡ start)
      × (after ≡ some start)
      × (p.pid ≡ pid)
      × (p.uid ≡ uid)
      × ((path : Str) × (exe ≡ some path) × (p.executable ≡ clean (trim_deleted path)))
unfolding hold
hold_found pid uid start fd none exe p e = cc
hold_found pid uid start fd (some again) none p e = ground arith
hold_found pid uid start fd (some again) (some path) p e = (
  ground arith,
  ground arith,
  ground arith,
  ground arith,
  ground arith,
  (path, refl, ground arith),
)

-- A process that was found is the entry: its PID, its UID and the path of its executable were read
-- there, it was opened, and it had the same start time before and after.
abbrev pub IsStable : ProcEntry → Info → Type 0
IsStable e p =
    (fd : ℕ) × (e.pidfd_open ≡ opened fd)
    × (p.pidfd ≡ fd + 1)
    × (e.start_time ≡ some p.start_time)
    × (e.start_time_after ≡ some p.start_time)
    × (e.pid ≡ some p.pid)
    × (e.uid ≡ some p.uid)
    × ((path : Str) × (e.exe ≡ some path) × (p.executable ≡ clean (trim_deleted path)))

open_round_found :
    (o : Opened) (pid uid start : ℕ) (e : ProcEntry) (p : Info)
    → open_round o pid uid start e ≡ found p
    → (fd : ℕ) × (o ≡ opened fd)
      × (p.pidfd ≡ fd + 1)
      × (p.start_time ≡ start)
      × (e.start_time_after ≡ some start)
      × (p.pid ≡ pid)
      × (p.uid ≡ uid)
      × ((path : Str) × (e.exe ≡ some path) × (p.executable ≡ clean (trim_deleted path)))
unfolding open_round
open_round_found (opened fd) pid uid start e p h =
    let (descriptor, begun, again, named, owned, image) =
      hold_found pid uid start fd e.start_time_after e.exe p h in
    (fd, refl, descriptor, begun, again, named, owned, image)
open_round_found vanished pid uid start e p h = cc
open_round_found refused pid uid start e p h = cc

scan_round-IsStable : (e : ProcEntry) (p : Info) → scan_round e ≡ found p → IsStable e p
unfolding scan_round
scan_round-IsStable e p h = elim (Option-cases e.pid) [
  | inl bad ↦ absurd (cc (rw (bad, scan_round) at h))
  | inr (pid, named) ↦ elim (Bool-cases e.is_dir) [
    | inr file ↦ absurd (cc (rw (named, scan_round, file) at h))
    | inl dir ↦ elim (Option-cases e.uid) [
      | inl bad ↦ absurd (cc (rw (named, scan_round, dir, bad) at h))
      | inr (uid, owned) ↦ elim (Option-cases e.start_time) [
        | inl bad ↦ absurd (cc (rw (named, scan_round, dir, owned, bad) at h))
        | inr (start, begun) ↦
            let (fd, handle, held_by, same, again, same_pid, same_uid, image) =
              open_round_found e.pidfd_open pid uid start e p
                (rw (named, scan_round, dir, owned, begun) at h) in
            (
              fd,
              handle,
              held_by,
              begun ∙ ap some (sym same),
              again ∙ ap some (sym same),
              named ∙ ap some (sym same_pid),
              owned ∙ ap some (sym same_uid),
              image,
            )
      ]
    ]
  ]
]

-- The processes of a list were found in the entries, in their order, each with one start time before
-- and after its pidfd was opened; the other entries were passed over.
pub data AreStable : List ProcEntry → List Info → Type 0 where
  done : AreStable [] []
  pass :
      {e : ProcEntry} {entries : List ProcEntry} {infos : List Info}
      → AreStable entries infos
      → AreStable (e ∷ entries) infos
  keep :
      {e : ProcEntry} {p : Info} {entries : List ProcEntry} {infos : List Info}
      → IsStable e p
      → AreStable entries infos
      → AreStable (e ∷ entries) (p ∷ infos)

append_nil : (infos : List Info) → infos ++ [] ≡ infos
append_nil [] = refl
append_nil (p ∷ infos) = ap (λ rest. p ∷ rest) (append_nil infos)

Round-cases :
    (r : Round)
    → (r ≡ skipped)
      ⊎ ((r ≡ broken) ⊎ (((fd : ℕ) × (r ≡ discarded fd)) ⊎ ((p : Info) × (r ≡ found p))))
Round-cases skipped = inl refl
Round-cases broken = inr (inl refl)
Round-cases (discarded fd) = inr (inr (inl (fd, refl)))
Round-cases (found p) = inr (inr (inr (p, refl)))

scan_from-AreStable :
    (entries : List ProcEntry) (before : List Info) (closed : List ℕ) {result : List Info}
    → (scan_from entries before closed).0 ≡ some result
    → (infos : List Info) × (result ≡ before ++ infos) × AreStable entries infos
unfolding scan_from
scan_from-AreStable [] before closed {result} h =
    ([], sym (some-inj h) ∙ sym (append_nil before), done)
scan_from-AreStable (e ∷ entries) before closed {result} h = elim (Round-cases (scan_round e)) [
  | inl a ↦
      let (infos, same, stable) =
        scan_from-AreStable entries before closed {result = result} (rw (a, scan_from) at h) in
      (infos, same, pass stable)
  | inr (inl a) ↦ absurd (cc (rw (a, scan_from) at h))
  | inr (inr (inl (fd, a))) ↦
      let (infos, same, stable) =
        scan_from-AreStable entries before (fd ∷ closed) {result = result}
          (rw (a, scan_from) at h) in
      (infos, same, pass stable)
  | inr (inr (inr (p, a))) ↦
      let (infos, same, stable) =
        scan_from-AreStable entries (before ++ p ∷ []) closed {result = result}
          (rw (a, scan_from) at h) in
      (
        p ∷ infos,
        same ∙ append_assoc before (p ∷ []) infos,
        keep (scan_round-IsStable e p a) stable,
      )
]

-- The processes that a scan returns are some of its entries, in their order: each has the PID, the
-- UID and the executable that were read for its entry, and had the same start time before and after
-- its pidfd was opened, so the pidfd holds the process that was read.
pub scan_processes-AreStable :
    (entries : List ProcEntry) {result : List Info}
    → (scan_processes entries).0 ≡ some result
    → AreStable entries result
unfolding scan_processes
scan_processes-AreStable entries {result} h =
    let (infos, same, stable) = scan_from-AreStable entries [] [] {result = result} h in
    subst (AreStable entries) (sym same) stable

-- What a round that does not break the scan off leaves of the descriptor of its entry.
abbrev Leaves : ProcEntry → Round → Type 0
Leaves e skipped = opens e ≡ []
Leaves e broken = Unit {0}
Leaves e (discarded fd) = opens e ≡ fd ∷ []
Leaves e (found p) = (fd : ℕ) × (opens e ≡ fd ∷ []) × (p.pidfd ≡ fd + 1)

hold-Leaves :
    (e : ProcEntry) (pid uid start fd : ℕ) (after : Option ℕ) (exe : Option Str)
    → opens e ≡ fd ∷ []
    → Leaves e (hold pid uid start fd after exe)
unfolding hold
hold-Leaves e pid uid start fd none exe h = h
hold-Leaves e pid uid start fd (some again) none h =
    if_cases (Leaves e) (nat_eq again start) (λ _. h) (λ _. h)
hold-Leaves e pid uid start fd (some again) (some path) h =
    if_cases (Leaves e) (nat_eq again start) (λ _. (fd, h, refl)) (λ _. h)

open_round-Leaves :
    (e : ProcEntry) (o : Opened) (pid uid start : ℕ)
    → e.pidfd_open ≡ o
    → is_tried e ≡ true
    → Leaves e (open_round o pid uid start e)
unfolding open_round
open_round-Leaves e (opened fd) pid uid start h tried =
    hold-Leaves e pid uid start fd e.start_time_after e.exe (rw (h, tried))
open_round-Leaves e vanished pid uid start h tried = rw h
open_round-Leaves e refused pid uid start h tried = tt

untried_opens : (e : ProcEntry) → is_tried e ≡ false → opens e ≡ []
untried_opens e h = ground arith

scan_round-Leaves : (e : ProcEntry) → Leaves e (scan_round e)
unfolding scan_round
scan_round-Leaves e = elim (Option-cases e.pid) [
  | inl bad ↦ passed_over (rw (scan_round, bad)) (ground arith)
  | inr (pid, named) ↦ elim (Bool-cases e.is_dir) [
    | inr file ↦ passed_over (rw (scan_round, named, file)) (ground arith)
    | inl dir ↦ elim (Option-cases e.uid) [
      | inl bad ↦ passed_over (rw (scan_round, named, dir, bad)) (ground arith)
      | inr (uid, owned) ↦ elim (Option-cases e.start_time) [
        | inl bad ↦ passed_over (rw (scan_round, named, dir, owned, bad)) (ground arith)
        | inr (start, begun) ↦
            let same : open_round e.pidfd_open pid uid start e ≡ scan_round e = ground arith in
            subst (Leaves e) same
              (open_round-Leaves e e.pidfd_open pid uid start refl (ground arith))
      ]
    ]
  ]
]
  where
    passed_over : skipped ≡ scan_round e → is_tried e ≡ false → Leaves e (scan_round e)
    passed_over same untried = subst (Leaves e) same (untried_opens e untried)

-- The entry's descriptor is not opened, is closed, or is held, as the round says.
round-Leaves : (e : ProcEntry) (r : Round) → scan_round e ≡ r → Leaves e r
round-Leaves e r h = subst (Leaves e) h (scan_round-Leaves e)

held_one :
    (fd : ℕ) (e : ProcEntry) (p : Info)
    → scan_round e ≡ found p
    → held fd (p ∷ []) ≡ count fd (opens e)
held_one fd e p h = let (handle, a, b) = round-Leaves e (found p) h in rw a (ground (arith))

scan_from-fds :
    (fd : ℕ) (entries : List ProcEntry) (before : List Info) (closed : List ℕ) {result : List Info}
    → (scan_from entries before closed).0 ≡ some result
    → count fd (scan_from entries before closed).1 + held fd result
      ≡ count fd closed + held fd before + opened_times fd entries
unfolding scan_from
scan_from-fds fd [] before closed {result} h = rw (some-inj h) (omega arith)
scan_from-fds fd (e ∷ entries) before closed {result} h = elim (Round-cases (scan_round e)) [
  | inl a ↦
      let ih = scan_from-fds fd entries before closed {result = result} (rw (a, scan_from) at h) in
      let nothing = round-Leaves e skipped a in rw (a, scan_from, nothing) (omega arith)
  | inr (inl a) ↦ absurd (cc (rw (a, scan_from) at h))
  | inr (inr (inl (x, a))) ↦
      let ih =
        scan_from-fds fd entries before (x ∷ closed) {result = result} (rw (a, scan_from) at h) in
      let one = round-Leaves e (discarded x) a in rw (a, scan_from, one) (ground (arith))
  | inr (inr (inr (p, a))) ↦
      let ih =
        scan_from-fds fd entries (before ++ p ∷ []) closed {result = result}
          (rw (a, scan_from) at h) in
      let grown = held-append fd before p in
      let one = held_one fd e p a in rw (a, scan_from) (omega arith)
]

-- A scan that succeeds loses no pidfd: every descriptor was closed by the scan or is held by a
-- process that it returns, as often as it was opened.
pub scan_processes-fds :
    (fd : ℕ) (entries : List ProcEntry) {result : List Info}
    → (scan_processes entries).0 ≡ some result
    → count fd (scan_processes entries).1 + held fd result ≡ opened_times fd entries
unfolding scan_processes
scan_processes-fds fd entries {result} h =
    let all = scan_from-fds fd entries [] [] {result = result} h in omega arith

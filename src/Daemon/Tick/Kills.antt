-- ===== src/Daemon/Tick/Kills.antt =====
-- Forced terminations: SIGKILL goes only to the very process whose grace period is over, and the
-- pending kills that are left are exactly those that are not due.
use local_parental_control.Process.{Info, same_identity, kill}
use local_parental_control.Daemon.Service.{World, Event, PendingTermination, signalled}
use local_parental_control.Daemon.Tick.{still_runs, kill_due}
use local_parental_control.Int.{ℤ, leb_ℤ, ◌≤ℤ◌}
use local_parental_control.Base.{
  List, ℕ, ◌∷◌, ◌≡◌, true, ◌⊎◌, some, inl, Bool-cases, if◌then◌else◌, [], arith, inr, ap,
  Option-cases, refl, ℕ_eq, ◌∙◌,
}
use local_parental_control.Dict.{Dict, lookup}

abbrev pub IsKill : Info → Event → Type 0
IsKill p (signalled kill q) = q ≡ p
IsKill p _ = ⊥

-- The log holds a SIGKILL to the process.
abbrev pub Killed : Info → List Event → Type 0
Killed p [] = ⊥
Killed p (e ∷ log) = IsKill p e ⊎ Killed p log

-- One of the pending kills is due and names the process, and the scan found it under its PID.
abbrev pub Justified : World → Dict ℕ Info → Info → Dict ℕ PendingTermination → Type 0
Justified w current p [] = ⊥
Justified w current p ((pid, pending) ∷ kills) =
    ((pending.deadline ≤ℤ w.now)
      × (lookup pid current ≡ some p)
      × (same_identity p pending.process ≡ true))
    ⊎ Justified w current p kills

still_runs_sound :
    (current : Dict ℕ Info) (pid : ℕ) (pending : PendingTermination) (p : Info)
    → still_runs current pid pending ≡ some p
    → (lookup pid current ≡ some p) × (same_identity p pending.process ≡ true)
unfolding still_runs
still_runs_sound current pid pending p e = elim (Option-cases (lookup pid current)) [
  | inl gone ↦ ground arith
  | inr (q, there) ↦ ground arith
]

leb_ℤ→≤ℤ : (a b : ℤ) → leb_ℤ a b ≡ true → a ≤ℤ b
leb_ℤ→≤ℤ a b h = ground arith

-- Every SIGKILL that the loop sends is justified by a pending kill that is due.
pub kill_due-Justified :
    (w : World) (current : Dict ℕ Info) (kills : Dict ℕ PendingTermination) (log : List Event)
    (p : Info)
    → Killed p (kill_due w current kills log).1
    → Killed p log ⊎ Justified w current p kills
unfolding kill_due
kill_due-Justified w current [] log p k = inl k
kill_due-Justified w current ((pid, pending) ∷ kills) log p k =
    elim (Bool-cases (leb_ℤ pending.deadline w.now)) [
      | inr early ↦ elim (kill_due-Justified w current kills log p (rw (early, kill_due) at k)) [
        | inl old ↦ inl old
        | inr later ↦ inr (inr later)
      ]
      | inl due ↦ elim (Option-cases (still_runs current pid pending)) [
        | inl gone ↦
            elim (kill_due-Justified w current kills log p (rw (due, kill_due, gone) at k)) [
              | inl old ↦ inl old
              | inr later ↦ inr (inr later)
            ]
        | inr (q, there) ↦
            elim (kill_due-Justified w current kills (signalled kill q ∷ log) p
              (rw (due, kill_due, there) at k)) [
                | inl (inl same) ↦
                    let (found, named) =
                      still_runs_sound current pid pending p (there ∙ ap some same) in
                    inr (inl (leb_ℤ→≤ℤ pending.deadline w.now due, found, named))
                | inl (inr old) ↦ inl old
                | inr later ↦ inr (inr later)
              ]
      ]
    ]

-- The pending kills that are kept are those whose deadline has not come, in their order.
abbrev pub not_due : World → Dict ℕ PendingTermination → Dict ℕ PendingTermination
not_due w [] = []
not_due w ((pid, pending) ∷ kills) =
    if leb_ℤ pending.deadline w.now then not_due w kills else (pid, pending) ∷ not_due w kills

-- After the loop over the pending kills exactly those are left whose deadline has not come, in their
-- order, whichever processes the scan found.
pub kill_due-not_due :
    (w : World) (current : Dict ℕ Info) (kills : Dict ℕ PendingTermination) (log : List Event)
    → (kill_due w current kills log).0 ≡ not_due w kills
unfolding kill_due
kill_due-not_due w current [] log = refl
kill_due-not_due w current ((pid, pending) ∷ kills) log =
    elim (Bool-cases (leb_ℤ pending.deadline w.now)) [
      | inl due ↦ rw due (kill_due-not_due w current kills _)
      | inr early ↦ rw early (ap (λ l. (pid, pending) ∷ l) (kill_due-not_due w current kills _))
    ]

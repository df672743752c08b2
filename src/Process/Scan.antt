-- ===== src/Process/Scan.antt =====
-- `Scan` of internal/process/process.go: the processes of /proc, each behind a pidfd.
pub mod Laws
mod Tests
use local_parental_control.Base.{
  ℕ, Option, List, none, Bool, some, ◌∷◌, [], if◌then◌else◌, ◌++◌, nat_eq, not, ◌==◌, ◌+◌,
}
use local_parental_control.Text.{str_eq, Str, codes}
use local_parental_control.Process.{Info}
use local_parental_control.Config.Paths.{clean}

-- `pidfd_open`: a descriptor, a process that is gone (ESRCH), or another error.
pub data Opened : Type 0 where
  opened : ℕ → Opened
  vanished refused : Opened

-- What one directory entry gives, in the order in which the loop reads it; `none` is an error.
pub record ProcEntry : Type 0 where
  pub pid : Option ℕ
  pub is_dir : Bool
  pub uid : Option ℕ
  pub start_time : Option ℕ
  pub pidfd_open : Opened
  pub start_time_after : Option ℕ
  pub exe : Option Str

-- How one round of the loop ends: nothing was opened, a descriptor was closed again, the scan fails,
-- or a process was found.
pub data Round : Type 0 where
  skipped broken : Round
  discarded : ℕ → Round
  found : Info → Round

-- `strings.TrimSuffix(s, " (deleted)")`
unfoldable pub trim_deleted : Str → Str
trim_deleted [] = []
trim_deleted (c ∷ s) = if (c ∷ s) == codes " (deleted)" then [] else c ∷ trim_deleted s

-- The round of a process whose pidfd is open.
unfoldable pub hold : ℕ → ℕ → ℕ → ℕ → Option ℕ → Option Str → Round
hold pid uid start_time fd start_time_after exe = elim start_time_after [
  | none ↦ discarded fd
  | some again ↦
      if nat_eq again start_time
      then (elim exe [
        | none ↦ discarded fd
        | some path ↦ found (record {
          pid = pid;
          uid = uid;
          executable = clean (trim_deleted path);
          start_time = start_time;
          pidfd = fd + 1;
        })
      ])
      else discarded fd
]

unfoldable pub open_round : Opened → ℕ → ℕ → ℕ → ProcEntry → Round
open_round (opened fd) pid uid start_time e = hold pid uid start_time fd e.start_time_after e.exe
open_round vanished pid uid start_time e = skipped
open_round refused pid uid start_time e = broken

unfoldable pub scan_round : ProcEntry → Round
scan_round e = elim e.pid [
  | none ↦ skipped
  | some pid ↦ if not e.is_dir then skipped else (elim e.uid [
    | none ↦ skipped
    | some uid ↦ elim e.start_time [
      | none ↦ skipped
      | some start_time ↦ open_round e.pidfd_open pid uid start_time e
    ]
  ])
]

-- The loop, with the descriptors that it closed; `none` is an error.
unfoldable pub scan_from : List ProcEntry → List Info → List ℕ → Option (List Info) × List ℕ
scan_from [] infos closed = (some infos, closed)
scan_from (e ∷ entries) infos closed = elim (scan_round e) [
  | skipped ↦ scan_from entries infos closed
  | broken ↦ (none, closed)
  | discarded fd ↦ scan_from entries infos (fd ∷ closed)
  | found p ↦ scan_from entries (infos ++ p ∷ []) closed
]

unfoldable pub scan_processes : List ProcEntry → Option (List Info) × List ℕ
scan_processes entries = scan_from entries [] []

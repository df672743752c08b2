-- ===== src/Process/Scan/Tests.antt =====
-- A scan of a shell, a process whose PID was reused while the scan ran, and a file of /proc.
use local_parental_control.Process.Scan.Laws.{
  count, AreStable, held, scan_processes-AreStable, opened_times, scan_processes-fds,
}
use local_parental_control.Process.Scan.{
  ProcEntry, scan_processes, scan_from, opened, scan_round, open_round, hold, trim_deleted,
}
use local_parental_control.Base.{refl, List, some, none, ◌∷◌, ◌+◌, true, [], ◌≡◌, ap}
use local_parental_control.Process.{Info}
use local_parental_control.Text.{has_prefix, codes, split, split_first, join}
use local_parental_control.Config.Paths.{clean, clean_from, clean_element, elements_of, is_abs}

abbrev shell_entry : ProcEntry
shell_entry = record {
  pid = some 7;
  is_dir = true;
  uid = some 1000;
  start_time = some 3;
  pidfd_open = opened 10;
  start_time_after = some 3;
  exe = some (codes "/bin/sh (deleted)");
}

abbrev reused : ProcEntry
reused = record shell_entry { pid = some 8; pidfd_open = opened 11; start_time_after = some 9 }

abbrev version_file : ProcEntry
version_file = record shell_entry { pid = none }

abbrev entries : List ProcEntry
entries = shell_entry ∷ reused ∷ version_file ∷ []

abbrev shell : Info
shell = record { pid = 7; uid = 1000; executable = codes "/bin/sh"; start_time = 3; pidfd = 11 }

scanned_shell : scan_processes entries ≡ (some (shell ∷ []), 11 ∷ [])
unfolding scan_processes scan_from scan_round open_round hold trim_deleted clean clean_from
    clean_element elements_of is_abs split split_first join has_prefix
scanned_shell = refl

scan_processes-AreStable_example : AreStable entries (shell ∷ [])
scan_processes-AreStable_example = scan_processes-AreStable entries (ap (λ r. r.0) scanned_shell)

scan_processes-fds_example :
    count 10 (scan_processes entries).1 + held 10 (shell ∷ []) ≡ opened_times 10 entries
scan_processes-fds_example = scan_processes-fds 10 entries (ap (λ r. r.0) scanned_shell)

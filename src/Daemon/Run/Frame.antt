-- ===== src/Daemon/Run/Frame.antt =====
-- What an iteration does to the recovery and the files before it saves the state: nothing.
use local_parental_control.Daemon.Service.{
  Machine, lock_all, World, lock, Service, LockReason, location,
}
use local_parental_control.Daemon.Terminate.{terminate_process}
use local_parental_control.Daemon.Tick.{
  see_process, see_processes, enforce_user, account_users, enforce_apps, Seen, no_one,
  unlocked_users, charge_user, add_active, sample_users,
}
use local_parental_control.Config.Clock.{Zone}
use local_parental_control.Daemon.Iteration.{finish_kills, begin_sample, monitor, persist, scanned}
use local_parental_control.Base.{◌≡◌, ◌∙◌, List, ℕ, arith, ◌∷◌, Bool, [], refl}
use local_parental_control.Daemon.State.{Instant}
use local_parental_control.Process.{Info}
use local_parental_control.Dict.{Dict}
use local_parental_control.Text.{Str}
use local_parental_control.Int.{ℤ}
use local_parental_control.Daemon.Tick.Setup.{charge_user-IsSameSetup}

-- The recovery and the files are the same.
pub record IsSameRest (m n : Machine) : Type 0 where
  pub recovery : n.service.recovery ≡ m.service.recovery
  pub disk : n.disk ≡ m.disk

pub IsSameRest-refl : (m : Machine) → IsSameRest m m
IsSameRest-refl m = record { recovery = refl; disk = refl }

pub IsSameRest-trans : {m n o : Machine} → IsSameRest m n → IsSameRest n o → IsSameRest m o
IsSameRest-trans p q = record { recovery = q.recovery ∙ p.recovery; disk = q.disk ∙ p.disk }

terminate_process-IsSameRest :
    (w : World) (p : Info) (m : Machine) → IsSameRest m (terminate_process w p m)
unfolding terminate_process
terminate_process-IsSameRest w p m = ground arith

see_process-IsSameRest :
    (w : World) (p : Info) (found : Machine × Seen) → IsSameRest found.0 (see_process w p found).0
unfolding see_process
see_process-IsSameRest w p found = ground (arith, terminate_process-IsSameRest w p found.0)

see_processes-IsSameRest :
    (w : World) (processes : List Info) (found : Machine × Seen)
    → IsSameRest found.0 (see_processes w processes found).0
unfolding see_processes
see_processes-IsSameRest w [] found = IsSameRest-refl found.0
see_processes-IsSameRest w (p ∷ processes) found =
    IsSameRest-trans (see_process-IsSameRest w p found)
      (see_processes-IsSameRest w processes (see_process w p found))

enforce_user-IsSameRest :
    (w : World) (uid : ℕ) (username : Str) (m : Machine)
    → IsSameRest m (enforce_user w uid username m)
unfolding enforce_user lock
enforce_user-IsSameRest w uid username m = ground arith

charge_user-recovery :
    (zone : Zone) (start now : Instant) (active_users unlocked : Dict Str Bool) (username : Str)
    (found : Service × Dict Str ℤ)
    → (charge_user zone start now active_users unlocked username found).0.recovery
      ≡ found.0.recovery
charge_user-recovery zone start now active_users unlocked username found =
    (charge_user-IsSameSetup zone start now active_users unlocked username found).recovery

account_users-IsSameRest :
    (w : World) (start : Instant) (active_users unlocked : Dict Str Bool) (users : Dict ℕ Str)
    (m : Machine) (counted : Dict Str ℤ)
    → IsSameRest m (account_users w start active_users unlocked users (m, counted)).0
unfolding account_users
account_users-IsSameRest w start active_users unlocked [] m counted = IsSameRest-refl m
account_users-IsSameRest w start active_users unlocked ((uid, username) ∷ users) m counted =
    let (s, more) =
      charge_user (location w m) start w.now active_users unlocked username (m.service, counted) in
    IsSameRest-trans
      (IsSameRest-trans
        (record {
          recovery =
              charge_user-recovery (location w m) start w.now active_users unlocked username
                (m.service, counted);
          disk = refl;
        })
        (enforce_user-IsSameRest w uid username (record m { service = s })))
      (account_users-IsSameRest w start active_users unlocked users _ more)

enforce_apps-IsSameRest :
    (w : World) (processes : List Info) (m : Machine) → IsSameRest m (enforce_apps w processes m)
unfolding enforce_apps
enforce_apps-IsSameRest w [] m = IsSameRest-refl m
enforce_apps-IsSameRest w (p ∷ processes) m =
    IsSameRest-trans (ground (arith, terminate_process-IsSameRest w p m))
      (enforce_apps-IsSameRest w processes _)

finish_kills-IsSameRest :
    (w : World) (current : Dict ℕ Info) (m : Machine) → IsSameRest m (finish_kills w current m)
unfolding finish_kills
finish_kills-IsSameRest w current m = ground arith

begin_sample-recovery : (w : World) (s : Service) → (begin_sample w s).recovery ≡ s.recovery
unfolding begin_sample
begin_sample-recovery w s = ground arith

-- An iteration from the scan on ends as the saving of a machine with the same recovery and files.
pub monitor-persist :
    (w : World) (start : Instant) (m : Machine)
    → (n : Machine) × IsSameRest m n × IsSameRest (persist w n).0 (monitor w start m).0
unfolding monitor
monitor-persist w start m =
    let begun : Machine = record m { service = begin_sample w m.service } in
    let (seen_machine, seen) = see_processes w (scanned w) (begun, no_one) in
    let unlocked : Dict Str Bool =
      unlocked_users w seen.active_users seen_machine.service.uid_users [] in
    let (charged, counted) =
      account_users w start seen.active_users unlocked seen_machine.service.uid_users
        (seen_machine, []) in
    let s : Service = charged.service in
    let sampled : Machine = record charged {
      service = record s {
        state = add_active counted s.previous_apps seen.active s.state;
        previous_users = sample_users seen.active_users unlocked;
        previous_apps = seen.active;
      };
    } in
    let before : IsSameRest m charged =
      IsSameRest-trans {n = begun}
        (record { recovery = begin_sample-recovery w m.service; disk = refl })
        (IsSameRest-trans (see_processes-IsSameRest w (scanned w) (begun, no_one)) (
          account_users-IsSameRest w start seen.active_users unlocked seen_machine.service.uid_users
            seen_machine [])) in
    (
      finish_kills w seen.current (enforce_apps w (scanned w) sampled),
      IsSameRest-trans {n = sampled}
          (IsSameRest-trans before (record { recovery = refl; disk = refl }))
          (IsSameRest-trans (enforce_apps-IsSameRest w (scanned w) sampled)
            (finish_kills-IsSameRest w seen.current _)),
      record { recovery = refl; disk = refl },
    )

pub lock_all-IsSameRest :
    (why : LockReason) (users : Dict ℕ Str) (m : Machine) → IsSameRest m (lock_all why users m)
unfolding lock_all lock
lock_all-IsSameRest why [] m = IsSameRest-refl m
lock_all-IsSameRest why ((uid, username) ∷ users) m =
    IsSameRest-trans {n = lock uid why m} (record { recovery = refl; disk = refl })
      (lock_all-IsSameRest why users (lock uid why m))

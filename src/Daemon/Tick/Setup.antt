-- ===== src/Daemon/Tick/Setup.antt =====
-- The parts of the service that the loops of an iteration leave alone.
use local_parental_control.Daemon.Service.{Service, World, lock, Machine}
use local_parental_control.Daemon.Terminate.{terminate_process}
use local_parental_control.Daemon.Tick.{
  see_process, see_processes, charge_user, enforce_user, enforce_apps, Seen,
}
use local_parental_control.Config.Clock.{Zone}
use local_parental_control.Base.{◌≡◌, ◌∙◌, List, ℕ, refl, arith, Bool, ◌∷◌, []}
use local_parental_control.Process.{Info}
use local_parental_control.Daemon.State.{Instant}
use local_parental_control.Dict.{Dict}
use local_parental_control.Text.{Str}
use local_parental_control.Int.{ℤ}

pub record IsSameSetup (s t : Service) : Type 0 where
  pub cfg : t.cfg ≡ s.cfg
  pub uid_users : t.uid_users ≡ s.uid_users
  pub recovery : t.recovery ≡ s.recovery
  pub previous_users : t.previous_users ≡ s.previous_users
  pub previous_apps : t.previous_apps ≡ s.previous_apps
  pub last_tick : t.last_tick ≡ s.last_tick

pub IsSameSetup-refl : (s : Service) → IsSameSetup s s
IsSameSetup-refl s = record {
  cfg = refl;
  uid_users = refl;
  recovery = refl;
  previous_users = refl;
  previous_apps = refl;
  last_tick = refl;
}

pub IsSameSetup-trans : {s t u : Service} → IsSameSetup s t → IsSameSetup t u → IsSameSetup s u
IsSameSetup-trans p q = record {
  cfg = q.cfg ∙ p.cfg;
  uid_users = q.uid_users ∙ p.uid_users;
  recovery = q.recovery ∙ p.recovery;
  previous_users = q.previous_users ∙ p.previous_users;
  previous_apps = q.previous_apps ∙ p.previous_apps;
  last_tick = q.last_tick ∙ p.last_tick;
}

pub terminate_process-IsSameSetup :
    (w : World) (p : Info) (m : Machine) → IsSameSetup m.service (terminate_process w p m).service
unfolding terminate_process
terminate_process-IsSameSetup w p m = ground arith

pub see_process-IsSameSetup :
    (w : World) (p : Info) (found : Machine × Seen)
    → IsSameSetup found.0.service (see_process w p found).0.service
unfolding see_process
see_process-IsSameSetup w p found = ground (arith, terminate_process-IsSameSetup w p found.0)

pub see_processes-IsSameSetup :
    (w : World) (processes : List Info) (found : Machine × Seen)
    → IsSameSetup found.0.service (see_processes w processes found).0.service
unfolding see_processes
see_processes-IsSameSetup w [] found = IsSameSetup-refl found.0.service
see_processes-IsSameSetup w (p ∷ processes) found =
    IsSameSetup-trans (see_process-IsSameSetup w p found)
      (see_processes-IsSameSetup w processes (see_process w p found))

pub charge_user-IsSameSetup :
    (zone : Zone) (start now : Instant) (active_users unlocked : Dict Str Bool) (username : Str)
    (found : Service × Dict Str ℤ)
    → IsSameSetup found.0 (charge_user zone start now active_users unlocked username found).0
unfolding charge_user
charge_user-IsSameSetup zone start now active_users unlocked username found = ground arith

pub enforce_user-IsSameSetup :
    (w : World) (uid : ℕ) (username : Str) (m : Machine)
    → IsSameSetup m.service (enforce_user w uid username m).service
unfolding enforce_user lock
enforce_user-IsSameSetup w uid username m = ground arith

pub enforce_apps-IsSameSetup :
    (w : World) (processes : List Info) (m : Machine)
    → IsSameSetup m.service (enforce_apps w processes m).service
unfolding enforce_apps
enforce_apps-IsSameSetup w [] m = IsSameSetup-refl m.service
enforce_apps-IsSameSetup w (p ∷ processes) m =
    IsSameSetup-trans (ground (arith, terminate_process-IsSameSetup w p m))
      (enforce_apps-IsSameSetup w processes _)

-- ===== src/Daemon/Iteration/Counters.antt =====
-- The loops over the processes leave the usage state alone, and the application counters that are
-- added leave the device counters alone.
use local_parental_control.Daemon.Terminate.{terminate_process, add}
use local_parental_control.Daemon.Tick.{
  see_process, see_processes, enforce_apps, add_apps, add_active, Seen,
}
use local_parental_control.Daemon.Iteration.{finish_kills, persist}
use local_parental_control.Daemon.Service.{World, enter_state_recovery, Machine}
use local_parental_control.Dict.{Dict, get_or}
use local_parental_control.Process.{Info}
use local_parental_control.Base.{List, ℕ, ◌≡◌, arith, Bool, ◌∷◌, ◌∙◌, [], refl}
use local_parental_control.Text.{Str, str_eq}
use local_parental_control.Int.{ℤ, pos}
use local_parental_control.Daemon.State.{UsageState}

terminate_process-state :
    (w : World) (p : Info) (m : Machine) → (terminate_process w p m).service.state ≡ m.service.state
unfolding terminate_process
terminate_process-state w p m = ground arith

see_process-state :
    (w : World) (p : Info) (found : Machine × Seen)
    → (see_process w p found).0.service.state ≡ found.0.service.state
unfolding see_process
see_process-state w p found = ground (arith, terminate_process-state w p found.0)

pub see_processes-state :
    (w : World) (processes : List Info) (found : Machine × Seen)
    → (see_processes w processes found).0.service.state ≡ found.0.service.state
unfolding see_processes
see_processes-state w [] found = refl
see_processes-state w (p ∷ processes) found =
    see_processes-state w processes (see_process w p found) ∙ see_process-state w p found

pub enforce_apps-state :
    (w : World) (processes : List Info) (m : Machine)
    → (enforce_apps w processes m).service.state ≡ m.service.state
unfolding enforce_apps
enforce_apps-state w [] m = refl
enforce_apps-state w (p ∷ processes) m =
    enforce_apps-state w processes _ ∙ ground (arith, terminate_process-state w p m)

pub finish_kills-state :
    (w : World) (current : Dict ℕ Info) (m : Machine)
    → (finish_kills w current m).service.state ≡ m.service.state
unfolding finish_kills
finish_kills-state w current m = ground arith

pub persist-state : (w : World) (m : Machine) → (persist w m).0.service.state ≡ m.service.state
unfolding persist enter_state_recovery
persist-state w m = ground arith

add_apps-device :
    (username : Str) (amount : ℤ) (previous apps : Dict Str Bool) (state : UsageState)
    → (add_apps username amount previous apps state).device_seconds ≡ state.device_seconds
unfolding add_apps add
add_apps-device username amount previous [] state = refl
add_apps-device username amount previous ((app, on) ∷ apps) state =
    add_apps-device username amount previous apps _ ∙ ground arith

pub add_active-device :
    (counted : Dict Str ℤ) (previous active : Dict Str (Dict Str Bool)) (state : UsageState)
    → (add_active counted previous active state).device_seconds ≡ state.device_seconds
unfolding add_active
add_active-device counted previous [] state = refl
add_active-device counted previous ((username, apps) ∷ active) state =
    add_active-device counted previous active _
    ∙ ground (
      arith,
      add_apps-device username (get_or username (pos 0) counted) (get_or username [] previous) apps
          state,
    )

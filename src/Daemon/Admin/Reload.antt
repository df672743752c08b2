-- ===== src/Daemon/Admin/Reload.antt =====
-- A reload takes effect as a whole or not at all.
use local_parental_control.Daemon.Admin.{
  reload, restore_users, AdminWorld, Problem, done, reloaded, failed,
}
use local_parental_control.Daemon.Service.{Machine, World, location}
use local_parental_control.Text.{str_eq, str_ltb}
use local_parental_control.Base.{
  ◌≡◌, ok, Option-cases, ℕ, inl, inr, some, [], Result-cases, Bool-cases, ap, false, ◌∙◌,
}
use local_parental_control.Daemon.Users.{resolve_users}
use local_parental_control.Config.{Config}
use local_parental_control.Dict.{Dict, get_or, lookup}
use local_parental_control.Text.{Str}
use local_parental_control.Daemon.Tick.Charging.{device_of}
use local_parental_control.Daemon.Iteration.{tick}
use local_parental_control.Daemon.Iteration.Charging.{tick-device, no_entry}
use local_parental_control.Daemon.State.{UsageState}

-- A reload that fails leaves the whole daemon as it was, where the names of the configuration in
-- force still resolve to the UIDs in force.
pub reload_fails :
    (a : AdminWorld) (m : Machine) (p : Problem)
    → resolve_users a.lookup_user m.service.cfg ≡ ok m.service.uid_users
    → (reload a m).1 ≡ failed p
    → (reload a m).0 ≡ m
unfolding reload restore_users
reload_fails a m p stable e = elim (Option-cases a.loaded) [
  | inl bad ↦ rw (bad, reload)
  | inr (cfg, good) ↦ elim (Result-cases (resolve_users a.lookup_user cfg)) [
    | inl (problem, clash) ↦ rw (good, reload, clash, restore_users, stable)
    | inr (users, fine) ↦ elim (Bool-cases (a.filter_fails cfg users)) [
      | inl refused ↦ rw (good, reload, fine, refused, restore_users, stable)
      | inr accepted ↦ absurd (cc (rw (good, reload, fine, accepted) at e))
    ]
  ]
]

pub reload_done :
    (a : AdminWorld) (m : Machine)
    → (reload a m).1 ≡ done reloaded
    → (cfg : Config) × (uid_users : Dict ℕ Str) × (a.loaded ≡ some cfg)
      × (resolve_users a.lookup_user cfg ≡ ok uid_users)
      × ((reload a m).0 ≡ record m {
        service = record m.service {
          cfg = cfg;
          uid_users = uid_users;
          pending_kill = [];
          previous_users = [];
          previous_apps = [];
        };
      })
unfolding reload
reload_done a m e = elim (Option-cases a.loaded) [
  | inl bad ↦ absurd (cc (rw (bad, reload) at e))
  | inr (cfg, good) ↦ elim (Result-cases (resolve_users a.lookup_user cfg)) [
    | inl (problem, clash) ↦ absurd (cc (rw (good, reload, clash) at e))
    | inr (users, fine) ↦ elim (Bool-cases (a.filter_fails cfg users)) [
      | inl refused ↦ absurd (cc (rw (good, reload, fine, refused) at e))
      | inr accepted ↦ (cfg, users, good, fine, rw (good, reload, fine, accepted))
    ]
  ]
]

reload-state :
    (a : AdminWorld) (m : Machine)
    → (reload a m).1 ≡ done reloaded
    → ((reload a m).0.service.state ≡ m.service.state)
      × ((reload a m).0.service.previous_users ≡ [])
reload-state a m e =
    let (cfg, uid_users, loaded, resolved, same) = reload_done a m e in
    (
      ap (λ (n : Machine). n.service.state) same,
      ap (λ (n : Machine). n.service.previous_users) same,
    )

-- The first iteration after a reload that is answered as done charges no user, whatever the new
-- configuration, the sessions and the processes are: on the day of the state, the device counter of
-- every user is what it was before the reload.
pub tick-reload :
    (a : AdminWorld) (w : World) (m : Machine) (username : Str)
    → (reload a m).1 ≡ done reloaded
    → str_ltb (reload a m).0.service.state.date ((location w (reload a m).0).date w.now) ≡ false
    → device_of username (tick w (reload a m).0).0.service ≡ device_of username m.service
tick-reload a w m username e same_day =
    let (kept, quiet) = reload-state a m e in
    tick-device username w (reload a m).0 same_day
      (inl (ap (get_or username false) quiet ∙ no_entry username))
    ∙ ap (λ (t : UsageState). lookup username t.device_seconds) kept

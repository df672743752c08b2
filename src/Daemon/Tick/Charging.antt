-- ===== src/Daemon/Tick/Charging.antt =====
-- Whose device counter an iteration may raise: only that of a user who was unlocked in the sample
-- before and is unlocked now.
use local_parental_control.Text.{Str, str_eq, str_beq_iff}
use local_parental_control.Daemon.Service.{Service, World, lock, Machine, location}
use local_parental_control.Daemon.Tick.{charge_user, enforce_user, account_users, end_break}
use local_parental_control.Base.{
  Option, Bool, false, ◌&&◌, ◌≡◌, Bool-cases, ◌==◌, inl, subst, sym, inr, Option-cases, arith, ℕ,
  ◌∷◌, ◌∙◌, [], refl,
}
use local_parental_control.Config.Clock.{Zone}
use local_parental_control.Int.{ℤ}
use local_parental_control.Daemon.State.{Instant}
use local_parental_control.Dict.{lookup, Dict, get_or}
use local_parental_control.Daemon.Window.{accounting_interval}
use local_parental_control.Daemon.Terminate.{user_config}
use local_parental_control.Daemon.Accounting.{account_user_interval}
use local_parental_control.Daemon.Accounting.Frame.{account_user_interval-IsSameFor}
use local_parental_control.Daemon.Tick.Setup.{charge_user-IsSameSetup, enforce_user-IsSameSetup}

abbrev pub device_of : Str → Service → Option ℤ
device_of username s = lookup username s.state.device_seconds

module _ (username : Str) where
  and_dead : (a b c : Bool) → a && b ≡ false → a && b && c ≡ false
  and_dead a b c h = ground arith

  own :
      (zone : Zone) (start now : Instant) (active_users unlocked : Dict Str Bool) (s : Service)
      (counted : Dict Str ℤ)
      → get_or username false s.previous_users && get_or username false unlocked ≡ false
      → device_of username
          (charge_user zone start now active_users unlocked username (s, counted)).0
        ≡ device_of username s
  unfolding charge_user
  own zone start now active_users unlocked s counted quiet =
      let dead =
        and_dead (get_or username false s.previous_users) (get_or username false unlocked)
          (accounting_interval start now (user_config s username) zone).2 quiet in
      elim (Bool-cases (get_or username false active_users)) [
        | inl on ↦ rw (on, charge_user, dead)
        | inr off ↦ rw (off, charge_user)
      ]

  -- The charge of a user who was not there, or is not unlocked, and of every other user.
  charge_user-device :
      (zone : Zone) (start now : Instant) (active_users unlocked : Dict Str Bool) (name : Str)
      (s : Service) (counted : Dict Str ℤ)
      → get_or username false s.previous_users && get_or username false unlocked ≡ false
      → device_of username (charge_user zone start now active_users unlocked name (s, counted)).0
        ≡ device_of username s
  unfolding charge_user
  charge_user-device zone start now active_users unlocked name s counted quiet =
      let (from, until, eligible) = accounting_interval start now (user_config s name) zone in
      elim (Bool-cases (name == username)) [
        | inl same ↦
            subst
              (λ n.
                device_of username
                  (charge_user zone start now active_users unlocked n (s, counted)).0
                ≡ device_of username s)
              (sym ((str_beq_iff name username).0 same))
              (own zone start now active_users unlocked s counted quiet)
        | inr other ↦
            elim (Option-cases
              (account_user_interval name (user_config s name) from until s.state)) [
                | inl lost ↦ ground arith
                | inr ((final, amount), charged) ↦ ground (
                  arith,
                  account_user_interval-IsSameFor name username (user_config s name) from until
                      s.state {final = final} {counted = amount},
                )
              ]
      ]

  enforce_user-device :
      (w : World) (uid : ℕ) (name : Str) (m : Machine)
      → device_of username (enforce_user w uid name m).service ≡ device_of username m.service
  unfolding enforce_user end_break lock
  enforce_user-device w uid name m = ground arith

  pub account_users-device :
      (w : World) (start : Instant) (active_users unlocked : Dict Str Bool) (users : Dict ℕ Str)
      (m : Machine) (counted : Dict Str ℤ)
      → get_or username false m.service.previous_users && get_or username false unlocked ≡ false
      → device_of username
          (account_users w start active_users unlocked users (m, counted)).0.service
        ≡ device_of username m.service
  unfolding account_users
  account_users-device w start active_users unlocked [] m counted quiet = refl
  account_users-device w start active_users unlocked ((uid, name) ∷ users) m counted quiet =
      let (s, more) =
        charge_user (location w m) start w.now active_users unlocked name (m.service, counted) in
      let charged : Machine = record m { service = s } in
      let same =
        charge_user-IsSameSetup (location w m) start w.now active_users unlocked name
          (m.service, counted) in
      let same' = enforce_user-IsSameSetup w uid name charged in
      account_users-device w start active_users unlocked users (enforce_user w uid name charged)
        more
        (subst (λ d. get_or username false d && get_or username false unlocked ≡ false)
          (sym (same'.previous_users ∙ same.previous_users)) quiet)
      ∙ (enforce_user-device w uid name charged
          ∙ charge_user-device (location w m) start w.now active_users unlocked name m.service
              counted quiet)

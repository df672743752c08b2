-- ===== src/Daemon/Tick/Hours.antt =====
-- The loop over the users locks everyone who is outside the allowed hours.
use local_parental_control.Base.{
  ℕ, Bool, ◌≡◌, true, false, some, ◌∷◌, Bool-cases, [], nat_eq, inl, inr, ℕ_eq, nat_eq_iff,
  some-inj, subst, sym, ◌∙◌,
}
use local_parental_control.Text.{Str, str_eq}
use local_parental_control.Daemon.Service.{World, Machine, location}
use local_parental_control.Daemon.State.{Instant}
use local_parental_control.Dict.{Dict, lookup, get_or}
use local_parental_control.Daemon.Tick.{account_users, is_blocked, charge_user, enforce_user}
use local_parental_control.Config.{Config}
use local_parental_control.Config.Clock.{allowed_at}
use local_parental_control.Int.{ℤ}
use local_parental_control.Daemon.Terminate.{user_config, no_user}
use local_parental_control.Daemon.Tick.Locks.{is_locked, enforce_user_keeps, enforce_user-is_locked}
use local_parental_control.Daemon.Tick.Setup.{charge_user-IsSameSetup, enforce_user-IsSameSetup}

module _ (uid : ℕ) (username : Str) (w : World) (interval_start : Instant)
    (active_users unlocked : Dict Str Bool) where
  account_users_keeps :
      (users : Dict ℕ Str) (found : Machine × Dict Str ℤ)
      → is_locked uid found.0.log ≡ true
      → is_locked uid (account_users w interval_start active_users unlocked users found).0.log
        ≡ true
  unfolding account_users
  account_users_keeps [] found h = h
  account_users_keeps ((u, name) ∷ users) (m, counted) h =
      let (s, more) =
        charge_user (location w m) interval_start w.now active_users unlocked name
          (m.service, counted) in
      let charged : Machine = record m { service = s } in
      account_users_keeps users (enforce_user w u name charged, more)
        (enforce_user_keeps uid w u name charged h)

  abbrev pub Forbidden : Config → Type 0
  Forbidden cfg =
      allowed_at (w.zone_of cfg.timezone) (get_or username no_user cfg.users) w.now ≡ false

  blocked_of_Forbidden :
      (m : Machine)
      → Forbidden m.service.cfg
      → is_blocked (location w m) w.now (user_config m.service username) username m.service.state
        ≡ true
  unfolding is_blocked
  blocked_of_Forbidden m h = rw (is_blocked, h)

  enforced :
      (u : ℕ) (name : Str) (m : Machine)
      → u ≡ uid
      → name ≡ username
      → Forbidden m.service.cfg
      → is_locked uid (enforce_user w u name m).log ≡ true
  enforced u name m i n h =
      rw (i, n) (enforce_user-is_locked uid w username m (blocked_of_Forbidden m h))

  pub account_users-is_locked :
      (users : Dict ℕ Str) (found : Machine × Dict Str ℤ)
      → lookup uid users ≡ some username
      → Forbidden found.0.service.cfg
      → is_locked uid (account_users w interval_start active_users unlocked users found).0.log
        ≡ true
  unfolding account_users lookup
  account_users-is_locked [] found e h = cc
  account_users-is_locked ((u, name) ∷ users) (m, counted) e h =
      let (s, more) =
        charge_user (location w m) interval_start w.now active_users unlocked name
          (m.service, counted) in
      let charged : Machine = record m { service = s } in
      let same =
        charge_user-IsSameSetup (location w m) interval_start w.now active_users unlocked name
          (m.service, counted) in
      let same' = enforce_user-IsSameSetup w u name charged in
      elim (Bool-cases (nat_eq u uid)) [
        | inl here ↦
            account_users_keeps users (enforce_user w u name charged, more)
              (enforced u name charged ((nat_eq_iff u uid).0 here) (some-inj (rw here at e))
                (subst Forbidden (sym same.cfg) h))
        | inr other ↦
            account_users-is_locked users (enforce_user w u name charged, more) (rw other at e)
              (subst Forbidden (sym (same'.cfg ∙ same.cfg)) h)
      ]

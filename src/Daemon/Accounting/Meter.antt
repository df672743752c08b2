-- ===== src/Daemon/Accounting/Meter.antt =====
-- One user's share of the state, and the rounds of `accountUserInterval` seen through it.
use local_parental_control.Base.{
  ◌≡◌, inl, inr, Bool, ◌&&◌, Option, none, some, arith, if◌then◌else◌, Option-cases,
}
use local_parental_control.Int.{ℤ, pos, ◌+ℤ◌, ◌-ℤ◌, times, ltb_ℤ, leb_ℤ, seconds, whole_seconds}
use local_parental_control.Loop.{map_view}
use local_parental_control.Text.{Str, str_eq}
use local_parental_control.Dict.{
  lookup, get_or, get_or-insert_self, lookup-insert_self, lookup-erase_self,
}
use local_parental_control.Config.{UserConfig}
use local_parental_control.Daemon.State.{Instant}
use local_parental_control.Daemon.Accounting.{Cursor, at_most, leave_break, charge, account_round}

pub record Meter : Type 0 where
  pub device : ℤ
  pub continuous : ℤ
  pub break_end : Option Instant
  pub start : Instant
  pub counted : ℤ

abbrev pub view : Str → Cursor → Meter
view username c = record {
  device = get_or username (pos 0) c.state.device_seconds;
  continuous = get_or username (pos 0) c.state.continuous_seconds;
  break_end = lookup username c.state.break_until;
  start = c.start;
  counted = c.counted;
}

-- The limits and the break in seconds, and the end of the interval.
module _ (most longest rest : ℤ) (end : Instant) where
  abbrev pub amount_of : Meter → ℤ
  amount_of m =
      at_most (at_most (whole_seconds (end -ℤ m.start)) (most -ℤ m.device))
        (longest -ℤ m.continuous)

  unfoldable pub charged : Meter → ℤ → Meter
  charged m amount =
      let later : Instant = m.start +ℤ seconds amount in
      let full : Bool = leb_ℤ longest (m.continuous +ℤ amount) in
      record {
        device = m.device +ℤ amount;
        continuous = (if full then pos 0 else m.continuous +ℤ amount);
        break_end = (if full then some (later +ℤ seconds rest) else none);
        start = later;
        counted = m.counted +ℤ amount;
      }

  unfoldable pub rested : Meter → Instant → Option Meter
  rested m until =
      if ltb_ℤ m.start until
      then (if leb_ℤ end until
          then none
          else some (record m { continuous = pos 0; break_end = none; start = until }))
      else some (record m { continuous = pos 0; break_end = none })

  unfoldable pub meter_round : Meter → Option Meter
  unfolding charged rested
  meter_round m =
      if ltb_ℤ m.start end && ltb_ℤ m.device most
      then elim m.break_end [
        | some until ↦ rested m until
        | none ↦
            if leb_ℤ (whole_seconds (end -ℤ m.start)) (pos 0)
            then none
            else some (charged m (amount_of m))
      ]
      else none

module _ (username : Str) (uc : UserConfig) (end : Instant) where
  abbrev pub user_round : Meter → Option Meter
  user_round =
      meter_round (times 60 uc.daily_device_minutes) (times 60 uc.continuous_use_minutes)
        (times 60 uc.break_minutes) end

  view-charge :
      (c : Cursor) (amount : ℤ)
      → lookup username c.state.break_until ≡ none
      → charged
          (times 60 uc.daily_device_minutes)
          (times 60 uc.continuous_use_minutes)
          (times 60 uc.break_minutes)
          end
          (view username c)
          amount
        ≡ view username (charge username uc end c amount)
  unfolding charged charge
  view-charge c amount free =
      let device : ℤ = get_or username (pos 0) c.state.device_seconds +ℤ amount in
      let continuous : ℤ = get_or username (pos 0) c.state.continuous_seconds +ℤ amount in
      let later : Instant = c.start +ℤ seconds amount in
      ground (
        arith,
        get_or-insert_self username device (pos 0) c.state.device_seconds,
        get_or-insert_self username continuous (pos 0) c.state.continuous_seconds,
        get_or-insert_self username (pos 0) (pos 0) c.state.continuous_seconds,
        lookup-insert_self username (later +ℤ seconds (times 60 uc.break_minutes))
            c.state.break_until,
      )

  view-leave_break :
      (c : Cursor) (until : Instant)
      → rested
          (times 60 uc.daily_device_minutes)
          (times 60 uc.continuous_use_minutes)
          (times 60 uc.break_minutes)
          end
          (view username c)
          until
        ≡ map_view (view username) (leave_break username uc end c until)
  unfolding rested leave_break
  view-leave_break c until = ground (
    arith,
    get_or-insert_self username (pos 0) (pos 0) c.state.continuous_seconds,
    lookup-erase_self username c.state.break_until,
  )

  pub view-round :
      (c : Cursor)
      → user_round (view username c) ≡ map_view (view username) (account_round username uc end c)
  unfolding meter_round account_round
  view-round c = elim (Option-cases (lookup username c.state.break_until)) [
    | inl free ↦ ground (
      arith,
      view-charge c
          (amount_of (times 60 uc.daily_device_minutes) (times 60 uc.continuous_use_minutes)
            (times 60 uc.break_minutes) end (view username c))
          free,
    )
    | inr (until, stored) ↦ ground (arith, view-leave_break c until)
  ]

-- ===== src/Indicator.antt =====
-- What the tray indicator shows: `Remaining`, `Label` and `Tooltip` of internal/indicator/status.go.
pub mod Laws
mod Tests
use local_parental_control.Base.{ℕ, ◌+◌, if◌then◌else◌, some, ◌/◌, ◌++◌, List, none, ◌∷◌, map, []}
use local_parental_control.Int.{ℤ, leb_ℤ, ◌-ℤ◌, pos, pos_part}
use local_parental_control.Daemon.Status.{UserStatus, ApplicationStatus}
use local_parental_control.Text.{Str, codes, decimal, join, str_beq}

-- `int64(math.Ceil(float64(remaining) / 60))` of a positive number far below 2^52, where the division
-- rounds to no other whole number.
unfoldable pub minutes_up : ℕ → ℕ
minutes_up n = (n + 59) / 60

unfoldable pub remaining : ℤ → ℤ → ℕ
unfolding minutes_up
remaining used limit =
    if leb_ℤ (limit -ℤ used) (pos 0) then 0 else minutes_up (pos_part (limit -ℤ used))

unfoldable pub label : UserStatus → Str
label status =
    if status.recovery_required
    then codes "BLOCKED"
    else decimal (remaining status.device_used_seconds status.device_limit_seconds) ++ codes "m"

unfoldable pub app_line : ApplicationStatus → Str
app_line app =
    app.name
    ++ (codes ": "
        ++ (decimal (remaining app.used_seconds app.limit_seconds) ++ codes " min remaining"))

unfoldable pub break_line : UserStatus → Str
break_line status = elim status.break_until [
  | some until ↦ codes "Break in progress"
  | none ↦
      codes "Until break: "
      ++ (decimal (remaining status.continuous_used_seconds status.continuous_limit_seconds)
          ++ codes " min")
]

unfoldable pub tooltip : UserStatus → Str → Str
tooltip status date =
    let device : Str =
      codes "Device: "
      ++ (decimal (remaining status.device_used_seconds status.device_limit_seconds)
          ++ codes " min remaining") in
    let lines : List Str = device ∷ break_line status ∷ map app_line status.applications in
    if status.recovery_required
    then codes "Blocked: administrator recovery required"
    else join (10 ∷ []) (if str_beq date [] then lines else lines ++ date ∷ [])

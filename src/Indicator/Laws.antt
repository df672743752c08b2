-- ===== src/Indicator/Laws.antt =====
-- The minutes that the indicator shows.
use local_parental_control.Indicator.{remaining, minutes_up}
use local_parental_control.Int.{ℤ, ◌≤ℤ◌, ◌<ℤ◌, pos_part, ◌-ℤ◌, -ℤ_parts, -ℤ_parts, parts_disjoint}
use local_parental_control.Base.{ℕ, ◌≡◌, ◌≤◌, ◌↔◌, ◌*◌, ◌<◌, ◌+◌, arith, inl, inr}

minutes_up_cases : (n : ℕ) → (n ≤ 60 * minutes_up n) × (60 * minutes_up n < n + 60)
unfolding minutes_up
minutes_up_cases n = (omega arith, omega arith)

-- The indicator shows no remaining minutes exactly when the limit is reached, and otherwise the least
-- number of whole minutes that covers the seconds that are left.
pub remaining_cases :
    (used limit : ℤ)
    → ((remaining used limit ≡ 0) ↔ (limit ≤ℤ used))
      × (used <ℤ limit
          → (pos_part (limit -ℤ used) ≤ 60 * remaining used limit)
            × (60 * remaining used limit < pos_part (limit -ℤ used) + 60))
unfolding remaining
remaining_cases used limit =
    let parts = -ℤ_parts limit used in
    let covers = minutes_up_cases (pos_part (limit -ℤ used)) in
    elim (parts_disjoint (limit -ℤ used)) [ inl e ↦ ground arith | inr e ↦ ground arith ]

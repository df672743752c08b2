-- ===== src/Loop.antt =====
-- A `for` loop whose body is one round: `none` ends the loop, `some` is the next round's variables.
-- The loop runs on fuel; a measure that falls in each round shows that the fuel suffices.
use local_parental_control.Base.{
  ℕ, zero, suc, ◌<◌, ◌≡◌, refl, inl, inr, Option, none, some, arith, Option-cases, some-inj, subst,
}

module _ {ℓ} {S : Type ℓ} where
  -- `none` means that the fuel ran out.
  unfoldable pub iterate : ℕ → (S → Option S) → S → Option S
  iterate zero round s = none
  iterate (suc n) round s = elim (round s) [ none ↦ some s | some next ↦ iterate n round next ]

  pub iterate_total {κ} :
      (P : S → Type κ) (measure : S → ℕ) (round : S → Option S)
      → ((s t : S) → P s → round s ≡ some t → P t × (measure t < measure s))
      → (n : ℕ) (s : S) → P s
      → measure s < n
      → (r : S) × (iterate n round s ≡ some r) × P r × (round r ≡ none)
  unfolding iterate
  iterate_total P measure round keep zero s p h = absurd (omega arith)
  iterate_total P measure round keep (suc n) s p h = elim (Option-cases (round s)) [
    | inl done ↦ (s, rw (done, iterate), p, done)
    | inr (t, more) ↦
        let (q, m) = keep s t p more in
        let (r, found, pr, stop) = iterate_total P measure round keep n t q (omega arith) in
        (r, rw (more, iterate) found, pr, stop)
  ]

module _ {ℓ κ} {S : Type ℓ} {T : Type κ} (view : S → T) where
  abbrev pub map_view : Option S → Option T
  map_view none = none
  map_view (some s) = some (view s)

  pub map_view-eq-some :
      (o : Option S) {t : T} → map_view o ≡ some t → (s : S) × (o ≡ some s) × (view s ≡ t)
  map_view-eq-some none e = cc
  map_view-eq-some (some s) e = (s, refl, some-inj e)

  -- A loop seen through a view that its rounds respect is the loop on the views.
  pub iterate-view :
      (round : S → Option S) (seen : T → Option T)
      → ((s : S) → seen (view s) ≡ map_view (round s))
      → (n : ℕ) (s : S) → iterate n seen (view s) ≡ map_view (iterate n round s)
  unfolding iterate
  iterate-view round seen same zero s = refl
  iterate-view round seen same (suc n) s = elim (Option-cases (round s)) [
    | inl done ↦ rw (done, iterate, same s, done)
    | inr (t, more) ↦ rw (more, iterate, same s, more) (iterate-view round seen same n t)
  ]

module _ {ℓ} {S : Type ℓ} where
  -- What every round keeps, the loop keeps.
  pub iterate-keeps {κ} :
      (P : S → Type κ) (round : S → Option S)
      → ((s t : S) → P s → round s ≡ some t → P t)
      → (n : ℕ) (s r : S) → P s
      → iterate n round s ≡ some r
      → P r
  unfolding iterate
  iterate-keeps P round keep zero s r p e = cc
  iterate-keeps P round keep (suc n) s r p e = elim (Option-cases (round s)) [
    | inl done ↦ subst P (some-inj (rw (done, iterate) at e)) p
    | inr (t, more) ↦ iterate-keeps P round keep n t r (keep s t p more) (rw (more, iterate) at e)
  ]

  pub iterate_stop :
      (round : S → Option S) (s : S) {n : ℕ} → 0 < n → round s ≡ none → iterate n round s ≡ some s
  unfolding iterate
  iterate_stop round s {n = zero} h e = absurd (omega arith)
  iterate_stop round s {n = suc n} h e = rw (e, iterate)

  pub iterate_step :
      (round : S → Option S) (s t : S) {n : ℕ}
      → 1 < n
      → round s ≡ some t
      → round t ≡ none
      → iterate n round s ≡ some t
  unfolding iterate
  iterate_step round s t {n = zero} h e d = absurd (omega arith)
  iterate_step round s t {n = suc n} h e d =
      rw (e, iterate) (iterate_stop round t {n = n} (omega arith) d)

-- ===== src/Dict.antt =====
-- A Go map as an association list over keys with an equality test. An iteration visits the entries
-- in list order; Go's order is unspecified, so a theorem for every list covers every order.
use local_parental_control.Base.{
  ◌≡◌, refl, Bool, true, false, Option, none, some, List, [], ◌∷◌, arith, if◌then◌else◌, Eq, ◌==◌,
  ◌≢◌,
}

abbrev pub Dict : Type 0 → Type 0 → Type 0
Dict K V = List (K × V)

module _ {K V : Type 0} ⦃e : Eq K⦄ where
  unfoldable pub lookup : K → Dict K V → Option V
  lookup k [] = none
  lookup k ((j, v) ∷ d) = if j == k then some v else lookup k d

  -- `m[k] = v`
  unfoldable pub insert : K → V → Dict K V → Dict K V
  insert k v [] = (k, v) ∷ []
  insert k v ((j, w) ∷ d) = if j == k then (k, v) ∷ d else (j, w) ∷ insert k v d

  -- `delete(m, k)`
  unfoldable pub erase : K → Dict K V → Dict K V
  erase k [] = []
  erase k ((j, w) ∷ d) = if j == k then erase k d else (j, w) ∷ erase k d

  -- `_, ok := m[k]`
  unfoldable pub contains : K → Dict K V → Bool
  unfolding lookup
  contains k d = elim (lookup k d) [ none ↦ false | some _ ↦ true ]

  -- `m[k]`, which reads the zero value where the key is missing.
  unfoldable pub get_or : K → V → Dict K V → V
  get_or k zero_value d = elim (lookup k d) [ none ↦ zero_value | some v ↦ v ]

  pub lookup-insert :
      (k j : K) (v : V) (d : Dict K V)
      → lookup j (insert k v d) ≡ (if k == j then some v else lookup j d)
  unfolding lookup insert
  lookup-insert k j v [] = refl
  lookup-insert k j v ((i, w) ∷ d) =
      ground (arith, e.beq_iff k j, e.beq_iff i k, e.beq_iff i j, lookup-insert k j v d)

  pub lookup-erase :
      (k j : K) (d : Dict K V) → lookup j (erase k d) ≡ (if k == j then none else lookup j d)
  unfolding lookup erase
  lookup-erase k j [] = ground arith
  lookup-erase k j ((i, w) ∷ d) =
      ground (arith, e.beq_iff k j, e.beq_iff i k, e.beq_iff i j, lookup-erase k j d)

  pub lookup-insert_self : (k : K) (v : V) (d : Dict K V) → lookup k (insert k v d) ≡ some v
  lookup-insert_self k v d = ground (arith, lookup-insert k k v d, e.beq_iff k k)

  pub lookup-erase_self : (k : K) (d : Dict K V) → lookup k (erase k d) ≡ none
  lookup-erase_self k d = ground (arith, lookup-erase k k d, e.beq_iff k k)

  pub get_or-insert_self : (k : K) (v z : V) (d : Dict K V) → get_or k z (insert k v d) ≡ v
  unfolding get_or
  get_or-insert_self k v z d = ground (arith, lookup-insert k k v d, e.beq_iff k k)

module _ {K V : Type 0} ⦃e : Eq K⦄ where
  pub lookup-insert_ne :
      {k j : K} (v : V) (d : Dict K V) → j ≢ k → lookup j (insert k v d) ≡ lookup j d
  lookup-insert_ne {k} {j} v d ne = ground (arith, lookup-insert k j v d, e.beq_iff k j)

  pub lookup-erase_ne : {k j : K} (d : Dict K V) → j ≢ k → lookup j (erase k d) ≡ lookup j d
  lookup-erase_ne {k} {j} d ne = ground (arith, lookup-erase k j d, e.beq_iff k j)

  pub get_or-insert :
      (k j : K) (v z : V) (d : Dict K V)
      → get_or j z (insert k v d) ≡ (if k == j then v else get_or j z d)
  unfolding get_or
  get_or-insert k j v z d = ground (arith, lookup-insert k j v d)

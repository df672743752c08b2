-- ===== src/Webfilter/Match.antt =====
-- `matchesDomain` of internal/webfilter/dns.go: a blocked domain blocks all of its subdomains.
use local_parental_control.Base.{
  ℕ, List, Option, ◌≡◌, Bool, none, some, true, length, ◌⊎◌, ◌∷◌, ◌++◌, false, inl, Bool-cases, suc,
  if◌then◌else◌, ◌<◌, ◌≤◌, ◌↔◌, [], nat_eq, sym, inr, arith, ◌==◌, some-inj, append_assoc,
  Option-cases, ◌||◌, refl, nat_eq_iff, ap, zero,
}
use local_parental_control.Text.{Str, str_beq_iff, str_eq}

-- A set of blocked domains.
unfoldable pub is_blocked_name : Str → List Str → Bool
is_blocked_name name [] = false
is_blocked_name name (domain ∷ blocked) = domain == name || is_blocked_name name blocked

-- What follows the first dot, if there is one.
unfoldable pub after_dot : Str → Option Str
after_dot [] = none
after_dot (c ∷ name) = if nat_eq c b'.' then some name else after_dot name

-- The loop of the source, which cuts the name behind its first dot; the fuel is the name's length.
unfoldable pub matches_from : ℕ → List Str → Str → Bool
unfolding after_dot is_blocked_name
matches_from zero blocked name = is_blocked_name name blocked
matches_from (suc fuel) blocked name =
    let rest : Bool = elim (after_dot name) [
      | none ↦ false
      | some parent ↦ matches_from fuel blocked parent
    ] in
    if is_blocked_name name blocked then true else rest

unfoldable pub matches_domain : Str → List Str → Bool
unfolding matches_from
matches_domain name blocked = matches_from (length name) blocked name

-- A name lies in a domain: it is the domain, or ends in a dot and the domain.
abbrev pub InDomain : Str → Str → Type 0
InDomain name domain = (name ≡ domain) ⊎ ((prefix : Str) × (name ≡ prefix ++ b'.' ∷ domain))

-- Some blocked domain holds the name.
abbrev pub InSome : Str → List Str → Type 0
InSome name [] = ⊥
InSome name (domain ∷ blocked) = InDomain name domain ⊎ InSome name blocked

after_dot_split :
    (name parent : Str)
    → after_dot name ≡ some parent
    → (prefix : Str) × (name ≡ prefix ++ b'.' ∷ parent) × (length parent < length name)
unfolding after_dot
after_dot_split [] parent e = cc
after_dot_split (c ∷ name) parent e = elim (Bool-cases (nat_eq c b'.')) [
  | inl dot ↦
      let same : name ≡ parent = some-inj (rw dot at e) in
      ([], rw (← same, ← (nat_eq_iff c b'.').0 dot) refl, rw (← same) (omega arith))
  | inr other ↦
      let (prefix, same, shorter) = after_dot_split name parent (rw other at e) in
      (c ∷ prefix, ap (λ s. c ∷ s) same, omega arith)
]

-- What a proper suffix behind a dot is behind the first dot of the name.
after_dot_suffix :
    (name prefix domain : Str)
    → name ≡ prefix ++ b'.' ∷ domain
    → (parent : Str) × (after_dot name ≡ some parent) × InDomain parent domain
unfolding after_dot
after_dot_suffix name [] domain e = (domain, rw (e, after_dot) refl, inl refl)
after_dot_suffix name (c ∷ prefix) domain e = elim (Bool-cases (nat_eq c b'.')) [
  | inl dot ↦ (prefix ++ b'.' ∷ domain, rw (e, after_dot, dot) refl, inr (prefix, refl))
  | inr other ↦
      let (parent, found, inside) = after_dot_suffix (prefix ++ b'.' ∷ domain) prefix domain refl in
      (parent, rw (e, after_dot, other) found, inside)
]

blocked-InSome :
    (name : Str) (blocked : List Str) → is_blocked_name name blocked ≡ true → InSome name blocked
unfolding is_blocked_name
blocked-InSome name [] e = cc
blocked-InSome name (domain ∷ blocked) e = elim (Bool-cases (domain == name)) [
  | inl same ↦ inl (inl (sym ((str_beq_iff domain name).0 same)))
  | inr other ↦ inr (blocked-InSome name blocked (rw other at e))
]

-- A name in a domain is the domain, or its parent is in the domain.
InDomain-cases :
    (name domain : Str)
    → InDomain name domain
    → (domain ≡ name) ⊎ ((parent : Str) × (after_dot name ≡ some parent) × InDomain parent domain)
InDomain-cases name domain (inl same) = inl (sym same)
InDomain-cases name domain (inr (prefix, e)) = inr (after_dot_suffix name prefix domain e)

InSome-cases :
    (name : Str) (blocked : List Str)
    → InSome name blocked
    → (is_blocked_name name blocked ≡ true)
      ⊎ ((parent : Str) × (after_dot name ≡ some parent) × InSome parent blocked)
unfolding is_blocked_name
InSome-cases name (domain ∷ blocked) (inl inside) = elim (InDomain-cases name domain inside) [
  | inl same ↦ inl (rw ((str_beq_iff domain name).1 same) refl)
  | inr (parent, found, up) ↦ inr (parent, found, inl up)
]
InSome-cases name (domain ∷ blocked) (inr later) = elim (InSome-cases name blocked later) [
  | inl here ↦ inl (ground (arith))
  | inr (parent, found, up) ↦ inr (parent, found, inr up)
]
InSome-cases name [] h = absurd h

InSome-longer :
    (prefix parent : Str) (blocked : List Str)
    → InSome parent blocked
    → InSome (prefix ++ b'.' ∷ parent) blocked
InSome-longer prefix parent [] h = h
InSome-longer prefix parent (domain ∷ blocked) (inl (inl same)) = inl (inr (prefix, rw same refl))
InSome-longer prefix parent (domain ∷ blocked) (inl (inr (more, e))) =
    inl
      (inr (prefix ++ b'.' ∷ more, rw e (sym (append_assoc prefix (b'.' ∷ more) (b'.' ∷ domain)))))
InSome-longer prefix parent (domain ∷ blocked) (inr later) =
    inr (InSome-longer prefix parent blocked later)

matches_sound :
    (fuel : ℕ) (blocked : List Str) (name : Str)
    → matches_from fuel blocked name ≡ true
    → InSome name blocked
unfolding matches_from
matches_sound zero blocked name e = blocked-InSome name blocked e
matches_sound (suc fuel) blocked name e = elim (Bool-cases (is_blocked_name name blocked)) [
  | inl here ↦ blocked-InSome name blocked here
  | inr not_here ↦ elim (Option-cases (after_dot name)) [
    | inl top ↦ absurd (cc (rw (not_here, matches_from, top) at e))
    | inr (parent, up) ↦
        let (prefix, same, shorter) = after_dot_split name parent up in
        rw same (
          InSome-longer prefix parent blocked
            (matches_sound fuel blocked parent (rw (not_here, matches_from, up) at e)))
  ]
]

matches_complete :
    (fuel : ℕ) (blocked : List Str) (name : Str)
    → length name ≤ fuel
    → InSome name blocked
    → matches_from fuel blocked name ≡ true
unfolding matches_from
matches_complete zero blocked name short h = elim (InSome-cases name blocked h) [
  | inl here ↦ here
  | inr (parent, up, inside) ↦
      let (prefix, same, shorter) = after_dot_split name parent up in absurd (omega arith)
]
matches_complete (suc fuel) blocked name short h = elim (InSome-cases name blocked h) [
  | inl here ↦ rw (here, matches_from) refl
  | inr (parent, up, inside) ↦
      let (prefix, same, shorter) = after_dot_split name parent up in
      let ih = matches_complete fuel blocked parent (omega arith) inside in
      elim (Bool-cases (is_blocked_name name blocked)) [
        | inl here ↦ rw (here, matches_from) refl
        | inr not_here ↦ rw (not_here, matches_from, up) ih
      ]
]

-- The filter matches a name exactly when the name is one of the blocked domains or a subdomain of
-- one: it equals the domain or ends in a dot and the domain.
pub matches_domain_iff :
    (name : Str) (blocked : List Str) → (matches_domain name blocked ≡ true) ↔ InSome name blocked
unfolding matches_domain
matches_domain_iff name blocked = (
  matches_sound (length name) blocked name,
  matches_complete (length name) blocked name (omega arith),
)

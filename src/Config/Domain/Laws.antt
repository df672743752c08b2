-- ===== src/Config/Domain/Laws.antt =====
-- A domain that was accepted is in normal form.
use local_parental_control.Text.{
  Str, split_first, is_ascii, trim_left, trim_right, trim_dot, to_lower, is_space, trim_space,
  lower_byte, split,
}
use local_parental_control.Config.Domain.{
  check_labels, is_label_byte, check_domain, normalize_domain, bad_shape, all_label_bytes, Unicode,
}
use local_parental_control.Base.{
  List, All, ◌≡◌, map, true, false, none, ℕ, ok, ◌∷◌, arith, Bool-cases, ◌⊎◌, [], nat_eq, ◌<◌, refl,
  inl, inr, ap, nat_eq_iff, ◌&&◌,
}

-- Every byte of the text is a dot or may stand in a label.
abbrev pub IsNameText : Str → Type 0
IsNameText s = All (λ c. (is_label_byte c ≡ true) ⊎ (c ≡ b'.')) s

-- A label that the loop lets pass.
abbrev pub IsLabel : Str → Type 0
IsLabel label = (bad_shape label ≡ false) × (all_label_bytes label ≡ true)

check_labels-IsLabel : (labels : List Str) → check_labels labels ≡ none → All IsLabel labels
unfolding check_labels
check_labels-IsLabel [] h = tt
check_labels-IsLabel (label ∷ labels) h = (ground arith, check_labels-IsLabel labels (ground arith))

split_bytes :
    (s : Str)
    → all_label_bytes (split_first b'.' s).0 ≡ true
    → All IsLabel (split_first b'.' s).1
    → IsNameText s
unfolding split_first all_label_bytes
split_bytes [] h all = tt
split_bytes (c ∷ s) h all = elim (Bool-cases (nat_eq c b'.')) [
  | inl dot ↦
      let (label, labels) : IsLabel (split_first b'.' s).0 × All IsLabel (split_first b'.' s).1 =
        rw (dot, split_first) at all in
      (inr ((nat_eq_iff c b'.').0 dot), split_bytes s label.1 labels)
  | inr other ↦
      let first : is_label_byte c && all_label_bytes (split_first b'.' s).0 ≡ true =
        rw (other, split_first) at h in
      let labels : All IsLabel (split_first b'.' s).1 = rw (other, split_first) at all in
      (inl (ground arith), split_bytes s (ground arith) labels)
]

-- A byte of a name is ASCII, no space and no capital letter.
name_byte :
    (c : ℕ)
    → (is_label_byte c ≡ true) ⊎ (c ≡ b'.')
    → (c < 128) × (is_space c ≡ false) × (lower_byte c ≡ c)
unfolding is_label_byte is_space
name_byte c h = ground arith

name-is_ascii : (s : Str) → IsNameText s → is_ascii s ≡ true
unfolding is_ascii
name-is_ascii [] h = refl
name-is_ascii (c ∷ s) (first, all) = ground (arith, name_byte c first, name-is_ascii s all)

name-lower : (s : Str) → IsNameText s → map lower_byte s ≡ s
name-lower [] h = refl
name-lower (c ∷ s) (first, all) = rw ((name_byte c first).2, name-lower s all)

name-trim_left : (s : Str) → IsNameText s → trim_left s ≡ s
unfolding trim_left
name-trim_left [] h = refl
name-trim_left (c ∷ s) (first, all) = rw ((name_byte c first).1)

name-trim_right : (s : Str) → IsNameText s → trim_right s ≡ s
unfolding trim_right
name-trim_right [] h = refl
name-trim_right (c ∷ s) (first, all) = rw ((name_byte c first).1, name-trim_right s all)

-- A text whose labels behind the first dot are not empty does not end in a dot.
labels-trim_dot : (s : Str) → All IsLabel (split_first b'.' s).1 → trim_dot s ≡ s
unfolding trim_dot split_first bad_shape
labels-trim_dot [] h = refl
labels-trim_dot (c ∷ []) h = ground arith
labels-trim_dot (c ∷ d ∷ s) h = elim (Bool-cases (nat_eq c b'.')) [
  | inl dot ↦ ap (λ rest. c ∷ rest) (labels-trim_dot (d ∷ s) (rw (dot, split_first) at h).1)
  | inr other ↦ ap (λ rest. c ∷ rest) (labels-trim_dot (d ∷ s) (rw (other, split_first) at h))
]

accepted_labels : (domain : Str) → check_domain domain ≡ none → All IsLabel (split b'.' domain)
unfolding check_domain
accepted_labels domain h = check_labels-IsLabel (split b'.' domain) (ground arith)

accepted-normal :
    (u : Unicode) (domain : Str)
    → check_domain domain ≡ none
    → to_lower u.lower (trim_dot (trim_space u.trim domain)) ≡ domain
unfolding to_lower trim_space split
accepted-normal u domain h =
    let (first, labels) = accepted_labels domain h in
    let name : IsNameText domain = split_bytes domain first.1 labels in
    rw
      (
        name-is_ascii domain name,
        trim_space,
        name-trim_left domain name,
        name-trim_right domain name,
        labels-trim_dot domain labels,
        to_lower,
        name-is_ascii domain name,
      )
      (name-lower domain name)

normalize_domain_ok :
    (u : Unicode) (value : Str) {domain : Str}
    → normalize_domain u value ≡ ok domain
    → check_domain domain ≡ none
unfolding normalize_domain
normalize_domain_ok u value {domain} h = ground arith

-- Normalising is idempotent: a domain that was accepted is accepted again, and unchanged.
pub normalize_domain-normalize_domain :
    (u : Unicode) (value : Str) {domain : Str}
    → normalize_domain u value ≡ ok domain
    → normalize_domain u domain ≡ ok domain
unfolding normalize_domain
normalize_domain-normalize_domain u value {domain} h =
    rw
      (
        normalize_domain,
        accepted-normal u domain (normalize_domain_ok u value h),
        normalize_domain_ok u value h,
      )
      (ap ok (accepted-normal u domain (normalize_domain_ok u value h)))

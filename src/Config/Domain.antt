-- ===== src/Config/Domain.antt =====
-- `NormalizeDomain` of internal/config/config.go.
pub mod Laws
use local_parental_control.Base.{
  ℕ, List, Bool, Option, Result, leb, true, false, none, if◌then◌else◌, [], ◌&&◌, ◌∷◌, nat_eq, some,
  ◌||◌, ltb, ok, length, err,
}
use local_parental_control.Text.{Str, str_beq, to_lower, trim_dot, trim_space, split}

pub data DomainError : Type 0 where
  empty_or_long not_a_name bad_label bad_character : DomainError

-- What package `strings` does to a text that is not ASCII.
pub record Unicode : Type 0 where
  pub lower : Str → Str
  pub trim : Str → Str

-- `(r >= 'a' && r <= 'z') || (r >= '0' && r <= '9') || r == '-'`; no byte of another rune passes.
unfoldable pub is_label_byte : ℕ → Bool
is_label_byte c = leb b'a' c && leb c b'z' || (leb b'0' c && leb c b'9' || nat_eq c b'-')

unfoldable pub all_label_bytes : Str → Bool
unfolding is_label_byte
all_label_bytes [] = true
all_label_bytes (c ∷ s) = is_label_byte c && all_label_bytes s

-- `strings.ContainsAny(domain, "/?#@:")`; "://" contains a colon as well.
unfoldable pub has_url_byte : Str → Bool
has_url_byte [] = false
has_url_byte (c ∷ s) =
    (nat_eq c b'/' || (nat_eq c b'?' || (nat_eq c b'#' || (nat_eq c b'@' || nat_eq c b':'))))
    || has_url_byte s

unfoldable pub starts_with_dash : Str → Bool
starts_with_dash [] = false
starts_with_dash (c ∷ s) = nat_eq c b'-'

unfoldable pub ends_with_dash : Str → Bool
ends_with_dash [] = false
ends_with_dash (c ∷ []) = nat_eq c b'-'
ends_with_dash (c ∷ d ∷ s) = ends_with_dash (d ∷ s)

unfoldable pub bad_shape : Str → Bool
bad_shape label =
    str_beq label [] || (ltb 63 (length label) || (starts_with_dash label || ends_with_dash label))

-- The loop over the labels.
unfoldable pub check_labels : List Str → Option DomainError
check_labels [] = none
check_labels (label ∷ labels) =
    if bad_shape label
    then some bad_label
    else (if all_label_bytes label then check_labels labels else some bad_character)

-- The tests on the trimmed text in lower case.
unfoldable pub check_domain : Str → Option DomainError
check_domain domain =
    if str_beq domain [] || ltb 253 (length domain)
    then some empty_or_long
    else (if has_url_byte domain then some not_a_name else check_labels (split b'.' domain))

unfoldable pub normalize_domain : Unicode → Str → Result DomainError Str
normalize_domain u value =
    let domain : Str = to_lower u.lower (trim_dot (trim_space u.trim value)) in
    elim (check_domain domain) [ none ↦ ok domain | some e ↦ err e ]

-- ===== src/Text.antt =====
-- Go strings as lists of bytes, with the operations of package `strings` that the program calls.
use Prim.Native.Char.{code}
use Prim.Native.String.{String}
use local_parental_control.Base.{
  ℕ, ◌≡◌, ◌↔◌, Bool, true, false, ◌&&◌, List, [], ◌∷◌, arith, ltb, nat_eq, if◌then◌else◌, Eq, ◌++◌,
  leb, map, ◌+◌, ◌||◌, suc, ◌/◌, ◌%◌, zero,
}

abbrev pub Str : Type 0
Str = List ℕ

-- The bytes of an ASCII literal.
abbrev pub codes : String → Str
codes String.[] = []
codes (String.◌∷◌ c s) = code c ∷ codes s

abbrev pub str_beq : Str → Str → Bool
str_beq [] [] = true
str_beq (a ∷ s) (b ∷ t) = nat_eq a b && str_beq s t
str_beq _ _ = false

pub str_beq_iff : (s t : Str) → (str_beq s t ≡ true) ↔ (s ≡ t)
str_beq_iff [] [] = ground arith
str_beq_iff [] (b ∷ t) = ground arith
str_beq_iff (a ∷ s) [] = ground arith
str_beq_iff (a ∷ s) (b ∷ t) = ground (arith, str_beq_iff s t)

instance abbrev pub str_eq : Eq Str
str_eq = record { beq = str_beq; beq_iff = str_beq_iff }

-- `s < t` on strings: lexicographic on bytes.
unfoldable pub str_ltb : Str → Str → Bool
str_ltb [] [] = false
str_ltb [] (b ∷ t) = true
str_ltb (a ∷ s) [] = false
str_ltb (a ∷ s) (b ∷ t) = if nat_eq a b then str_ltb s t else ltb a b

-- `strings.HasPrefix(s, prefix)`
unfoldable pub has_prefix : Str → Str → Bool
has_prefix s [] = true
has_prefix [] (b ∷ t) = false
has_prefix (a ∷ s) (b ∷ t) = nat_eq a b && has_prefix s t

-- `strings.Split(s, sep)` for a separator of one byte: the part before the first one, and the rest.
unfoldable pub split_first : ℕ → Str → Str × List Str
split_first sep [] = ([], [])
split_first sep (c ∷ s) =
    let (part, parts) = split_first sep s in
    if nat_eq c sep then ([], part ∷ parts) else (c ∷ part, parts)

unfoldable pub split : ℕ → Str → List Str
unfolding split_first
split sep s = let (part, parts) = split_first sep s in part ∷ parts

-- `strings.Join(parts, sep)`
unfoldable pub join : Str → List Str → Str
join sep [] = []
join sep (part ∷ []) = part
join sep (part ∷ next ∷ parts) = part ++ (sep ++ join sep (next ∷ parts))

-- `strings.TrimSuffix(s, ".")`
unfoldable pub trim_dot : Str → Str
trim_dot [] = []
trim_dot (c ∷ []) = if nat_eq c b'.' then [] else c ∷ []
trim_dot (c ∷ d ∷ s) = c ∷ trim_dot (d ∷ s)

abbrev pub lower_byte : ℕ → ℕ
lower_byte c = if leb b'A' c && leb c b'Z' then c + 32 else c

unfoldable pub is_ascii : Str → Bool
is_ascii [] = true
is_ascii (c ∷ s) = ltb c 128 && is_ascii s

-- `strings.ToLower`: byte by byte on an ASCII text; for any other text the Unicode tables are a
-- parameter.
unfoldable pub to_lower : (Str → Str) → Str → Str
to_lower unicode_lower s = if is_ascii s then map lower_byte s else unicode_lower s

-- The ASCII bytes that `unicode.IsSpace` holds of.
unfoldable pub is_space : ℕ → Bool
is_space c = nat_eq c 32 || leb 9 c && leb c 13

unfoldable pub trim_left : Str → Str
unfolding is_space
trim_left [] = []
trim_left (c ∷ s) = if is_space c then trim_left s else c ∷ s

unfoldable pub trim_right : Str → Str
unfolding is_space
trim_right [] = []
trim_right (c ∷ s) =
    let rest : Str = trim_right s in if is_space c && str_beq rest [] then [] else c ∷ rest

-- `strings.TrimSpace`: the spaces of a text that is not ASCII are a parameter.
unfoldable pub trim_space : (Str → Str) → Str → Str
trim_space unicode_trim s = if is_ascii s then trim_right (trim_left s) else unicode_trim s

-- `strings.Contains(s, part)`
unfoldable pub contains_text : Str → Str → Bool
unfolding has_prefix
contains_text [] part = has_prefix [] part
contains_text (c ∷ s) part = has_prefix (c ∷ s) part || contains_text s part

-- The fields of an ASCII text between spaces, with the field that is being read.
unfoldable pub fields_from : Str → Str → List Str
unfolding is_space
fields_from [] [] = []
fields_from (a ∷ field) [] = (a ∷ field) ∷ []
fields_from [] (c ∷ s) = if is_space c then fields_from [] s else fields_from (c ∷ []) s
fields_from (a ∷ field) (c ∷ s) =
    if is_space c then (a ∷ field) ∷ fields_from [] s else fields_from (a ∷ field ++ c ∷ []) s

-- `strings.Fields(s)`; the spaces of a text that is not ASCII are a parameter.
unfoldable pub fields : (Str → List Str) → Str → List Str
unfolding fields_from
fields unicode_fields s = if is_ascii s then fields_from [] s else unicode_fields s

-- The decimal digits of a number; its fuel is more than its digits.
unfoldable pub digits : ℕ → ℕ → Str
digits zero n = []
digits (suc fuel) n =
    let rest : Str = digits fuel (n / 10) in
    if ltb n 10 then (b'0' + n) ∷ [] else rest ++ (b'0' + n % 10) ∷ []

-- `%d` of a number that is not negative.
unfoldable pub decimal : ℕ → Str
unfolding digits
decimal n = digits (suc n) n

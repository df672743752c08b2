-- ===== src/Config/Paths.antt =====
-- Executable identities of internal/config/config.go: lexical paths and Snap revisions.
use local_parental_control.Base.{
  ℕ, Bool, List, reverse, [], Option, if◌then◌else◌, none, some, drop, ◌==◌, ◌∷◌, ◌&&◌, ltb, false,
  true, ◌||◌, ◌++◌, ◌*◌, ◌^◌, ◌+◌, ◌-◌,
}
use local_parental_control.Text.{Str, codes, has_prefix, split, join, str_eq}
use local_parental_control.Config.Clock.{is_digit}

abbrev pub slash : ℕ
slash = b'/'

abbrev pub dot_dot : Str
dot_dot = codes ".."

-- One element of a path in `filepath.Clean`; the stack has the last kept element at its head.
unfoldable pub clean_element : Bool → List Str → Str → List Str
clean_element rooted stack element =
    if element == [] || element == codes "."
    then stack
    else (if element == dot_dot
        then (elim stack [
          | [] ↦ if rooted then [] else dot_dot ∷ []
          | top ∷ below ↦ if top == dot_dot then dot_dot ∷ top ∷ below else below
        ])
        else element ∷ stack)

unfoldable pub clean_from : Bool → List Str → List Str → List Str
clean_from rooted stack [] = reverse stack
clean_from rooted stack (element ∷ elements) =
    clean_from rooted (clean_element rooted stack element) elements

-- `filepath.IsAbs`
unfoldable pub is_abs : Str → Bool
is_abs path = has_prefix path (slash ∷ [])

-- The elements of `filepath.Clean(path)`.
unfoldable pub elements_of : Str → List Str
elements_of path = clean_from (is_abs path) [] (split slash path)

-- `filepath.Clean`
unfoldable pub clean : Str → Str
clean path =
    if is_abs path then slash ∷ join (slash ∷ []) (elements_of path) else (elim (elements_of path) [
      | [] ↦ codes "."
      | element ∷ elements ↦ join (slash ∷ []) (element ∷ elements)
    ])

-- What is left of a path below a base, element by element: `filepath.Rel` of two absolute clean
-- paths, where the target is not outside the base. `none` stands for a result that is "." or ".."
-- or begins with "../", and for an error; the callers refuse all of them alike.
unfoldable pub below_base : List Str → List Str → Option (List Str)
below_base [] [] = none
below_base [] (element ∷ elements) = some (element ∷ elements)
below_base (b ∷ base) [] = none
below_base (b ∷ base) (element ∷ elements) = if b == element then below_base base elements else none

unfoldable pub relative_elements : Str → Str → Option (List Str)
relative_elements base path =
    if is_abs base && is_abs path then below_base (elements_of base) (elements_of path) else none

-- The decimal digits of `strconv.ParseUint(text, 10, 64)`.
unfoldable pub parse_digits : ℕ → Str → Option ℕ
parse_digits acc [] = some acc
parse_digits acc (c ∷ text) = if is_digit c then parse_digits (acc * 10 + (c - b'0')) text else none

-- `strconv.ParseUint(text, 10, bits)`
unfoldable pub parse_uint : ℕ → Str → Option ℕ
parse_uint bits [] = none
parse_uint bits (c ∷ text) = elim (parse_digits 0 (c ∷ text)) [
  | none ↦ none
  | some n ↦ if ltb n (2 ^ bits) then some n else none
]

unfoldable pub valid_snap_revision : Str → Bool
valid_snap_revision revision =
    let number : Str = if has_prefix revision (codes "x") then drop 1 revision else revision in
    elim (parse_uint 64 number) [ none ↦ false | some n ↦ true ]

-- The package and the path below the revision, joined by a zero byte.
unfoldable pub snap_parts : Bool → List Str → Option Str
snap_parts stable (pkg ∷ revision ∷ file ∷ files) =
    if pkg == []
    then none
    else (if (if stable then revision == codes "current" else valid_snap_revision revision)
        then some (pkg ++ (0 ∷ join (slash ∷ []) (file ∷ files)))
        else none)
snap_parts stable _ = none

unfoldable pub snap_executable_parts : Str → Bool → Option Str
snap_executable_parts path stable = elim (relative_elements (codes "/snap") path) [
  | none ↦ none
  | some parts ↦ snap_parts stable parts
]

unfoldable pub executable_matches : Str → Str → Bool
executable_matches configured running =
    if clean configured == clean running
    then true
    else (elim (snap_executable_parts (clean configured) true) [
      | none ↦ false
      | some expected ↦ elim (snap_executable_parts (clean running) false) [
        | none ↦ false
        | some found ↦ expected == found
      ]
    ])

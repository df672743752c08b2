-- ===== src/Process/Stat.antt =====
-- `readStartTime` and `readUID` of internal/process/process.go. The text of a file is `none` where it
-- cannot be read.
pub mod Laws
mod Tests
use local_parental_control.Config.Clock.{◌>>=◌}
use local_parental_control.Base.{
  ℕ, List, Option, none, get_elem?, ◌∷◌, some, if◌then◌else◌, nat_eq, [], leb, length,
}
use local_parental_control.Text.{Str, fields, has_prefix, codes, split}
use local_parental_control.Config.Paths.{parse_uint}

-- What follows the last occurrence of a byte: `contents[strings.LastIndexByte(contents, c)+1:]`.
unfoldable pub after_last : ℕ → Str → Option Str
after_last c [] = none
after_last c (a ∷ s) = elim (after_last c s) [
  | some rest ↦ some rest
  | none ↦ if nat_eq a c then some s else none
]

-- The fields behind the name of the process; the start time is the twentieth.
unfoldable pub start_time_field : (Str → List Str) → Str → Option ℕ
start_time_field unicode_fields rest = elim (get_elem? (fields unicode_fields rest) 19) [
  | none ↦ none
  | some text ↦ parse_uint 64 text
]

unfoldable pub read_start_time : (Str → List Str) → Option Str → Option ℕ
read_start_time unicode_fields file = do
  contents ← file
  rest ← after_last b')' contents
  if leb (length rest) 1 then none else start_time_field unicode_fields rest

-- The second field of a line, where there is one.
unfoldable pub uid_field : List Str → Option ℕ
uid_field (label ∷ uid ∷ more) = parse_uint 32 uid
uid_field _ = none

unfoldable pub uid_line : (Str → List Str) → List Str → Option ℕ
uid_line unicode_fields [] = none
uid_line unicode_fields (line ∷ lines) =
    if has_prefix line (codes "Uid:")
    then uid_field (fields unicode_fields line)
    else uid_line unicode_fields lines

unfoldable pub read_uid : (Str → List Str) → Option Str → Option ℕ
read_uid unicode_fields file = do contents ← file; uid_line unicode_fields (split 10 contents)

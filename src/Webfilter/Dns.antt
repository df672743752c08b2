-- ===== src/Webfilter/Dns.antt =====
-- DNS packets as internal/webfilter/dns.go reads and answers them. A packet is a list of bytes.
pub mod Decode
use Prim.Native.Nat.{bit_or, bit_and}
use local_parental_control.Base.{
  ℕ, Result, List, err, drop, Option, ◌∷◌, suc, ◌++◌, if◌then◌else◌, ◌/◌, [], none, get_elem?,
  length, ltb, some, ◌*◌, ◌%◌, leb, ◌+◌, ◌||◌, take, not, nat_eq, ok, zero,
}
use local_parental_control.Text.{Str, join, to_lower, codes, trim_dot}
use local_parental_control.Webfilter.Match.{matches_domain}

-- `exhausted` stands for a loop without end; every other error of the source is `invalid`.
pub data NameError : Type 0 where
  invalid exhausted : NameError

abbrev pub Decoded : Type 0
Decoded = Result NameError (Str × ℕ)

-- `labels` after the target of a compression pointer was read.
unfoldable pub with_suffix : List Str → Str → List Str
with_suffix labels [] = labels
with_suffix labels (c ∷ suffix) = labels ++ (c ∷ suffix) ∷ []

-- The loop of `decodeName`; `follow` decodes the target of a compression pointer. The variable
-- `next` of the source follows `offset` until the pointer, where the loop ends.
unfoldable pub decode_labels : (ℕ → Decoded) → List ℕ → ℕ → ℕ → List Str → Decoded
decode_labels follow packet zero offset labels = err exhausted
decode_labels follow packet (suc fuel) offset labels = elim (get_elem? packet offset) [
  | none ↦ err invalid
  | some size ↦
      let rest : Decoded =
        decode_labels follow packet fuel (offset + 1 + size)
          (labels ++ take size (drop (offset + 1) packet) ∷ []) in
      if nat_eq size 0
      then ok (join (codes ".") labels, offset + 1)
      else (if nat_eq (size / 64 % 4) 3
          then (elim (get_elem? packet (offset + 1)) [
            | none ↦ err invalid
            | some low ↦ elim (follow (size % 64 * 256 + low)) [
              | err e ↦ err e
              | ok found ↦ ok (join (codes ".") (with_suffix labels found.0), offset + 2)
            ]
          ])
          else (if not (nat_eq (size / 64 % 4) 0)
                || (ltb 63 size || ltb (length packet) (offset + 1 + size))
              then err invalid
              else rest))
]

-- `decodeName` with `depth` calls left: the source starts at depth 0 and refuses a depth above 16,
-- which leaves 17 calls. The loop moves on by at least a byte a round.
unfoldable pub decode_name : ℕ → List ℕ → ℕ → Decoded
decode_name zero packet offset = err invalid
decode_name (suc depth) packet offset =
    let labels : Decoded =
      decode_labels (decode_name depth packet) packet (suc (length packet)) offset [] in
    if leb (length packet) offset then err invalid else labels

abbrev pub max_depth : ℕ
max_depth = 17

-- `binary.BigEndian.Uint16(packet[i:i+2])` of a packet that is long enough.
unfoldable pub uint16_at : List ℕ → ℕ → ℕ
uint16_at packet i = elim (drop i packet) [
  | [] ↦ 0
  | high ∷ rest ↦ elim rest [ [] ↦ 0 | low ∷ more ↦ high * 256 + low ]
]

unfoldable pub question_name : (Str → Str) → List ℕ → Option Str
question_name unicode_lower packet =
    if ltb (length packet) 12 || not (nat_eq (uint16_at packet 4) 1)
    then none
    else (elim (decode_name max_depth packet 12) [
      | err e ↦ none
      | ok found ↦
          if ltb (length packet) (found.1 + 4)
          then none
          else some (to_lower unicode_lower (trim_dot found.0))
    ])

-- `binary.BigEndian.PutUint16(packet[i:i+2], value)`
unfoldable pub put_uint16 : ℕ → ℕ → List ℕ → List ℕ
put_uint16 zero value (a ∷ b ∷ rest) = (value / 256 % 256) ∷ (value % 256) ∷ rest
put_uint16 (suc i) value (a ∷ rest) = a ∷ put_uint16 i value rest
put_uint16 _ value packet = packet

-- Response and recursion available set, the response code NXDOMAIN.
unfoldable pub answer_flags : ℕ → ℕ
answer_flags flags = bit_or (bit_and (bit_or (bit_or flags 0x8000) 0x0080) 0xfff0) 3

unfoldable pub blocked_response : (Str → Str) → List ℕ → Option (List ℕ)
blocked_response unicode_lower query = elim (question_name unicode_lower query) [
  | none ↦ none
  | some name ↦ some (
      put_uint16 10 0
        (put_uint16 8 0 (put_uint16 6 0 (put_uint16 2 (answer_flags (uint16_at query 2)) query))))
]

unfoldable pub filter_response : (Str → Str) → List Str → List ℕ → Option (List ℕ)
filter_response unicode_lower blocked query = elim (question_name unicode_lower query) [
  | none ↦ none
  | some name ↦ if matches_domain name blocked then blocked_response unicode_lower query else none
]

-- `tcpPacket`: a packet behind its length in two bytes.
unfoldable pub tcp_packet : List ℕ → Option (List ℕ)
tcp_packet packet =
    if ltb 65535 (length packet)
    then none
    else some ((length packet / 256 % 256) ∷ (length packet % 256) ∷ packet)

-- ===== src/Webfilter/Dns/Decode.antt =====
-- Decoding a name: it ends on every packet, and reads back what a resolver writes.
use local_parental_control.Base.{
  ℕ, List, get_elem?, ◌≡◌, ◌≢◌, some, err, ◌<◌, length, ◌∷◌, arith, ◌+◌, suc, [], ◌≤◌, zero,
  Option-cases, Bool-cases, leb, inl, inr, nat_eq, ◌/◌, ◌%◌, Result-cases, ◌*◌, ◌∙◌, not, ◌||◌, ltb,
  ◌++◌, take, drop,
}
use local_parental_control.Webfilter.Dns.{Decoded, exhausted, decode_labels, decode_name}
use local_parental_control.Text.{Str}

get_elem-bound : (packet : List ℕ) (i : ℕ) {b : ℕ} → get_elem? packet i ≡ some b → i < length packet
get_elem-bound [] i e = cc
get_elem-bound (x ∷ packet) zero e = omega arith
get_elem-bound (x ∷ packet) (suc i) e = omega (arith, get_elem-bound packet i e)

module _ (follow : ℕ → Decoded) (packet : List ℕ) (safe : (p : ℕ) → follow p ≢ err exhausted) where
  decode_labels_ends :
      (fuel offset : ℕ) (labels : List Str)
      → length packet < fuel + offset
      → offset ≤ length packet
      → decode_labels follow packet fuel offset labels ≢ err exhausted
  unfolding decode_labels
  decode_labels_ends zero offset labels h inside e = omega arith
  decode_labels_ends (suc fuel) offset labels h inside e =
      elim (Option-cases (get_elem? packet offset)) [
        | inl none_read ↦ absurd (cc (rw (none_read, decode_labels) at e))
        | inr (size, read) ↦ elim (Bool-cases (nat_eq size 0)) [
          | inl last ↦ absurd (cc (rw (read, decode_labels, last) at e))
          | inr more ↦ elim (Bool-cases (nat_eq (size / 64 % 4) 3)) [
            | inl pointer ↦ elim (Option-cases (get_elem? packet (offset + 1))) [
              | inl none_read ↦
                  absurd (cc (rw (read, decode_labels, more, pointer, none_read) at e))
              | inr (low, read_low) ↦ elim (Result-cases (follow (size % 64 * 256 + low))) [
                | inr (found, f) ↦
                    absurd (cc (rw (read, decode_labels, more, pointer, read_low, f) at e))
                | inl (bad, f) ↦
                    safe (size % 64 * 256 + low)
                      (f ∙ rw (read, decode_labels, more, pointer, read_low, f) at e)
              ]
            ]
            | inr plain ↦
                elim (Bool-cases (
                  not (nat_eq (size / 64 % 4) 0)
                  || (ltb 63 size || ltb (length packet) (offset + 1 + size)))) [
                    | inl refused ↦
                        absurd (cc (rw (read, decode_labels, more, plain, refused) at e))
                    | inr fits ↦
                        decode_labels_ends fuel (offset + 1 + size)
                          (labels ++ take size (drop (offset + 1) packet) ∷ []) (omega arith)
                          (ground (arith)) (rw (read, decode_labels, more, plain, fits) at e)
                  ]
          ]
        ]
      ]

-- Decoding a name comes to an end at every offset of every packet, whatever compression pointers
-- the packet holds and however many pointers may be followed: it gives a name or refuses the packet.
pub decode_name_ends :
    (depth : ℕ) (packet : List ℕ) (offset : ℕ) → decode_name depth packet offset ≢ err exhausted
unfolding decode_name
decode_name_ends zero packet offset e = cc
decode_name_ends (suc depth) packet offset e = elim (Bool-cases (leb (length packet) offset)) [
  | inl outside ↦ absurd (cc (rw outside at e))
  | inr inside ↦
      decode_labels_ends (decode_name depth packet) packet (decode_name_ends depth packet)
        (suc (length packet)) offset [] (omega arith) (ground (arith)) (rw inside at e)
]

-- ===== src/Webfilter/Filter/Script.antt =====
-- The text of the scripts that the filter gives to nft, and what it redirects.
use local_parental_control.Base.{
  ℕ_eq, ℕ, List, ◌≡◌, ◌++◌, some, ◌∷◌, [], if_cases, map, inl, ◌⊎◌, ltb, Bool-cases, inr, ap, ◌==◌,
  nat_eq_iff, ◌∙◌, sym, append_assoc,
}
use local_parental_control.Text.{Str, codes, decimal}
use local_parental_control.Webfilter.Filter.{
  insert_uid, sort_uids, rule_lines, all_rule_lines, nft_script,
}
use local_parental_control.Dict.{lookup, get_or, Dict}

-- The text of a rule that redirects the DNS queries of a UID over a protocol to a port.
abbrev pub redirect_line : Str → ℕ → ℕ → Str
redirect_line protocol uid port =
    codes "meta skuid "
    ++ (decimal uid
        ++ (codes " "
            ++ (protocol ++ (codes " dport 53 redirect to :" ++ (decimal port ++ 10 ∷ [])))))

-- The text that removes the table of the filter, and the text that opens it again with its chain.
abbrev pub removal : Str
removal = codes "destroy table inet local_parental_control" ++ 10 ∷ []

abbrev pub opening : Str
opening =
    codes "table inet local_parental_control {"
    ++ (10 ∷ codes " chain dns_output { type nat hook output priority dstnat; policy accept;")
    ++ 10 ∷ []

abbrev pub closing : Str
closing = codes "}" ++ (10 ∷ codes "}" ++ 10 ∷ [])

-- The script replaces the table by one whose chain redirects the UID to the port, over UDP and TCP.
abbrev pub Redirects : Str → ℕ → ℕ → Type 0
Redirects script uid port =
    (before after : Str) × (script
      ≡ removal
        ++ (opening
            ++ (before
                ++ (redirect_line (codes "udp") uid port
                    ++ (redirect_line (codes "tcp") uid port ++ (after ++ closing))))))

abbrev Listed : ℕ → List ℕ → Type 0
Listed uid [] = ⊥
Listed uid (other ∷ uids) = (other ≡ uid) ⊎ Listed uid uids

insert_uid-Listed :
    (uid other : ℕ) (uids : List ℕ) → Listed uid (other ∷ uids) → Listed uid (insert_uid other uids)
unfolding insert_uid
insert_uid-Listed uid other [] h = h
insert_uid-Listed uid other (x ∷ uids) h =
    if_cases (Listed uid) (ltb x other)
      (λ _. elim h [
        | inl here ↦ inr (insert_uid-Listed uid other uids (inl here))
        | inr (inl first) ↦ inl first
        | inr (inr later) ↦ inr (insert_uid-Listed uid other uids (inr later))
      ])
      (λ _. h)

sort_uids-Listed : (uid : ℕ) (uids : List ℕ) → Listed uid uids → Listed uid (sort_uids uids)
unfolding sort_uids
sort_uids-Listed uid [] h = h
sort_uids-Listed uid (x ∷ uids) (inl here) = insert_uid-Listed uid x (sort_uids uids) (inl here)
sort_uids-Listed uid (x ∷ uids) (inr later) =
    insert_uid-Listed uid x (sort_uids uids) (inr (sort_uids-Listed uid uids later))

lookup-Listed :
    (uid : ℕ) (rules : Dict ℕ ℕ) {port : ℕ}
    → lookup uid rules ≡ some port
    → Listed uid (map (λ r. r.0) rules)
unfolding lookup
lookup-Listed uid [] h = absurd cc
lookup-Listed uid ((other, to) ∷ rules) h = elim (Bool-cases (other == uid)) [
  | inl same ↦ inl ((nat_eq_iff other uid).0 same)
  | inr apart ↦ inr (lookup-Listed uid rules (rw (lookup, apart) at h))
]

rule_lines_text :
    (uid port : ℕ) (rest : Str)
    → rule_lines uid port ++ rest
      ≡ redirect_line (codes "udp") uid port ++ (redirect_line (codes "tcp") uid port ++ rest)
unfolding rule_lines
rule_lines_text uid port rest = simp (append_assoc)

all_rule_lines_text :
    (rules : Dict ℕ ℕ) (uid : ℕ) (uids : List ℕ)
    → Listed uid uids
    → (before after : Str) × (all_rule_lines rules uids
        ≡ before
          ++ (redirect_line (codes "udp") uid (get_or uid 0 rules)
              ++ (redirect_line (codes "tcp") uid (get_or uid 0 rules) ++ after)))
unfolding all_rule_lines
all_rule_lines_text rules uid [] h = elim h [ ]
all_rule_lines_text rules uid (other ∷ uids) (inl here) = (
  [],
  all_rule_lines rules uids,
  rw here (rule_lines_text uid (get_or uid 0 rules) (all_rule_lines rules uids)),
)
all_rule_lines_text rules uid (other ∷ uids) (inr later) =
    let (before, after, same) = all_rule_lines_text rules uid uids later in
    (
      rule_lines other (get_or other 0 rules) ++ before,
      after,
      ap (λ text. rule_lines other (get_or other 0 rules) ++ text) same
          ∙ sym (append_assoc (rule_lines other (get_or other 0 rules)) before _),
    )

get_or_found :
    (uid : ℕ) (rules : Dict ℕ ℕ) {port : ℕ}
    → lookup uid rules ≡ some port
    → get_or uid 0 rules ≡ port
unfolding get_or
get_or_found uid rules h = rw (get_or, h)

pub nft_script-Redirects :
    (rules : Dict ℕ ℕ) (uid port : ℕ)
    → lookup uid rules ≡ some port
    → Redirects (nft_script rules) uid port
unfolding nft_script lookup
nft_script-Redirects [] uid port h = absurd cc
nft_script-Redirects (rule ∷ rules) uid port h =
    let sorted : List ℕ = sort_uids (map (λ r. r.0) (rule ∷ rules)) in
    let (before, after, same) =
      all_rule_lines_text (rule ∷ rules) uid sorted (
        sort_uids-Listed uid (map (λ r. r.0) (rule ∷ rules))
          (lookup-Listed uid (rule ∷ rules) h)) in
    (before, after, rw (same, get_or_found uid (rule ∷ rules) h) (simp (append_assoc)))

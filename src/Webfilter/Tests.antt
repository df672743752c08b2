-- ===== src/Webfilter/Tests.antt =====
-- Names and packets at which the theorems on the filter apply.
use local_parental_control.Base.{List, ℕ, ◌∷◌, ◌≡◌, ◌≢◌, [], true, err, ◌↔◌}
use local_parental_control.Webfilter.Match.{matches_domain, InSome, matches_domain_iff}
use local_parental_control.Webfilter.Dns.{decode_name, max_depth, exhausted}
use local_parental_control.Text.{Str, codes}
use local_parental_control.Webfilter.Dns.Decode.{decode_name_ends}

abbrev blocked : List Str
blocked = codes "example.org" ∷ []

matches_domain_iff_example :
    (matches_domain (codes "www.example.org") blocked ≡ true)
    ↔ InSome (codes "www.example.org") blocked
matches_domain_iff_example = matches_domain_iff (codes "www.example.org") blocked

-- A pointer to itself.
abbrev self_pointer : List ℕ
self_pointer = 192 ∷ 0 ∷ []

decode_name_ends_example : decode_name max_depth self_pointer 0 ≢ err exhausted
decode_name_ends_example = decode_name_ends max_depth self_pointer 0

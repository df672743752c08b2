-- ===== src/Daemon/Session/Properties.antt =====
-- The properties of a session, as they are read from the output of loginctl.
use local_parental_control.Text.{str_eq, str_beq_iff, Str, codes, str_beq, split, trim_space}
use local_parental_control.Base.{
  List, Option, some, none, Bool, ◌≡◌, true, ◌∷◌, if◌then◌else◌, nat_eq, not, [], ◌++◌, ◌∙◌, ◌||◌,
  false, Option-cases, ap, ◌&&◌, refl, arith, inl, inr, nat_eq_iff, subst, some-inj, sym,
}
use local_parental_control.Daemon.Session.{
  cut_at, add_property, add_properties, parse_yes, session_state, parse_session_state, SessionState,
}
use local_parental_control.Dict.{lookup, Dict, insert, lookup-insert}

abbrev pub strip_prefix : Str → Str → Option Str
strip_prefix [] line = some line
strip_prefix (k ∷ key) [] = none
strip_prefix (k ∷ key) (a ∷ line) = if nat_eq a k then strip_prefix key line else none

-- The last line of a text that sets a property gives its value.
abbrev pub value_of : Str → List Str → Option Str
value_of key [] = none
value_of key (line ∷ lines) = elim (value_of key lines) [
  | some value ↦ some value
  | none ↦ strip_prefix (key ++ b'=' ∷ []) line
]

-- The lines say "yes" or "no" of a property.
abbrev pub Says : List Str → Str → Bool → Type 0
Says lines key true = value_of key lines ≡ some (codes "yes")
Says lines key false = value_of key lines ≡ some (codes "no")

abbrev pub is_graphical : Str → Bool
is_graphical kind = str_beq kind (codes "x11") || str_beq kind (codes "wayland")

-- The lines give the three properties of a session, which is active, locked and graphical as told.
abbrev pub Describes : List Str → Bool → Bool → Bool → Type 0
Describes lines active locked graphical =
    Says lines (codes "Active") active
    × Says lines (codes "LockedHint") locked
    × ((kind : Str) × (value_of (codes "Type") lines ≡ some kind) × (is_graphical kind ≡ graphical))

abbrev without_equals : Str → Bool
without_equals [] = true
without_equals (k ∷ key) = not (nat_eq k b'=') && without_equals key

abbrev cut_value : Str → Option (Str × Str) → Option Str
cut_value key none = none
cut_value key (some (before, after)) = if str_beq before key then some after else none

cut_value-strip_prefix :
    (key line : Str)
    → without_equals key ≡ true
    → cut_value key (cut_at b'=' line) ≡ strip_prefix (key ++ b'=' ∷ []) line
unfolding cut_at
cut_value-strip_prefix [] [] h = refl
cut_value-strip_prefix (k ∷ key) [] h = refl
cut_value-strip_prefix [] (a ∷ line) h = elim (Option-cases (cut_at b'=' line)) [
  | inl e ↦ ground arith
  | inr (parts, e) ↦ ground arith
]
cut_value-strip_prefix (k ∷ key) (a ∷ line) h = elim (Option-cases (cut_at b'=' line)) [
  | inl e ↦ ground (arith, cut_value-strip_prefix key line, nat_eq_iff a k)
  | inr (parts, e) ↦ ground (arith, cut_value-strip_prefix key line, nat_eq_iff a k)
]

abbrev or_else : Option Str → Option Str → Option Str
or_else (some value) other = some value
or_else none other = other

lookup-add_property :
    (key line : Str) (d : Dict Str Str)
    → without_equals key ≡ true
    → lookup key (add_property line d)
      ≡ or_else (strip_prefix (key ++ b'=' ∷ []) line) (lookup key d)
unfolding add_property
lookup-add_property key line d h =
    subst (λ v. lookup key (add_property line d) ≡ or_else v (lookup key d))
      (cut_value-strip_prefix key line h) (from_cut (cut_at b'=' line))
  where
    from_cut :
        (parts : Option (Str × Str))
        → lookup key (elim parts [ none ↦ d | some (before, after) ↦ insert before after d ])
          ≡ or_else (cut_value key parts) (lookup key d)
    from_cut none = refl
    from_cut (some (before, after)) = ground (arith, lookup-insert before key after d)

lookup-add_properties :
    (key : Str) (lines : List Str) (d : Dict Str Str)
    → without_equals key ≡ true
    → lookup key (add_properties lines d) ≡ or_else (value_of key lines) (lookup key d)
unfolding add_properties
lookup-add_properties key [] d h = refl
lookup-add_properties key (line ∷ lines) d h =
    lookup-add_properties key lines (add_property line d) h
    ∙ (ap (or_else (value_of key lines)) (lookup-add_property key line d h)
        ∙ chain (value_of key lines) (strip_prefix (key ++ b'=' ∷ []) line))
  where
    chain :
        (later here : Option Str)
        → or_else later (or_else here (lookup key d))
          ≡ or_else (elim later [ some value ↦ some value | none ↦ here ]) (lookup key d)
    chain none here = refl
    chain (some value) here = refl

-- A property of the output is the value that its last line for it gives.
lookup_output :
    (key : Str) (lines : List Str)
    → without_equals key ≡ true
    → lookup key (add_properties lines []) ≡ value_of key lines
unfolding lookup
lookup_output key lines h = lookup-add_properties key lines [] h ∙ ending (value_of key lines)
  where
    ending : (v : Option Str) → or_else v none ≡ v
    ending none = refl
    ending (some value) = refl

parse_yes_sound :
    (value : Str) (answer : Bool)
    → parse_yes value ≡ some answer
    → value ≡ (if answer then codes "yes" else codes "no")
unfolding parse_yes
parse_yes_sound value true h = ground (arith, str_beq_iff value (codes "yes"))
parse_yes_sound value false h =
    ground (arith, str_beq_iff value (codes "yes"), str_beq_iff value (codes "no"))

parsed-Says :
    (lines : List Str) (key value : Str) (answer : Bool)
    → value_of key lines ≡ some value
    → parse_yes value ≡ some answer
    → Says lines key answer
parsed-Says lines key value true found h = found ∙ ap some (parse_yes_sound value true h)
parsed-Says lines key value false found h = found ∙ ap some (parse_yes_sound value false h)

parse_yes-Says :
    (lines : List Str) (key : Str) (answer : Bool)
    → Says lines key answer
    → (value : Str) × (value_of key lines ≡ some value) × (parse_yes value ≡ some answer)
unfolding parse_yes
parse_yes-Says lines key true h = (codes "yes", h, refl)
parse_yes-Says lines key false h = (codes "no", h, refl)

session_state_facts :
    (d : Dict Str Str) {st : SessionState}
    → session_state d ≡ some st
    → (active locked kind : Str) × (lookup (codes "Active") d ≡ some active)
      × (lookup (codes "LockedHint") d ≡ some locked)
      × (lookup (codes "Type") d ≡ some kind)
      × (parse_yes active ≡ some st.active)
      × (parse_yes locked ≡ some (not st.unlocked))
      × (is_graphical kind ≡ st.graphical)
unfolding session_state
session_state_facts d {st} h = elim (Option-cases (lookup (codes "Active") d)) [
  | inl e ↦ absurd (cc (rw (session_state, e) at h))
  | inr (active, e) ↦ elim (Option-cases (lookup (codes "LockedHint") d)) [
    | inl f ↦ absurd (cc (rw (session_state, e, f) at h))
    | inr (locked, f) ↦ elim (Option-cases (lookup (codes "Type") d)) [
      | inl g ↦ absurd (cc (rw (session_state, e, f, g) at h))
      | inr (kind, g) ↦ elim (Option-cases (parse_yes active)) [
        | inl p ↦ absurd (cc (rw (session_state, e, f, g, p) at h))
        | inr (a, p) ↦ elim (Option-cases (parse_yes locked)) [
          | inl q ↦ absurd (cc (rw (session_state, e, f, g, p, q) at h))
          | inr (l, q) ↦
              let same = some-inj (rw (session_state, e, f, g, p, q) at h) in
              (
                active,
                locked,
                kind,
                e,
                f,
                g,
                p ∙ ap (λ (t : SessionState). some t.active) same,
                q
                    ∙ ap some (sym (twice_negated l))
                    ∙ ap (λ (t : SessionState). some (not t.unlocked)) same,
                ap SessionState.graphical same,
              )
        ]
      ]
    ]
  ]
]
  where
    twice_negated : (b : Bool) → not (not b) ≡ b
    twice_negated true = refl
    twice_negated false = refl

-- What is read of an output is what its lines describe.
pub parse_session_state-Describes :
    (trim : Str → Str) (output : Str) {st : SessionState}
    → parse_session_state trim output ≡ some st
    → Describes (split 10 (trim_space trim output)) st.active (not st.unlocked) st.graphical
unfolding parse_session_state
parse_session_state-Describes trim output {st} h =
    let lines : List Str = split 10 (trim_space trim output) in
    let (active, locked, kind, e, f, g, p, q, r) =
      session_state_facts (add_properties lines []) h in
    (
      parsed-Says lines (codes "Active") active st.active
          (sym (lookup_output (codes "Active") lines refl) ∙ e) p,
      parsed-Says lines (codes "LockedHint") locked (not st.unlocked)
          (sym (lookup_output (codes "LockedHint") lines refl) ∙ f) q,
      (kind, sym (lookup_output (codes "Type") lines refl) ∙ g, r),
    )

-- And what the lines describe is read.
pub parse_session_state_read :
    (trim : Str → Str) (output : Str) (active locked graphical : Bool)
    → Describes (split 10 (trim_space trim output)) active locked graphical
    → parse_session_state trim output
      ≡ some (record { active = active; unlocked = not locked; graphical = graphical })
unfolding parse_session_state session_state
parse_session_state_read trim output active locked graphical
      (says_active, says_locked, (kind, typed, same)) =
    let lines : List Str = split 10 (trim_space trim output) in
    let (a, found_a, parsed_a) = parse_yes-Says lines (codes "Active") active says_active in
    let (l, found_l, parsed_l) = parse_yes-Says lines (codes "LockedHint") locked says_locked in
    rw (
      parse_session_state,
      session_state,
      lookup_output (codes "Active") lines refl ∙ found_a,
      lookup_output (codes "LockedHint") lines refl ∙ found_l,
      lookup_output (codes "Type") lines refl ∙ typed,
      parsed_a,
      parsed_l,
      same,
    )

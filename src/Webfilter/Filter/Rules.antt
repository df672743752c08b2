-- ===== src/Webfilter/Filter/Rules.antt =====
-- What an application of the filter leaves in force.
use local_parental_control.Base.{
  ℕ, List, ◌∷◌, ◌≡◌, ◌++◌, some, [], none, ◌⊎◌, inl, Bool-cases, All, Option-cases, arith, ℕ_eq,
  inr, nat_eq, ltb, ◌+◌, ap, length, refl, nat_eq_iff, subst, sym, false, true, ◌∙◌,
}
use local_parental_control.Config.{Config}
use local_parental_control.Webfilter.Filter.{
  FilterWorld, install, resolve_and_install, apply, Server, Started, start_servers, Filter,
  FilterEvent, ApplyError, domains_of, close_servers, ran, base_port, sort_uids, nft_script,
  next_generation, system_resolver, filtered_uids, run_nft_fails, started,
}
use local_parental_control.Dict.{Dict, lookup, insert, lookup-insert, lookup-insert_self}
use local_parental_control.Text.{Str, contains_text, codes}

-- A server listens at the port and blocks the domains.
abbrev pub Listens : ℕ → List Str → List Server → Type 0
Listens port domains [] = ⊥
Listens port domains (s ∷ servers) =
    ((s.port ≡ port) × (s.blocked ≡ domains)) ⊎ Listens port domains servers

-- The rules redirect the UID to a server that blocks the domains of its user.
abbrev pub Serves : Config → Dict ℕ Str → Dict ℕ ℕ → List Server → ℕ → Type 0
Serves cfg users rules servers uid =
    (port : ℕ) × (lookup uid rules ≡ some port) × Listens port (domains_of cfg users uid) servers

Listens-append :
    (port : ℕ) (domains : List Str) (servers : List Server) (s : Server)
    → Listens port domains servers
    → Listens port domains (servers ++ s ∷ [])
Listens-append port domains [] s h = absurd h
Listens-append port domains (t ∷ servers) s (inl here) = inl here
Listens-append port domains (t ∷ servers) s (inr later) =
    inr (Listens-append port domains servers s later)

Listens-last :
    (port : ℕ) (domains : List Str) (servers : List Server) (s : Server)
    → s.port ≡ port
    → s.blocked ≡ domains
    → Listens port domains (servers ++ s ∷ [])
Listens-last port domains [] s p b = inl (p, b)
Listens-last port domains (t ∷ servers) s p b = inr (Listens-last port domains servers s p b)

module _ (w : FilterWorld) (cfg : Config) (users : Dict ℕ Str) (upstream : Str) where
  -- A UID that is served stays served when another server is added with its rule.
  Serves-insert :
      (uid other port : ℕ) (acc : Started)
      → Serves cfg users acc.rules acc.servers other
      → Serves cfg users
          (insert uid port acc.rules)
          (acc.servers
            ++ record { port = port; upstream = upstream; blocked = domains_of cfg users uid } ∷ [])
          other
  Serves-insert uid other port acc (old, known, listens) =
      let s : Server = record {
        port = port;
        upstream = upstream;
        blocked = domains_of cfg users uid;
      } in
      elim (Bool-cases (nat_eq uid other)) [
        | inl same ↦ (
          port,
          rw (lookup-insert uid other port acc.rules, same),
          Listens-last port (domains_of cfg users other) acc.servers s refl
              (ap (domains_of cfg users) ((nat_eq_iff uid other).0 same)),
        )
        | inr apart ↦ (
          old,
          rw (lookup-insert uid other port acc.rules, apart) known,
          Listens-append old (domains_of cfg users other) acc.servers s listens,
        )
      ]

  -- The values of the loop after a server was started.
  abbrev with_server : ℕ → ℕ → Started → Started
  with_server port uid acc =
      let s : Server = record {
        port = port;
        upstream = upstream;
        blocked = domains_of cfg users uid;
      } in
      record acc {
        servers = acc.servers ++ s ∷ [];
        rules = insert uid port acc.rules;
        log = started s ∷ acc.log;
      }

  start_servers-next :
      (port uid : ℕ) (uids : List ℕ) (acc : Started)
      → acc.failure ≡ none
      → (start_servers w cfg users upstream port (uid ∷ uids) acc).failure ≡ none
      → start_servers w cfg users upstream port (uid ∷ uids) acc
        ≡ start_servers w cfg users upstream (port + 1) uids (with_server port uid acc)
  unfolding start_servers
  start_servers-next port uid uids acc e whole = elim (Bool-cases (w.listen_fails port)) [
    | inl fails ↦ absurd (cc (rw (start_servers, fails) at whole))
    | inr works ↦ rw (start_servers, works)
  ]

  start_servers_keep :
      (other port : ℕ) (uids : List ℕ) (acc : Started)
      → acc.failure ≡ none
      → (start_servers w cfg users upstream port uids acc).failure ≡ none
      → Serves cfg users acc.rules acc.servers other
      → Serves cfg users
          (start_servers w cfg users upstream port uids acc).rules
          (start_servers w cfg users upstream port uids acc).servers
          other
  unfolding start_servers
  start_servers_keep other port [] acc e whole h = h
  start_servers_keep other port (uid ∷ uids) acc e whole h =
      let next = start_servers-next port uid uids acc e whole in
      subst (λ r. Serves cfg users (Started.rules r) (Started.servers r) other) (sym next)
        (start_servers_keep other (port + 1) uids (with_server port uid acc) e
          (ap Started.failure (sym next) ∙ whole) (Serves-insert uid other port acc h))

  start_servers-Serves :
      (port : ℕ) (uids : List ℕ) (acc : Started)
      → acc.failure ≡ none
      → (start_servers w cfg users upstream port uids acc).failure ≡ none
      → All
          (Serves cfg users
            (start_servers w cfg users upstream port uids acc).rules
            (start_servers w cfg users upstream port uids acc).servers)
          uids
  start_servers-Serves port [] acc e whole = tt
  start_servers-Serves port (uid ∷ uids) acc e whole =
      let next = start_servers-next port uid uids acc e whole in
      let s : Server = record {
        port = port;
        upstream = upstream;
        blocked = domains_of cfg users uid;
      } in
      let rest = ap Started.failure (sym next) ∙ whole in
      subst (λ r. All (Serves cfg users (Started.rules r) (Started.servers r)) (uid ∷ uids))
        (sym next)
        (
          start_servers_keep uid (port + 1) uids (with_server port uid acc) e rest (
            port,
            lookup-insert_self uid port acc.rules,
            Listens-last port (domains_of cfg users uid) acc.servers s refl refl,
          ),
          start_servers-Serves (port + 1) uids (with_server port uid acc) e rest,
        )

start_servers-rules :
    (w : FilterWorld) (cfg : Config) (users : Dict ℕ Str) (upstream : Str) (port : ℕ)
    (uids : List ℕ) (acc : Started)
    → uids ≡ []
    → (start_servers w cfg users upstream port uids acc).rules ≡ acc.rules
unfolding start_servers
start_servers-rules w cfg users upstream port [] acc e = refl
start_servers-rules w cfg users upstream port (uid ∷ uids) acc e = absurd cc

-- What holds of the filter `g` after `f`, where the last script was that of the rules, run before
-- the servers of `f` were closed.
abbrev pub RulesInForce : Config → Dict ℕ Str → List ℕ → Filter → Filter → Type 0
RulesInForce cfg users uids f g =
    (rules : Dict ℕ ℕ) × (older : List FilterEvent) × (g.log
      ≡ close_servers f.servers (ran (nft_script rules) ∷ older))
    × All (Serves cfg users rules g.servers) uids
    × (uids ≡ [] → rules ≡ [])

install-RulesInForce :
    (w : FilterWorld) (cfg : Config) (users : Dict ℕ Str) (upstream : Str) (uids : List ℕ)
    (f : Filter)
    → (install w cfg users upstream uids f).1 ≡ none
    → RulesInForce cfg users uids f (install w cfg users upstream uids f).0
unfolding install
install-RulesInForce w cfg users upstream uids f e =
    let empty : Started = record { servers = []; rules = []; log = f.log; failure = none } in
    let begun : Started =
      start_servers w cfg users upstream (base_port (next_generation f.generation)) uids empty in
    elim (Option-cases begun.failure) [
      | inr (username, broken) ↦ absurd (cc (rw (install, broken) at e))
      | inl whole ↦ elim (Bool-cases (run_nft_fails w (nft_script begun.rules))) [
        | inl fails ↦ absurd (cc (rw (install, whole, fails) at e))
        | inr works ↦
            rw (install, whole, works)
              (
                begun.rules,
                begun.log,
                refl,
                start_servers-Serves w cfg users upstream (base_port (next_generation f.generation))
                    uids empty refl whole,
                λ no_uids.
                    start_servers-rules w cfg users upstream
                      (base_port (next_generation f.generation)) uids empty no_uids,
              )
      ]
    ]

pub resolve_and_install-RulesInForce :
    (w : FilterWorld) (cfg : Config) (users : Dict ℕ Str) (uids : List ℕ) (f : Filter)
    → (resolve_and_install w cfg users uids f).1 ≡ none
    → RulesInForce cfg users uids f (resolve_and_install w cfg users uids f).0
unfolding resolve_and_install
resolve_and_install-RulesInForce w cfg users [] f e = install-RulesInForce w cfg users [] [] f e
resolve_and_install-RulesInForce w cfg users (uid ∷ uids) f e =
    elim (Option-cases (system_resolver w)) [
      | inl missing ↦ absurd (cc (rw (resolve_and_install, missing) at e))
      | inr (upstream, resolved) ↦
          let same : install w cfg users upstream (uid ∷ uids) f
              ≡ resolve_and_install w cfg users (uid ∷ uids) f =
            rw (resolve_and_install, resolved) in
          subst (λ r. RulesInForce cfg users (uid ∷ uids) f r.0) same
            (install-RulesInForce w cfg users upstream (uid ∷ uids) f (ap (λ r. r.1) same ∙ e))
    ]

install_fails :
    (w : FilterWorld) (cfg : Config) (users : Dict ℕ Str) (upstream : Str) (uids : List ℕ)
    (f : Filter) (e : ApplyError)
    → (install w cfg users upstream uids f).1 ≡ some e
    → ((install w cfg users upstream uids f).0.servers ≡ f.servers)
      × ((install w cfg users upstream uids f).0.upstream ≡ f.upstream)
      × ((install w cfg users upstream uids f).0.generation ≡ f.generation)
unfolding install
install_fails w cfg users upstream uids f e h = ground arith

resolve_and_install_fails :
    (w : FilterWorld) (cfg : Config) (users : Dict ℕ Str) (uids : List ℕ) (f : Filter)
    (e : ApplyError)
    → (resolve_and_install w cfg users uids f).1 ≡ some e
    → ((resolve_and_install w cfg users uids f).0.servers ≡ f.servers)
      × ((resolve_and_install w cfg users uids f).0.upstream ≡ f.upstream)
      × ((resolve_and_install w cfg users uids f).0.generation ≡ f.generation)
unfolding resolve_and_install
resolve_and_install_fails w cfg users [] f e h = install_fails w cfg users [] [] f e h
resolve_and_install_fails w cfg users (uid ∷ uids) f e h = elim (Option-cases (system_resolver w)) [
  | inl missing ↦ rw (resolve_and_install, missing) (refl, refl, refl)
  | inr (upstream, resolved) ↦
      rw (resolve_and_install, resolved)
        (install_fails w cfg users upstream (uid ∷ uids) f e
          (rw (resolve_and_install, resolved) at h))
]

-- An `Apply` that reports an error leaves the servers, the upstream and the generation as they were.
pub apply_fails :
    (w : FilterWorld) (cfg : Config) (users : Dict ℕ Str) (f : Filter) (e : ApplyError)
    → (apply w cfg users f).1 ≡ some e
    → ((apply w cfg users f).0.servers ≡ f.servers)
      × ((apply w cfg users f).0.upstream ≡ f.upstream)
      × ((apply w cfg users f).0.generation ≡ f.generation)
unfolding apply
apply_fails w cfg users f e h =
    let uids : List ℕ = sort_uids (filtered_uids cfg users) in
    elim (Bool-cases (ltb 1000 (length uids))) [
      | inl many ↦ rw (apply, many) (refl, refl, refl)
      | inr few ↦
          rw (apply, few) (resolve_and_install_fails w cfg users uids f e (rw (apply, few) at h))
    ]

nft_script-table : (rules : Dict ℕ ℕ) → contains_text (nft_script rules) (codes "table inet") ≡ true
unfolding nft_script contains_text
nft_script-table [] = refl
nft_script-table (rule ∷ rules) = refl

-- Every script of the filter names a table, so that `runNft` reports each failure of nft as an
-- error, also where the output says that the table does not exist.
pub run_nft_fails-nft_script :
    (w : FilterWorld) (rules : Dict ℕ ℕ)
    → run_nft_fails w (nft_script rules)
      ≡ (elim (w.nft (nft_script rules)) [ none ↦ false | some output ↦ true ])
unfolding run_nft_fails
run_nft_fails-nft_script w rules = ground (arith, nft_script-table rules)

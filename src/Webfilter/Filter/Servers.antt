-- ===== src/Webfilter/Filter/Servers.antt =====
-- No server is lost, and no new server meets a port that is in use.
use local_parental_control.Base.{
  ℕ, List, All, ◌∷◌, if◌then◌else◌, ◌++◌, none, nat_eq, [], some, ◌≡◌, ◌≤◌, ◌+◌, arith, ◌<◌, length,
  Bool-cases, inl, Option-cases, inr, refl, ℕ_eq, ◌^◌, ◌⊎◌, ltb, ltb-false,
}
use local_parental_control.Webfilter.Filter.{
  Filter, Server, close_servers, Started, start_servers, install, FilterEvent, base_port,
  FilterWorld, started, ran, domains_of, next_generation, nft_script, run_nft_fails, shut, apply,
  close, system_resolver, sort_uids, filtered_uids, resolve_and_install,
}
use local_parental_control.Config.{Config}
use local_parental_control.Dict.{Dict, insert}
use local_parental_control.Text.{Str}

abbrev pub at_port : ℕ → Server → ℕ
at_port p s = if nat_eq s.port p then 1 else 0

abbrev pub listening : ℕ → List Server → ℕ
listening p [] = 0
listening p (s ∷ servers) = at_port p s + listening p servers

abbrev pub started_times : ℕ → List FilterEvent → ℕ
started_times p [] = 0
started_times p (started s ∷ log) = at_port p s + started_times p log
started_times p (shut s ∷ log) = started_times p log
started_times p (ran script ∷ log) = started_times p log

abbrev pub closed_times : ℕ → List FilterEvent → ℕ
closed_times p [] = 0
closed_times p (started s ∷ log) = closed_times p log
closed_times p (shut s ∷ log) = at_port p s + closed_times p log
closed_times p (ran script ∷ log) = closed_times p log

-- The servers at a port are those that were started there and not closed.
abbrev pub IsBalanced : ℕ → List Server → List FilterEvent → Type 0
IsBalanced p servers log = started_times p log ≡ closed_times p log + listening p servers

-- The port lies in the range of the generation.
abbrev pub IsPlaced : ℕ → Server → Type 0
IsPlaced generation s = (base_port generation ≤ s.port) × (s.port < base_port generation + 1000)

pub record IsValidFilter (f : Filter) : Type 0 where
  pub balanced : (p : ℕ) → IsBalanced p f.servers f.log
  pub placed : All (IsPlaced f.generation) f.servers

module _ (p : ℕ) where
  listening-append :
      (servers : List Server) (s : Server)
      → listening p (servers ++ s ∷ []) ≡ listening p servers + at_port p s
  listening-append [] s = omega arith
  listening-append (t ∷ servers) s = omega (arith, listening-append servers s)

  close_servers_times :
      (servers : List Server) (log : List FilterEvent)
      → (started_times p (close_servers servers log) ≡ started_times p log)
        × (closed_times p (close_servers servers log) ≡ listening p servers + closed_times p log)
  unfolding close_servers
  close_servers_times [] log = omega arith
  close_servers_times (s ∷ servers) log = omega (arith, close_servers_times servers (shut s ∷ log))

  -- The servers that a loop which broke off leaves open.
  abbrev pub left_open : Started → ℕ
  left_open r = elim r.failure [ none ↦ listening p r.servers | some username ↦ 0 ]

  -- `old` counts the servers of the generation before.
  start_servers-balanced :
      (w : FilterWorld) (cfg : Config) (users : Dict ℕ Str) (upstream : Str) (port : ℕ)
      (uids : List ℕ) (acc : Started) (old : ℕ)
      → acc.failure ≡ none
      → started_times p acc.log ≡ closed_times p acc.log + old + listening p acc.servers
      → started_times p (start_servers w cfg users upstream port uids acc).log
        ≡ closed_times p (start_servers w cfg users upstream port uids acc).log
          + old
          + left_open (start_servers w cfg users upstream port uids acc)
  unfolding start_servers
  start_servers-balanced w cfg users upstream port [] acc old e h = rw e h
  start_servers-balanced w cfg users upstream port (uid ∷ uids) acc old e h =
      let s : Server = record {
        port = port;
        upstream = upstream;
        blocked = domains_of cfg users uid;
      } in
      elim (Bool-cases (w.listen_fails port)) [
        | inl fails ↦
            rw (start_servers, fails) (omega (arith, close_servers_times acc.servers acc.log))
        | inr works ↦
            rw (start_servers, works)
              (start_servers-balanced w cfg users upstream (port + 1) uids
                (record acc {
                  servers = acc.servers ++ s ∷ [];
                  rules = insert uid port acc.rules;
                  log = started s ∷ acc.log;
                })
                old e (omega (arith, listening-append acc.servers s)))
      ]

All-append :
    (P : Server → Type 0) (servers : List Server) (s : Server)
    → All P servers
    → P s
    → All P (servers ++ s ∷ [])
All-append P [] s h k = (k, tt)
All-append P (t ∷ servers) s (first, all) k = (first, All-append P servers s all k)

start_servers-IsPlaced :
    (generation : ℕ) (w : FilterWorld) (cfg : Config) (users : Dict ℕ Str) (upstream : Str)
    (port : ℕ) (uids : List ℕ) (acc : Started)
    → base_port generation ≤ port
    → port + length uids ≤ base_port generation + 1000
    → All (IsPlaced generation) acc.servers
    → All (IsPlaced generation) (start_servers w cfg users upstream port uids acc).servers
unfolding start_servers
start_servers-IsPlaced generation w cfg users upstream port [] acc low high h = h
start_servers-IsPlaced generation w cfg users upstream port (uid ∷ uids) acc low high h =
    let s : Server = record {
      port = port;
      upstream = upstream;
      blocked = domains_of cfg users uid;
    } in
    elim (Bool-cases (w.listen_fails port)) [
      | inl fails ↦ rw (start_servers, fails) h
      | inr works ↦
          rw (start_servers, works)
            (start_servers-IsPlaced generation w cfg users upstream (port + 1) uids
              (record acc {
                servers = acc.servers ++ s ∷ [];
                rules = insert uid port acc.rules;
                log = started s ∷ acc.log;
              })
              (omega arith) (omega arith)
              (All-append (IsPlaced generation) acc.servers s h (omega arith)))
    ]

install-IsValidFilter :
    (w : FilterWorld) (cfg : Config) (users : Dict ℕ Str) (upstream : Str) (uids : List ℕ)
    (f : Filter)
    → length uids ≤ 1000
    → IsValidFilter f
    → IsValidFilter (install w cfg users upstream uids f).0
unfolding install
install-IsValidFilter w cfg users upstream uids f few v =
    let empty : Started = record { servers = []; rules = []; log = f.log; failure = none } in
    let begun : Started =
      start_servers w cfg users upstream (base_port (next_generation f.generation)) uids empty in
    let asked : List FilterEvent = ran (nft_script begun.rules) ∷ begun.log in
    let count = λ (p : ℕ).
      start_servers-balanced p w cfg users upstream (base_port (next_generation f.generation)) uids
        empty (listening p f.servers) refl (omega (arith, v.balanced p)) in
    let placed =
      start_servers-IsPlaced (next_generation f.generation) w cfg users upstream
        (base_port (next_generation f.generation)) uids empty (omega arith) (omega arith) tt in
    elim (Option-cases begun.failure) [
      | inr (username, broken) ↦
          rw (install, broken)
            (record {
              balanced = λ p. let total = rw broken at (count p) in omega arith;
              placed = v.placed;
            })
      | inl whole ↦ elim (Bool-cases (run_nft_fails w (nft_script begun.rules))) [
        | inl fails ↦
            rw (install, whole, fails)
              (record {
                balanced = λ p.
                    let total = rw whole at (count p) in
                    omega (arith, close_servers_times p begun.servers asked);
                placed = v.placed;
              })
        | inr works ↦
            rw (install, whole, works)
              (record {
                balanced = λ p.
                    let total = rw whole at (count p) in
                    omega (arith, close_servers_times p f.servers asked);
                placed = placed;
              })
      ]
    ]

resolve_and_install-IsValidFilter :
    (w : FilterWorld) (cfg : Config) (users : Dict ℕ Str) (uids : List ℕ) (f : Filter)
    → length uids ≤ 1000
    → IsValidFilter f
    → IsValidFilter (resolve_and_install w cfg users uids f).0
unfolding resolve_and_install
resolve_and_install-IsValidFilter w cfg users [] f few v =
    install-IsValidFilter w cfg users [] [] f few v
resolve_and_install-IsValidFilter w cfg users (uid ∷ uids) f few v =
    elim (Option-cases (system_resolver w)) [
      | inl missing ↦ rw (resolve_and_install, missing) v
      | inr (upstream, resolved) ↦
          rw (resolve_and_install, resolved)
            (install-IsValidFilter w cfg users upstream (uid ∷ uids) f few v)
    ]

apply-IsValidFilter :
    (w : FilterWorld) (cfg : Config) (users : Dict ℕ Str) (f : Filter)
    → IsValidFilter f
    → IsValidFilter (apply w cfg users f).0
unfolding apply
apply-IsValidFilter w cfg users f v =
    let uids : List ℕ = sort_uids (filtered_uids cfg users) in
    elim (Bool-cases (ltb 1000 (length uids))) [
      | inl many ↦ rw (apply, many) v
      | inr few ↦
          rw (apply, few)
            (resolve_and_install-IsValidFilter w cfg users uids f (ltb-false 1000 (length uids) few)
              v)
    ]

close-IsValidFilter : (w : FilterWorld) (f : Filter) → IsValidFilter f → IsValidFilter (close w f).0
unfolding close
close-IsValidFilter w f v = elim (Bool-cases (run_nft_fails w (nft_script []))) [
  | inl fails ↦
      rw (close, fails)
        (record {
          balanced = λ p.
              omega (
                arith,
                v.balanced p,
                close_servers_times p f.servers (ran (nft_script []) ∷ f.log),
              );
          placed = tt;
        })
  | inr works ↦
      rw (close, works)
        (record {
          balanced = λ p.
              omega (
                arith,
                v.balanced p,
                close_servers_times p f.servers (ran (nft_script []) ∷ f.log),
              );
          placed = tt;
        })
]

-- One call of the filter, with whatever the system answers.
pub data FilterStep (f : Filter) : Filter → Type 0 where
  applying :
      (w : FilterWorld) (cfg : Config) (users : Dict ℕ Str) → FilterStep f (apply w cfg users f).0
  closing : (w : FilterWorld) → FilterStep f (close w f).0

-- `New`
abbrev pub new_filter : Filter
new_filter = record { servers = []; upstream = []; generation = 0; log = [] }

-- The filters that calls can reach.
pub data FilterReach : Filter → Type 0 where
  fresh : FilterReach new_filter
  later : {f g : Filter} → FilterReach f → FilterStep f g → FilterReach g

step-IsValidFilter : {f g : Filter} → FilterStep f g → IsValidFilter f → IsValidFilter g
step-IsValidFilter {f} (applying w cfg users) v = apply-IsValidFilter w cfg users f v
step-IsValidFilter {f} (closing w) v = close-IsValidFilter w f v

-- After any calls of `Apply` and `Close`, with any failures of the system, the servers that the
-- filter holds are exactly those that were started and not closed, port by port, and they listen in
-- the range of ports of the current generation.
pub FilterReach-IsValidFilter : {f : Filter} → FilterReach f → IsValidFilter f
FilterReach-IsValidFilter fresh = record { balanced = λ p. omega arith; placed = tt }
FilterReach-IsValidFilter (later before step) =
    step-IsValidFilter step (FilterReach-IsValidFilter before)

-- Two generations that follow each other use ranges of ports that are apart.
next-base_port :
    (generation : ℕ)
    → generation < 2 ^ 64
    → (base_port generation + 1000 ≤ base_port (next_generation generation))
      ⊎ (base_port (next_generation generation) + 1000 ≤ base_port generation)
unfolding base_port next_generation
next-base_port generation h = ground arith

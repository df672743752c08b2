-- ===== src/Webfilter/Filter.antt =====
-- The servers and the firewall rules of internal/webfilter/filter.go: `Apply`, `Close`, `nftScript`,
-- `runNft` and `systemResolver`. A server is the port it listens on, with what its loops are given.
pub mod Servers
mod Tests
pub mod Rules
pub mod Script
pub mod InForce
use local_parental_control.Base.{
  ℕ, List, Option, Bool, none, [], ◌∷◌, ◌+◌, if◌then◌else◌, nat_eq, ltb, false, some, ◌&&◌, ◌++◌,
  ◌%◌, map, not, true, length, ◌||◌, ◌^◌, ◌*◌, ℕ_eq,
}
use local_parental_control.Text.{Str, codes, str_beq, fields, decimal, contains_text, str_eq}
use local_parental_control.Dict.{Dict, get_or, insert}
use local_parental_control.Config.{Config}
use local_parental_control.Daemon.Terminate.{no_user}

pub record Server : Type 0 where
  pub port : ℕ
  pub upstream : Str
  pub blocked : List Str

pub data FilterEvent : Type 0 where
  started shut : Server → FilterEvent
  ran : Str → FilterEvent

pub data ApplyError : Type 0 where
  too_many_users no_resolver nft_failed : ApplyError
  not_started : Str → ApplyError

-- The fields of `Filter`, with the record of what it asked of the system, the latest first.
pub record Filter : Type 0 where
  pub servers : List Server
  pub upstream : Str
  pub generation : ℕ
  pub log : List FilterEvent

-- What the system answers: the ports on which a server cannot listen, the outcome of a script with
-- the output of a failure, the lines of the resolver configuration (`none` is an error), an address
-- in its canonical text, and an address with a port.
pub record FilterWorld : Type 0 where
  pub listen_fails : ℕ → Bool
  pub nft : Str → Option Str
  pub resolver_lines : Option (List Str)
  pub parse_ip : Str → Option Str
  pub join_host_port : Str → Str → Str
  pub unicode_fields : Str → List Str

-- `strings.Trim(s, "[]")`
unfoldable pub is_bracket : ℕ → Bool
is_bracket c = nat_eq c b'[' || nat_eq c b']'

unfoldable pub trim_brackets_left : Str → Str
unfolding is_bracket
trim_brackets_left [] = []
trim_brackets_left (c ∷ s) = if is_bracket c then trim_brackets_left s else c ∷ s

unfoldable pub trim_brackets_right : Str → Str
unfolding is_bracket
trim_brackets_right [] = []
trim_brackets_right (c ∷ s) =
    let rest : Str = trim_brackets_right s in
    if is_bracket c && str_beq rest [] then [] else c ∷ rest

-- The address that one line of the resolver configuration names.
unfoldable pub line_resolver : FilterWorld → List Str → Option Str
line_resolver w (keyword ∷ address ∷ more) =
    if str_beq keyword (codes "nameserver")
    then w.parse_ip (trim_brackets_right (trim_brackets_left address))
    else none
line_resolver w _ = none

unfoldable pub first_resolver : FilterWorld → List Str → Option Str
first_resolver w [] = none
first_resolver w (line ∷ lines) = elim (line_resolver w (fields w.unicode_fields line)) [
  | some ip ↦ some (w.join_host_port ip (codes "53"))
  | none ↦ first_resolver w lines
]

unfoldable pub system_resolver : FilterWorld → Option Str
system_resolver w = elim w.resolver_lines [ none ↦ none | some lines ↦ first_resolver w lines ]

-- `sort.Slice` of the UIDs.
unfoldable pub insert_uid : ℕ → List ℕ → List ℕ
insert_uid uid [] = uid ∷ []
insert_uid uid (other ∷ uids) =
    if ltb other uid then other ∷ insert_uid uid uids else uid ∷ other ∷ uids

unfoldable pub sort_uids : List ℕ → List ℕ
unfolding insert_uid
sort_uids [] = []
sort_uids (uid ∷ uids) = insert_uid uid (sort_uids uids)

-- The lines of one rule.
unfoldable pub rule_lines : ℕ → ℕ → Str
rule_lines uid port =
    codes "meta skuid "
    ++ (decimal uid
        ++ (codes " udp dport 53 redirect to :"
            ++ (decimal port
                ++ (10 ∷ codes "meta skuid "
                    ++ (decimal uid
                        ++ (codes " tcp dport 53 redirect to :" ++ (decimal port ++ 10 ∷ [])))))))

unfoldable pub all_rule_lines : Dict ℕ ℕ → List ℕ → Str
all_rule_lines rules [] = []
all_rule_lines rules (uid ∷ uids) = rule_lines uid (get_or uid 0 rules) ++ all_rule_lines rules uids

abbrev pub destroy_line : Str
destroy_line = codes "destroy table inet local_parental_control" ++ 10 ∷ []

abbrev pub table_head : Str
table_head =
    codes "table inet local_parental_control {"
    ++ (10 ∷ codes " chain dns_output { type nat hook output priority dstnat; policy accept;")
    ++ 10 ∷ []

unfoldable pub nft_script : Dict ℕ ℕ → Str
nft_script [] = destroy_line
nft_script (rule ∷ rules) =
    destroy_line
    ++ (table_head
        ++ (all_rule_lines (rule ∷ rules) (sort_uids (map (λ r. r.0) (rule ∷ rules)))
            ++ (b'}' ∷ 10 ∷ b'}' ∷ 10 ∷ [])))

-- Whether `runNft` reports an error.
unfoldable pub run_nft_fails : FilterWorld → Str → Bool
run_nft_fails w script = elim (w.nft script) [
  | none ↦ false
  | some output ↦ not (
      contains_text output (codes "No such file or directory")
      && not (contains_text script (codes "table inet")))
]

unfoldable pub close_servers : List Server → List FilterEvent → List FilterEvent
close_servers [] log = log
close_servers (s ∷ servers) log = close_servers servers (shut s ∷ log)

-- The domains that are blocked for a UID.
unfoldable pub domains_of : Config → Dict ℕ Str → ℕ → List Str
domains_of cfg users uid = (get_or (get_or uid [] users) no_user cfg.users).blocked_domains

unfoldable pub has_domains : Config → Str → Bool
has_domains cfg username = elim (get_or username no_user cfg.users).blocked_domains [
  | [] ↦ false
  | domain ∷ domains ↦ true
]

unfoldable pub filtered_uids : Config → Dict ℕ Str → List ℕ
filtered_uids cfg [] = []
filtered_uids cfg ((uid, username) ∷ users) =
    if has_domains cfg username then uid ∷ filtered_uids cfg users else filtered_uids cfg users

-- The first port of a generation, and the generation that follows.
unfoldable pub next_generation : ℕ → ℕ
next_generation generation = (generation + 1) % 2 ^ 64

unfoldable pub base_port : ℕ → ℕ
base_port generation = 53000 + generation % 2 * 1000

-- What the loop that starts the servers builds; `failure` names the user whose server did not start.
pub record Started : Type 0 where
  pub servers : List Server
  pub rules : Dict ℕ ℕ
  pub log : List FilterEvent
  pub failure : Option Str

unfoldable pub start_servers :
    FilterWorld → Config → Dict ℕ Str → Str → ℕ → List ℕ → Started → Started
start_servers w cfg users upstream port [] acc = acc
start_servers w cfg users upstream port (uid ∷ uids) acc =
    let s : Server = record {
      port = port;
      upstream = upstream;
      blocked = domains_of cfg users uid;
    } in
    if w.listen_fails port
    then record acc {
      log = close_servers acc.servers acc.log;
      failure = some (get_or uid [] users);
    }
    else start_servers w cfg users upstream (port + 1) uids (record acc {
      servers = acc.servers ++ s ∷ [];
      rules = insert uid port acc.rules;
      log = started s ∷ acc.log;
    })

-- `Apply` from the resolver on.
unfoldable pub install :
    FilterWorld → Config → Dict ℕ Str → Str → List ℕ → Filter → Filter × Option ApplyError
install w cfg users upstream uids f =
    let begun : Started =
      start_servers w cfg users upstream (base_port (next_generation f.generation)) uids
        (record { servers = []; rules = []; log = f.log; failure = none }) in
    let asked : List FilterEvent = ran (nft_script begun.rules) ∷ begun.log in
    elim begun.failure [
      | some username ↦ (record f { log = begun.log }, some (not_started username))
      | none ↦
          if run_nft_fails w (nft_script begun.rules)
          then (record f { log = close_servers begun.servers asked }, some nft_failed)
          else (
            record {
              servers = begun.servers;
              upstream = upstream;
              generation = next_generation f.generation;
              log = close_servers f.servers asked;
            },
            none,
          )
    ]

-- The upstream is needed only where a user has blocked domains.
unfoldable pub resolve_and_install :
    FilterWorld → Config → Dict ℕ Str → List ℕ → Filter → Filter × Option ApplyError
resolve_and_install w cfg users [] f = install w cfg users [] [] f
resolve_and_install w cfg users (uid ∷ uids) f = elim (system_resolver w) [
  | none ↦ (f, some no_resolver)
  | some upstream ↦ install w cfg users upstream (uid ∷ uids) f
]

unfoldable pub apply : FilterWorld → Config → Dict ℕ Str → Filter → Filter × Option ApplyError
apply w cfg users f =
    let uids : List ℕ = sort_uids (filtered_uids cfg users) in
    if ltb 1000 (length uids)
    then (f, some too_many_users)
    else resolve_and_install w cfg users uids f

-- `Close`: the servers are closed whether or not the rules could be removed.
unfoldable pub close : FilterWorld → Filter → Filter × Option ApplyError
close w f =
    let ended : Filter = record f {
      servers = [];
      log = close_servers f.servers (ran (nft_script []) ∷ f.log);
    } in
    if run_nft_fails w (nft_script []) then (ended, some nft_failed) else (ended, none)

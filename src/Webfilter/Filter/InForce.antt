-- ===== src/Webfilter/Filter/InForce.antt =====
-- What an application of the filter leaves in force, by the text of its script.
use local_parental_control.Webfilter.Filter.Rules.{Listens}
use local_parental_control.Config.{Config}
use local_parental_control.Webfilter.Filter.{Filter, FilterEvent, close_servers, ran, domains_of}
use local_parental_control.Dict.{Dict}
use local_parental_control.Base.{ℕ, ◌≡◌, List, [], All, ◌∷◌}
use local_parental_control.Text.{Str}
use local_parental_control.Webfilter.Filter.Script.{removal, Redirects}

-- What holds of the filter `g` after `f`: the last script, run before the servers of `f` were closed,
-- redirects the UIDs to servers that block the domains of their users, or removes all redirections
-- where there are no UIDs.
abbrev pub InForce : Config → Dict ℕ Str → List ℕ → Filter → Filter → Type 0
InForce cfg users uids f g =
    (script : Str) × (older : List FilterEvent) × (g.log
      ≡ close_servers f.servers (ran script ∷ older))
    × All
        (λ uid.
          (port : ℕ) × Redirects script uid port
          × Listens port (domains_of cfg users uid) g.servers)
        uids
    × (uids ≡ [] → script ≡ removal)

-- ===== src/Webfilter/Filter/Tests.antt =====
-- A filter for one user, at a system that answers every call.
use local_parental_control.Text.{Str, codes, fields, is_ascii, contains_text}
use local_parental_control.Config.{UserConfig, Config}
use local_parental_control.Dict.{Dict, get_or, lookup}
use local_parental_control.Base.{Option, ℕ, none, some, false, [], ◌≡◌, ◌∷◌, ◌++◌, refl}
use local_parental_control.Webfilter.Filter.{
  system_resolver, apply, run_nft_fails, FilterWorld, sort_uids, close, filtered_uids, nft_failed,
  first_resolver, line_resolver, trim_brackets_right, trim_brackets_left, has_domains,
  resolve_and_install, install, start_servers,
}
use local_parental_control.Webfilter.Filter.Rules.{apply_fails}
use local_parental_control.Webfilter.Filter.InForce.{InForce}
use local_parental_control.Webfilter.Filter.Servers.{
  IsValidFilter, new_filter, FilterReach-IsValidFilter, later, fresh, applying, closing,
}
use local_parental_control.Daemon.Terminate.{no_user}
use local_parental_control.Int.{pos}

abbrev alice : Str
alice = codes "alice"

abbrev rules_of_alice : UserConfig
rules_of_alice = record no_user { blocked_domains = codes "example.org" ∷ [] }

abbrev household : Config
household = record {
  timezone = codes "UTC";
  poll_interval_seconds = pos 2;
  termination_grace_seconds = pos 15;
  users = (alice, rules_of_alice) ∷ [];
}

abbrev uids : Dict ℕ Str
uids = (1000, alice) ∷ []

-- A system on which nft answers as given.
abbrev system : Option Str → FilterWorld
system nft = record {
  listen_fails = λ _. false;
  nft = λ _. nft;
  resolver_lines = some (codes "nameserver [192.0.2.1]" ∷ []);
  parse_ip = λ s. some s;
  join_host_port = λ ip port. ip ++ (b':' ∷ port);
  unicode_fields = λ s. s ∷ [];
}

resolver : system_resolver (system none) ≡ some (codes "192.0.2.1:53")
unfolding system_resolver first_resolver line_resolver fields is_ascii trim_brackets_right
    trim_brackets_left
resolver = refl

nft_error : (apply (system (some [])) household uids new_filter).1 ≡ some nft_failed
unfolding apply sort_uids filtered_uids has_domains get_or lookup resolve_and_install
    system_resolver first_resolver line_resolver fields is_ascii install start_servers run_nft_fails
    contains_text
nft_error = refl

apply_fails_example :
    ((apply (system (some [])) household uids new_filter).0.servers ≡ new_filter.servers)
    × ((apply (system (some [])) household uids new_filter).0.upstream ≡ new_filter.upstream)
    × ((apply (system (some [])) household uids new_filter).0.generation ≡ new_filter.generation)
apply_fails_example = apply_fails (system (some [])) household uids new_filter nft_failed nft_error

FilterReach-IsValidFilter_example :
    IsValidFilter (close (system none) (apply (system none) household uids new_filter).0).0
FilterReach-IsValidFilter_example =
    FilterReach-IsValidFilter
      (later (later fresh (applying (system none) household uids)) (closing (system none)))

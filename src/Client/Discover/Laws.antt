-- ===== src/Client/Discover/Laws.antt =====
-- What the discovery suggests passes the inspection of the configuration's loading.
use local_parental_control.Config.Executables.Laws.{IsSafe}
use local_parental_control.Client.Discover.{Packages, Suggestion, Found, join_path}
use local_parental_control.Text.{Str, has_prefix, codes, str_eq}
use local_parental_control.Base.{All, ◌≡◌, some, false, ◌++◌}
use local_parental_control.Config.Paths.{clean}

-- The directory of the current revision of a Snap package.
abbrev pub current_revision : Str → Str
current_revision pkg = clean (codes "/snap/" ++ (pkg ++ codes "/current"))

-- A suggestion leads to an inspected file: its resolved path, or for a Snap package the path below
-- the directory of the current revision.
pub data IsSuggested (p : Packages) (r : Suggestion) : Type 0 where
  native :
      (path resolved : Str)
      → IsSafe p.files 0 path resolved
      → r.executable ≡ clean resolved
      → IsSuggested p r
  below_root :
      (resolved_root path resolved below : Str)
      → r.source ≡ codes "snap"
      → p.files.eval_symlinks (current_revision r.pkg) ≡ some resolved_root
      → IsSafe p.files 0 path resolved
      → p.relative resolved_root (clean resolved) ≡ some below
      → has_prefix below (codes "../") ≡ false
      → r.executable ≡ join_path (current_revision r.pkg) below
      → IsSuggested p r

module _ (p : Packages) where
  AllSuggested : Found → Type 0
  AllSuggested found = All (λ entry. IsSuggested p (entry.1)) found

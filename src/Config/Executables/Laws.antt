-- ===== src/Config/Executables/Laws.antt =====
-- What the inspection of an executable accepts, and the identity that is stored for it.
use local_parental_control.Text.{str_eq, str_beq_iff, Str, str_beq, codes}
use local_parental_control.Config.Executables.{
  FileSystem, inspect_native_executable, has_elf_header, FileInfo, stable_snap_executable,
  is_executable, writable_by_others, identify,
}
use local_parental_control.Base.{
  ℕ, ◌≡◌, some, ok, true, Option-cases, inl, inr, false, arith, ◌∷◌, Result-cases, ok-inj,
}
use local_parental_control.Config.Paths.{clean}

-- A path leads to a file that only its owner can change, an executable in the ELF format that is not
-- the launcher of the Snap packages.
pub record IsSafe (files : FileSystem) (uid : ℕ) (path resolved : Str) : Type 0 where
  pub info : FileInfo
  pub leads : files.eval_symlinks path ≡ some resolved
  pub found : files.stat resolved ≡ some info
  pub owned : info.owner ≡ uid
  pub regular : info.is_regular ≡ true
  pub executable : is_executable info.mode ≡ true
  pub protected : writable_by_others info.mode ≡ false
  pub no_launcher : str_beq (clean resolved) (codes "/usr/bin/snap") ≡ false
  pub elf : files.header resolved ≡ some (127 ∷ codes "ELF")

-- A stored identity: the file that a path leads to, or a Snap path without its revision.
pub data IsIdentity (files : FileSystem) (uid : ℕ) (snap_root : Str) (stored : Str) : Type 0 where
  native :
      (path resolved : Str)
      → IsSafe files uid path resolved
      → stored ≡ clean (clean resolved)
      → IsIdentity files uid snap_root stored
  of_snap :
      (executable resolved : Str)
      → stable_snap_executable executable snap_root ≡ some stored
      → IsSafe files uid stored resolved
      → IsIdentity files uid snap_root stored

pub inspect_native_executable-IsSafe :
    (files : FileSystem) (path : Str) (uid : ℕ) {out : Str}
    → inspect_native_executable files path uid ≡ ok out
    → (resolved : Str) × IsSafe files uid path resolved × (out ≡ clean resolved)
unfolding inspect_native_executable has_elf_header
inspect_native_executable-IsSafe files path uid {out} h =
    elim (Option-cases (files.eval_symlinks path)) [
      | inl e ↦ absurd (cc (rw (e, inspect_native_executable) at h))
      | inr (resolved, e) ↦ elim (Option-cases (files.stat resolved)) [
        | inl f ↦ absurd (cc (rw (e, inspect_native_executable, f) at h))
        | inr (info, f) ↦ elim (Option-cases (files.header resolved)) [
          | inl g ↦ absurd (ground arith)
          | inr (header, g) ↦ (
            resolved,
            record {
              info = info;
              leads = e;
              found = f;
              owned = ground arith;
              regular = ground arith;
              executable = ground arith;
              protected = ground arith;
              no_launcher = ground arith;
              elf = ground (arith, str_beq_iff header (127 ∷ codes "ELF"));
            },
            ground arith,
          )
        ]
      ]
    ]

identity-eq :
    {out stored : Str} (resolved : Str)
    → clean out ≡ stored
    → out ≡ clean resolved
    → stored ≡ clean (clean resolved)
identity-eq resolved e f = cc

pub identify-IsIdentity :
    (files : FileSystem) (uid : ℕ) (snap_root executable : Str) {stored : Str}
    → identify files uid snap_root executable ≡ ok stored
    → IsIdentity files uid snap_root stored
unfolding identify
identify-IsIdentity files uid snap_root executable {stored} h =
    elim (Option-cases (stable_snap_executable executable snap_root)) [
      | inl e ↦ elim (Result-cases (inspect_native_executable files executable uid)) [
        | inl (p, bad) ↦ absurd (cc (rw (e, identify, bad) at h))
        | inr (out, good) ↦
            let (resolved, safe, same) =
              inspect_native_executable-IsSafe files executable uid good in
            native executable resolved safe
              (identity-eq resolved (ok-inj (rw (e, identify, good) at h)) same)
      ]
      | inr (stable, e) ↦ elim (Result-cases (inspect_native_executable files stable uid)) [
        | inl (p, bad) ↦ absurd (cc (rw (e, identify, bad) at h))
        | inr (out, good) ↦
            let (resolved, safe, _) = inspect_native_executable-IsSafe files stable uid good in
            let same : stable ≡ stored = ok-inj (rw (e, identify, good) at h) in
            rw (← same) (of_snap executable resolved e safe)
      ]
    ]

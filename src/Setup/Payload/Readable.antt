-- ===== src/Setup/Payload/Readable.antt =====
-- Which roots the helper of src/setup.rs is told to let be read.
use yj_sandbox.Base.{
  true, false, ◌≡◌, subst, sym, ◌⊎◌, ◌↔◌, inl, inr, List, [], ◌∷◌, Member, Member-keep, any, map,
  arith, Bool-cases,
}
use yj_sandbox.Base.Host.{Host, FilePath, path_eq, path_starts_with}
use yj_sandbox.Paths.{canonical_path_key, or_else}
use yj_sandbox.SshConfig.{Files}
use yj_sandbox.Setup.{SandboxSetupRequest, SetupRootOverrides}
use yj_sandbox.Setup.Roots.{Directories, expand_user_profile_root}
use yj_sandbox.Setup.Roots.Children.{IsOpen}
use yj_sandbox.Setup.Roots.Kept.{open_roots, Member-open_roots}
use yj_sandbox.Setup.Payload.{wanted_read_roots, retains_read_root, build_payload_roots}
use yj_sandbox.Setup.Payload.Written.{IsAsked, expanded-IsAsked, IsAsked-expanded}

module _ (h : Host) where
  -- The root is at or below one of the paths, by their keys.
  abbrev pub IsDenied : List FilePath → FilePath → Type 0
  IsDenied [] r = ⊥
  IsDenied (p ∷ ps) r =
      (path_starts_with h (canonical_path_key h r) (canonical_path_key h p) ≡ true) ⊎ IsDenied ps r

  IsDenied-iff :
      (ps : List FilePath) (r : FilePath)
      → (any (path_starts_with h (canonical_path_key h r)) (map (canonical_path_key h) ps) ≡ true)
        ↔ IsDenied ps r
  IsDenied-iff [] r = (λ e. cc e, λ e. absurd e)
  IsDenied-iff (p ∷ ps) r = ground (arith, IsDenied-iff ps r)

  IsDenied-key :
      (ps : List FilePath) (r s : FilePath)
      → canonical_path_key h r ≡ canonical_path_key h s
      → IsDenied ps r
      → IsDenied ps s
  IsDenied-key [] r s e x = x
  IsDenied-key (p ∷ ps) r s e (inl under) =
      inl (subst (λ k. path_starts_with h k (canonical_path_key h p) ≡ true) e under)
  IsDenied-key (p ∷ ps) r s e (inr later) = inr (IsDenied-key ps r s e later)

  module _ (f : Files) (d : Directories) where
    retains_lem :
        (written : List FilePath) (ps : List FilePath) (r : FilePath)
        → (retains_read_root h f d written (map (canonical_path_key h) ps) r ≡ true)
          ↔ ((any (λ w. path_eq h w r) written ≡ false) × ¬ IsDenied ps r)
    unfolding retains_read_root
    retains_lem written [] r = ground arith
    retains_lem written (p ∷ ps) r = ground (arith, IsDenied-iff (p ∷ ps) r)

    module _ (request : SandboxSetupRequest) (overrides : SetupRootOverrides) where
      -- Each root that is to be read was asked for, is neither the user's profile nor in a closed child
      -- of it, is not to be written, and is not at or below a path that must not be read. Of each such
      -- root that was asked for, one with its key is to be read or equals one that is to be written.
      pub read_roots-IsOpen :
          ((r : FilePath)
            → Member r (build_payload_roots h f d request overrides).0
            → IsAsked h f d (wanted_read_roots h f d request overrides) r
              × IsOpen h f (canonical_path_key h r)
              × (any (λ w. path_eq h w r) (build_payload_roots h f d request overrides).1 ≡ false)
              × ¬ IsDenied (or_else overrides.deny_read_paths []) r)
          × ((r : FilePath)
              → IsAsked h f d (wanted_read_roots h f d request overrides) r
              → IsOpen h f (canonical_path_key h r)
              → ¬ IsDenied (or_else overrides.deny_read_paths []) r
              → (s : FilePath) × (canonical_path_key h r ≡ canonical_path_key h s)
                × (Member s (build_payload_roots h f d request overrides).0
                    ⊎ (any (λ w. path_eq h w s) (build_payload_roots h f d request overrides).1
                        ≡ true)))
      unfolding build_payload_roots
      read_roots-IsOpen =
          let wanted = wanted_read_roots h f d request overrides in
          let expanded = expand_user_profile_root h d wanted in
          let denied = or_else overrides.deny_read_paths [] in
          let written = (build_payload_roots h f d request overrides).1 in
          let kept = λ (r : FilePath).
            Member-keep (retains_read_root h f d written (map (canonical_path_key h) denied))
              (open_roots h f expanded) r in
          (
            λ r m.
                let (n, e) = (kept r).0 m in
                let (there, is_open) = (Member-open_roots h f expanded r).0 n in
                let (apart, free) = (retains_lem written denied r).0 e in
                (expanded-IsAsked h f d wanted r there, is_open, apart, free),
            λ r asked is_open free.
                let (s, m, e) = IsAsked-expanded h f d wanted r asked in
                (
                  s,
                  e,
                  elim (Bool-cases (any (λ w. path_eq h w s) written)) [
                    | inl both ↦ inr both
                    | inr apart ↦ inl (
                        (kept s).1 (
                          (Member-open_roots h f expanded s).1 (m, subst (IsOpen h f) e is_open),
                          (retains_lem written denied s).1
                              (apart, λ x. free (IsDenied-key denied s r (sym e) x)),
                        ))
                  ],
                ),
          )

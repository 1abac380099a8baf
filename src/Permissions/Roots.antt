-- ===== src/Permissions/Roots.antt =====
-- What the writable roots of src/resolved_permissions.rs are.
use yj_sandbox.Base.{
  Bool, true, false, ◌≡◌, refl, sym, ap, subst, ◌↔◌, ◌⊎◌, inl, inr, List, [], ◌∷◌, ◌++◌, map, keep,
  is_empty, if◌then◌else◌, arith, Bool-cases, Member, Member-keep, Member-map, Member-append,
}
use yj_sandbox.Base.Text.{codes}
use yj_sandbox.Base.Host.{Host, FilePath, path_eq, path_starts_with}
use yj_sandbox.Paths.{canonicalize_path}
use yj_sandbox.Permissions.{
  EnvMap, WindowsWritableRoot, ResolvedSandboxPermissions, read_only_capability, protected_subdirs,
  protected_subpaths, push_root, push_workspace_roots, push_extra_roots, push_temp_roots,
  windows_temp_env_roots, writable_roots_for_cwd, token_mode_for_cwd,
}
use yj_sandbox.Permissions.Temp.{IsTempRoot, windows_temp_env_roots-IsTempRoot}
use yj_sandbox.Permissions.Pushing.{
  push_all, push_all-append, if-push_all, Member-push_all, push_all-covers, HasDistinctRoots,
  HasDistinctRoots-push_all,
}

module _ (h : Host) where
  -- The roots that the three loops try, in their order.
  pub candidates : ResolvedSandboxPermissions → FilePath → EnvMap → List FilePath
  candidates p cwd env =
      keep (path_starts_with h (canonicalize_path h cwd))
        (map (canonicalize_path h) p.workspace_roots)
      ++ (map (canonicalize_path h) p.extra_writable_roots
          ++ (if p.include_temp then windows_temp_env_roots h env else []))

  push_workspace_roots-eq :
      (cwd : FilePath) (out : List WindowsWritableRoot) (rs : List FilePath)
      → push_workspace_roots h cwd out rs
        ≡ push_all h out (keep (path_starts_with h cwd) (map (canonicalize_path h) rs))
  unfolding push_workspace_roots push_all
  push_workspace_roots-eq cwd out [] = refl
  push_workspace_roots-eq cwd out (r ∷ rs) =
      elim (Bool-cases (path_starts_with h cwd (canonicalize_path h r))) [
        | inl inside ↦
            rw inside (push_workspace_roots-eq cwd (push_root h out (canonicalize_path h r)) rs)
        | inr outside ↦ rw outside (push_workspace_roots-eq cwd out rs)
      ]

  push_extra_roots-eq :
      (out : List WindowsWritableRoot) (rs : List FilePath)
      → push_extra_roots h out rs ≡ push_all h out (map (canonicalize_path h) rs)
  unfolding push_extra_roots push_all
  push_extra_roots-eq out [] = refl
  push_extra_roots-eq out (r ∷ rs) =
      push_extra_roots-eq (push_root h out (canonicalize_path h r)) rs

  push_temp_roots-eq :
      (out : List WindowsWritableRoot) (rs : List FilePath)
      → push_temp_roots h out rs ≡ push_all h out rs
  unfolding push_temp_roots push_all
  push_temp_roots-eq out [] = refl
  push_temp_roots-eq out (r ∷ rs) = push_temp_roots-eq (push_root h out r) rs

  writable_roots-eq :
      (p : ResolvedSandboxPermissions) (cwd : FilePath) (env : EnvMap)
      → writable_roots_for_cwd h p cwd env ≡ push_all h [] (candidates p cwd env)
  unfolding writable_roots_for_cwd candidates
  writable_roots-eq p cwd env =
      rw (push_workspace_roots-eq, push_extra_roots-eq, push_temp_roots-eq)
        (simp (push_all-append, if-push_all))

  -- What makes a path a root that is tried: it is the normal form of a workspace root that contains the
  -- command's directory, or of an extra root, or one of the temporary directories, where those are
  -- included.
  abbrev pub IsTried : ResolvedSandboxPermissions → FilePath → EnvMap → FilePath → Type 0
  IsTried p cwd env root =
      (((r : FilePath) × Member r p.workspace_roots × (root ≡ canonicalize_path h r))
        × (path_starts_with h (canonicalize_path h cwd) root ≡ true))
      ⊎ ((r : FilePath) × Member r p.extra_writable_roots × (root ≡ canonicalize_path h r))
      ⊎ ((p.include_temp ≡ true) × Member root (windows_temp_env_roots h env))

  temp_granted :
      (p : ResolvedSandboxPermissions) (env : EnvMap) (r : FilePath) (b : Bool)
      → p.include_temp ≡ b
      → Member r (if b then windows_temp_env_roots h env else [])
        ↔ ((p.include_temp ≡ true) × Member r (windows_temp_env_roots h env))
  temp_granted p env r true e = (λ m. (e, m), λ g. g.1)
  temp_granted p env r false e = (λ m. absurd m, λ g. cc (e, g.0))

  module _ (p : ResolvedSandboxPermissions) (cwd : FilePath) (env : EnvMap) (r : FilePath) where
    abbrev inside : FilePath → Bool
    inside = path_starts_with h (canonicalize_path h cwd)

    candidates-IsTried : Member r (candidates p cwd env) → IsTried p cwd env r
    unfolding candidates
    candidates-IsTried m =
        elim ((Member-append r (keep inside (map (canonicalize_path h) p.workspace_roots)) _).0 m) [
          | inl w ↦
              let (mapped, holds) =
                (Member-keep inside (map (canonicalize_path h) p.workspace_roots) r).0 w in
              inl ((Member-map (canonicalize_path h) p.workspace_roots r).0 mapped, holds)
          | inr rest ↦
              elim ((Member-append r (map (canonicalize_path h) p.extra_writable_roots) _).0 rest) [
                | inl extra ↦
                    inr (inl ((Member-map (canonicalize_path h) p.extra_writable_roots r).0 extra))
                | inr temp ↦ inr (inr ((temp_granted p env r p.include_temp refl).0 temp))
              ]
        ]

    IsTried-Member : IsTried p cwd env r → Member r (candidates p cwd env)
    unfolding candidates
    IsTried-Member (inl (w, holds)) =
        (Member-append r (keep inside (map (canonicalize_path h) p.workspace_roots)) _).1 (
          inl (
            (Member-keep inside (map (canonicalize_path h) p.workspace_roots) r).1
              ((Member-map (canonicalize_path h) p.workspace_roots r).1 w, holds)))
    IsTried-Member (inr (inl extra)) =
        (Member-append r (keep inside (map (canonicalize_path h) p.workspace_roots)) _).1 (
          inr (
            (Member-append r (map (canonicalize_path h) p.extra_writable_roots) _).1
              (inl ((Member-map (canonicalize_path h) p.extra_writable_roots r).1 extra))))
    IsTried-Member (inr (inr temp)) =
        (Member-append r (keep inside (map (canonicalize_path h) p.workspace_roots)) _).1 (
          inr (
            (Member-append r (map (canonicalize_path h) p.extra_writable_roots) _).1
              (inr ((temp_granted p env r p.include_temp refl).1 temp))))

  -- A directory of the root that is protected, and exists.
  abbrev pub IsProtected : FilePath → FilePath → Type 0
  IsProtected root q =
      ((q ≡ h.join root (codes ".git"))
        ⊎ (q ≡ h.join root (codes ".codex"))
        ⊎ (q ≡ h.join root (codes ".agents")))
      × (h.exists q ≡ true)

  protected_subpaths-IsProtected :
      (root q : FilePath) → Member q (protected_subpaths h root) ↔ IsProtected root q
  unfolding protected_subpaths
  protected_subpaths-IsProtected root q =
      let (into, back) = Member-keep h.exists (map (h.join root) protected_subdirs) q in
      (
        λ m.
            let (named, there) = into m in
            (
              elim named [
                | inl git ↦ inl git
                | inr (inl codex) ↦ inr (inl codex)
                | inr (inr (inl agents)) ↦ inr (inr agents)
                | inr (inr (inr nothing)) ↦ absurd nothing
              ],
              there,
            ),
        λ (named, there). back (
          elim named [
            | inl git ↦ inl git
            | inr (inl codex) ↦ inr (inl codex)
            | inr (inr agents) ↦ inr (inr (inl agents))
          ],
          there,
        ),
      )

  writable_roots-IsTried :
      (p : ResolvedSandboxPermissions) (cwd : FilePath) (env : EnvMap) (w : WindowsWritableRoot)
      → Member w (writable_roots_for_cwd h p cwd env)
      → IsTried p cwd env w.root
        × ((q : FilePath) → Member q w.read_only_subpaths ↔ IsProtected w.root q)
  writable_roots-IsTried p cwd env w m =
      elim (Member-push_all h [] (candidates p cwd env) w
        (subst (Member w) (writable_roots-eq p cwd env) m)) [
          | inl none_yet ↦ absurd none_yet
          | inr (tried, e) ↦ (
            candidates-IsTried p cwd env w.root tried,
            λ q.
                subst (λ subpaths. Member q subpaths ↔ IsProtected w.root q)
                  (sym (ap (λ (v : WindowsWritableRoot). v.read_only_subpaths) e))
                  (protected_subpaths-IsProtected w.root q),
          )
        ]

  -- What grants a writable root.
  abbrev pub IsGranted : ResolvedSandboxPermissions → FilePath → EnvMap → FilePath → Type 0
  IsGranted p cwd env root =
      (((r : FilePath) × Member r p.workspace_roots × (root ≡ canonicalize_path h r))
        × (path_starts_with h (canonicalize_path h cwd) root ≡ true))
      ⊎ ((r : FilePath) × Member r p.extra_writable_roots × (root ≡ canonicalize_path h r))
      ⊎ ((p.include_temp ≡ true) × IsTempRoot h env root)

  IsTried-IsGranted :
      (p : ResolvedSandboxPermissions) (cwd : FilePath) (env : EnvMap) (root : FilePath)
      → IsTried p cwd env root
      → IsGranted p cwd env root
  IsTried-IsGranted p cwd env root (inl workspace) = inl workspace
  IsTried-IsGranted p cwd env root (inr (inl extra)) = inr (inl extra)
  IsTried-IsGranted p cwd env root (inr (inr (on, temp))) =
      inr (inr (on, windows_temp_env_roots-IsTempRoot h env root temp))

  -- Every writable root is granted: it is the normal form of a workspace root that contains the command's
  -- directory, or of an extra root; or the temporary directories are included and it is the value, an
  -- absolute path, that `TEMP` or `TMP` has for the command in any case, or for the process if the
  -- command has none. The read-only directories listed with it are exactly those of its `.git`, `.codex`
  -- and `.agents` that exist.
  pub writable_roots-IsGranted :
      (p : ResolvedSandboxPermissions) (cwd : FilePath) (env : EnvMap) (w : WindowsWritableRoot)
      → Member w (writable_roots_for_cwd h p cwd env)
      → IsGranted p cwd env w.root
        × ((q : FilePath) → Member q w.read_only_subpaths ↔ IsProtected w.root q)
  writable_roots-IsGranted p cwd env w m =
      let (tried, protected) = writable_roots-IsTried p cwd env w m in
      (IsTried-IsGranted p cwd env w.root tried, protected)

  -- Every path that is tried has an entry with an equal root.
  writable_roots_cover :
      (p : ResolvedSandboxPermissions) (cwd : FilePath) (env : EnvMap) (r : FilePath)
      → IsTried p cwd env r
      → (e : WindowsWritableRoot) × Member e (writable_roots_for_cwd h p cwd env)
        × (path_eq h e.root r ≡ true)
  writable_roots_cover p cwd env r g =
      subst (λ out. (e : WindowsWritableRoot) × Member e out × (path_eq h e.root r ≡ true))
        (sym (writable_roots-eq p cwd env))
        (push_all-covers h [] (candidates p cwd env) r (IsTried-Member p cwd env r g))

  -- No two of the writable roots are equal paths.
  writable_roots-HasDistinctRoots :
      (p : ResolvedSandboxPermissions) (cwd : FilePath) (env : EnvMap)
      → HasDistinctRoots h (writable_roots_for_cwd h p cwd env)
  writable_roots-HasDistinctRoots p cwd env =
      subst (HasDistinctRoots h) (sym (writable_roots-eq p cwd env))
        (HasDistinctRoots-push_all h [] (candidates p cwd env) tt)

  is_empty_iff :
      (ws : List WindowsWritableRoot)
      → (is_empty ws ≡ true) ↔ ((w : WindowsWritableRoot) → ¬ Member w ws)
  is_empty_iff [] = (λ e w m. m, λ f. refl)
  is_empty_iff (w ∷ ws) = (λ e. cc, λ f. absurd (f w (inl refl)))

  -- The token is the read-only one exactly when no path is tried.
  token_mode-read_only_iff :
      (p : ResolvedSandboxPermissions) (cwd : FilePath) (env : EnvMap)
      → (token_mode_for_cwd h p cwd env ≡ read_only_capability)
        ↔ ((r : FilePath) → ¬ IsTried p cwd env r)
  token_mode-read_only_iff p cwd env = (
    λ e r g.
        let (w, m, same) = writable_roots_cover p cwd env r g in
        (is_empty_iff (writable_roots_for_cwd h p cwd env)).0
          (unfold token_mode_for_cwd in ground arith) w m,
    λ f.
        let empty : is_empty (writable_roots_for_cwd h p cwd env) ≡ true =
          (is_empty_iff (writable_roots_for_cwd h p cwd env)).1
            (λ w m. f w.root (writable_roots-IsTried p cwd env w m).0) in
        unfold token_mode_for_cwd in rw empty,
  )

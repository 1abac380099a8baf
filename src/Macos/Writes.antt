-- ===== src/Macos/Writes.antt =====
-- What a macOS policy lets a command write: src/resolved_permissions.rs, src/macos_permissions.rs.
use yj_sandbox.Base.{
  Bool, true, false, ◌≡◌, refl, sym, ◌∙◌, subst, ◌⊎◌, inl, inr, List, [], ◌∷◌, ◌++◌, any,
  any-Member, Member, All, All-append, All-at, if◌then◌else◌, arith, Bool-cases,
}
use yj_sandbox.Base.Host.{Host, FilePath, path_eq, path_starts_with}
use yj_sandbox.Paths.{canonicalize_path, from_absolute_path}
use yj_sandbox.Permissions.{
  EnvMap, ResolvedSandboxPermissions, protected_subdirs, protected_subpaths,
}
use yj_sandbox.Macos.{
  WritableRoot, is_at_or_below, root_lets_write, can_write_path_with_cwd, absolute_cwd,
  absolute_for_cwd, keep_absolute, push_macos_root, macos_temp_env_roots, push_workspace,
  push_extra, push_temp, macos_writable_roots_for_cwd, macos_file_system_policy_for_cwd,
}

module _ (h : Host) where
  -- The permissions ask for the root: as a workspace root around the directory, as an extra root, or
  -- as a temporary directory, each in its canonical form.
  pub data Asked (p : ResolvedSandboxPermissions) (cwd : FilePath) (env : EnvMap) (root : FilePath)
      : Type 0 where
    by_workspace :
        (r : FilePath)
        → Member r p.workspace_roots
        → root
          ≡ canonicalize_path h (absolute_for_cwd h r (canonicalize_path h (absolute_cwd h cwd)))
        → path_starts_with h (canonicalize_path h (absolute_cwd h cwd)) root ≡ true
        → Asked p cwd env root
    by_extra :
        (r : FilePath)
        → Member r p.extra_writable_roots
        → root
          ≡ canonicalize_path h (absolute_for_cwd h r (canonicalize_path h (absolute_cwd h cwd)))
        → Asked p cwd env root
    by_temp :
        (r : FilePath)
        → p.include_temp ≡ true
        → Member r (macos_temp_env_roots h env)
        → root ≡ canonicalize_path h r
        → Asked p cwd env root

  module _ (P : FilePath → Type 0) where
    -- A root with the protected directories that exist in it, for a path that is asked for.
    pub record IsProtected (w : WritableRoot) : Type 0 where
      pub is_asked : P w.root
      pub is_absolute : h.is_absolute w.root ≡ true
      pub subpaths : w.read_only_subpaths ≡ keep_absolute h (protected_subpaths h w.root)

    abbrev protected_root : FilePath → WritableRoot
    protected_root root = record {
      root = root;
      read_only_subpaths = keep_absolute h (protected_subpaths h root);
      protected_metadata_names = protected_subdirs;
    }

    push_macos_root-cases :
        (out : List WritableRoot) (root : FilePath)
        → (push_macos_root h out root ≡ out)
          ⊎ ((h.is_absolute root ≡ true)
              × (push_macos_root h out root ≡ out ++ protected_root root ∷ []))
    unfolding push_macos_root from_absolute_path
    push_macos_root-cases out root =
        elim (Bool-cases (any (λ (e : WritableRoot). path_eq h e.root root) out)) [
          | inl old ↦ inl (rw old refl)
          | inr new ↦ elim (Bool-cases (h.is_absolute root)) [
            | inl absolute ↦ inr (absolute, rw (new, absolute) refl)
            | inr relative ↦ inl (rw (new, relative) refl)
          ]
        ]

    push_macos_root-IsProtected :
        (out : List WritableRoot) (root : FilePath)
        → P root
        → All IsProtected out
        → All IsProtected (push_macos_root h out root)
    push_macos_root-IsProtected out root asked all = elim (push_macos_root-cases out root) [
      | inl same ↦ subst (All IsProtected) (sym same) all
      | inr (absolute, grown) ↦ subst (All IsProtected) (sym grown) (
          All-append IsProtected out (protected_root root ∷ []) all
            (record { is_asked = asked; is_absolute = absolute; subpaths = refl }, tt))
    ]

    push_workspace-IsProtected :
        (canonical_cwd : FilePath) (roots : List FilePath) (out : List WritableRoot)
        → ((r : FilePath)
            → Member r roots
            → path_starts_with h canonical_cwd
                (canonicalize_path h (absolute_for_cwd h r canonical_cwd))
              ≡ true
            → P (canonicalize_path h (absolute_for_cwd h r canonical_cwd)))
        → All IsProtected out
        → All IsProtected (push_workspace h canonical_cwd out roots)
    unfolding push_workspace
    push_workspace-IsProtected canonical_cwd [] out known all = all
    push_workspace-IsProtected canonical_cwd (r ∷ roots) out known all =
        let root = canonicalize_path h (absolute_for_cwd h r canonical_cwd) in
        elim (Bool-cases (path_starts_with h canonical_cwd root)) [
          | inl around ↦ rw around (
              push_workspace-IsProtected canonical_cwd roots (push_macos_root h out root)
                (λ q m. known q (inr m))
                (push_macos_root-IsProtected out root (known r (inl refl) around) all))
          | inr apart ↦
              rw apart
                (push_workspace-IsProtected canonical_cwd roots out (λ q m. known q (inr m)) all)
        ]

    push_extra-IsProtected :
        (canonical_cwd : FilePath) (roots : List FilePath) (out : List WritableRoot)
        → ((r : FilePath)
            → Member r roots
            → P (canonicalize_path h (absolute_for_cwd h r canonical_cwd)))
        → All IsProtected out
        → All IsProtected (push_extra h canonical_cwd out roots)
    unfolding push_extra
    push_extra-IsProtected canonical_cwd [] out known all = all
    push_extra-IsProtected canonical_cwd (r ∷ roots) out known all =
        let root = canonicalize_path h (absolute_for_cwd h r canonical_cwd) in
        push_extra-IsProtected canonical_cwd roots (push_macos_root h out root)
          (λ q m. known q (inr m)) (push_macos_root-IsProtected out root (known r (inl refl)) all)

    push_temp-IsProtected :
        (roots : List FilePath) (out : List WritableRoot)
        → ((r : FilePath) → Member r roots → P (canonicalize_path h r))
        → All IsProtected out
        → All IsProtected (push_temp h out roots)
    unfolding push_temp
    push_temp-IsProtected [] out known all = all
    push_temp-IsProtected (r ∷ roots) out known all =
        push_temp-IsProtected roots (push_macos_root h out (canonicalize_path h r))
          (λ q m. known q (inr m))
          (push_macos_root-IsProtected out (canonicalize_path h r) (known r (inl refl)) all)

    if-IsProtected :
        (b : Bool) (xs ys : List WritableRoot)
        → (b ≡ true → All IsProtected xs)
        → All IsProtected ys
        → All IsProtected (if b then xs else ys)
    if-IsProtected true xs ys asked otherwise = asked refl
    if-IsProtected false xs ys asked otherwise = otherwise

  module _ (p : ResolvedSandboxPermissions) (cwd : FilePath) (env : EnvMap) where
    roots-IsProtected :
        All (IsProtected (Asked p cwd env)) (macos_writable_roots_for_cwd h p cwd env)
    unfolding macos_writable_roots_for_cwd
    roots-IsProtected =
        let Q = Asked p cwd env in
        let at = canonicalize_path h (absolute_cwd h cwd) in
        let workspace =
          push_workspace-IsProtected Q at p.workspace_roots []
            (λ r m around. by_workspace r m refl around) tt in
        let extra =
          push_extra-IsProtected Q at p.extra_writable_roots
            (push_workspace h at [] p.workspace_roots) (λ r m. by_extra r m refl) workspace in
        if-IsProtected Q p.include_temp
          (push_temp h
            (push_extra h at (push_workspace h at [] p.workspace_roots) p.extra_writable_roots)
            (macos_temp_env_roots h env))
          (push_extra h at (push_workspace h at [] p.workspace_roots) p.extra_writable_roots)
          (λ temp.
            push_temp-IsProtected Q (macos_temp_env_roots h env)
              (push_extra h at (push_workspace h at [] p.workspace_roots) p.extra_writable_roots)
              (λ r m. by_temp r temp m refl) extra)
          extra

    policy_roots :
        (path : FilePath)
        → can_write_path_with_cwd h (macos_file_system_policy_for_cwd h p cwd env) path
          ≡ any (root_lets_write h path) (macos_writable_roots_for_cwd h p cwd env)
    unfolding can_write_path_with_cwd macos_file_system_policy_for_cwd
    policy_roots path = ground arith

    outside :
        (path : FilePath) (subpaths : List FilePath)
        → any (is_at_or_below h path) subpaths ≡ false
        → All (λ s. is_at_or_below h path s ≡ false) subpaths
    outside path [] e = tt
    outside path (s ∷ subpaths) e = (ground arith, outside path subpaths (ground arith))

    -- If a policy lets a path be written, the path is below a root that the permissions ask for, which
    -- is absolute, and neither at nor below a protected directory that exists in that root.
    pub can_write-Asked :
        (path : FilePath)
        → can_write_path_with_cwd h (macos_file_system_policy_for_cwd h p cwd env) path ≡ true
        → (root : FilePath) × Asked p cwd env root
          × (h.is_absolute root ≡ true)
          × (path_starts_with h path root ≡ true)
          × All (λ s. is_at_or_below h path s ≡ false) (keep_absolute h (protected_subpaths h root))
    can_write-Asked path can =
        let roots = macos_writable_roots_for_cwd h p cwd env in
        let (w, m, lets) =
          any-Member (root_lets_write h path) roots (sym (policy_roots path) ∙ can) in
        let known = All-at (IsProtected (Asked p cwd env)) roots w roots-IsProtected m in
        (
          w.root,
          known.is_asked,
          known.is_absolute,
          ground arith,
          subst (All (λ s. is_at_or_below h path s ≡ false)) known.subpaths
              (outside path w.read_only_subpaths (ground arith)),
        )

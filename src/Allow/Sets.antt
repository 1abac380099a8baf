-- ===== src/Allow/Sets.antt =====
-- What the sets of src/allow.rs hold.
use yj_sandbox.Base.{
  true, false, ◌≡◌, refl, sym, ◌∙◌, subst, ◌⊎◌, inl, inr, List, [], ◌∷◌, ◌++◌, any, any-append,
  Member, Member-append, arith,
}
use yj_sandbox.Base.Distinct.{Distinct, Distinct-append}
use yj_sandbox.Base.Host.{Host, FilePath, path_eq, path_eq_refl}
use yj_sandbox.Paths.{canonicalize_path}
use yj_sandbox.Permissions.{
  EnvMap, WindowsWritableRoot, ResolvedSandboxPermissions, writable_roots_for_cwd,
}
use yj_sandbox.Allow.{
  AllowDenyPaths, add_existing, add_all_existing, add_writable_roots,
  compute_allow_paths_for_permissions,
}

-- The roots in their canonical form, and their read-only directories.
abbrev pub canonical_roots : Host → List WindowsWritableRoot → List FilePath
canonical_roots h [] = []
canonical_roots h (w ∷ ws) = canonicalize_path h w.root ∷ canonical_roots h ws

abbrev pub read_only_paths : List WindowsWritableRoot → List FilePath
read_only_paths [] = []
read_only_paths (w ∷ ws) = w.read_only_subpaths ++ read_only_paths ws

module _ (h : Host) where
  -- The set has exactly those of the paths that exist, but for equal spellings, of which it has one.
  pub record IsSetOf (wanted paths : List FilePath) : Type 0 where
    pub is_from : (p : FilePath) → Member p paths → Member p wanted × (h.exists p ≡ true)
    pub is_complete :
        (p : FilePath) → Member p wanted → h.exists p ≡ true → any (λ q. path_eq h q p) paths ≡ true
    pub is_distinct : Distinct (path_eq h) paths

  add_existing-Distinct :
      (p : FilePath) (paths : List FilePath)
      → Distinct (path_eq h) paths
      → Distinct (path_eq h) (add_existing h p paths)
  unfolding add_existing
  add_existing-Distinct p paths d = ground (
    arith,
    λ (new : any (λ x. path_eq h x p) paths ≡ false). Distinct-append (path_eq h) paths p new d,
  )

  add_all-Distinct :
      (ps paths : List FilePath)
      → Distinct (path_eq h) paths
      → Distinct (path_eq h) (add_all_existing h ps paths)
  unfolding add_all_existing
  add_all-Distinct [] paths d = d
  add_all-Distinct (p ∷ ps) paths d =
      add_all-Distinct ps (add_existing h p paths) (add_existing-Distinct p paths d)

  add_all-append :
      (ps qs paths : List FilePath)
      → add_all_existing h (ps ++ qs) paths ≡ add_all_existing h qs (add_all_existing h ps paths)
  unfolding add_all_existing
  add_all-append [] qs paths = refl
  add_all-append (p ∷ ps) qs paths = add_all-append ps qs (add_existing h p paths)

  add_existing-from :
      (p q : FilePath) (paths : List FilePath)
      → Member q (add_existing h p paths)
      → Member q paths ⊎ ((q ≡ p) × (h.exists p ≡ true))
  unfolding add_existing
  add_existing-from p q paths m = ground (arith, Member-append q paths (p ∷ []))

  add_existing-keeps :
      (p q : FilePath) (paths : List FilePath)
      → any (λ x. path_eq h x q) paths ≡ true
      → any (λ x. path_eq h x q) (add_existing h p paths) ≡ true
  unfolding add_existing
  add_existing-keeps p q paths e = ground (arith, any-append (λ x. path_eq h x q) paths (p ∷ []))

  add_existing-adds :
      (p : FilePath) (paths : List FilePath)
      → h.exists p ≡ true
      → any (λ x. path_eq h x p) (add_existing h p paths) ≡ true
  unfolding add_existing
  add_existing-adds p paths e =
      ground (arith, any-append (λ x. path_eq h x p) paths (p ∷ []), path_eq_refl h p)

  add_all-from :
      (ps paths : List FilePath) (q : FilePath)
      → Member q (add_all_existing h ps paths)
      → Member q paths ⊎ (Member q ps × (h.exists q ≡ true))
  unfolding add_all_existing
  add_all-from [] paths q m = inl m
  add_all-from (p ∷ ps) paths q m = elim (add_all-from ps (add_existing h p paths) q m) [
    | inr (later, there) ↦ inr (inr later, there)
    | inl early ↦ elim (add_existing-from p q paths early) [
      | inl before ↦ inl before
      | inr (same, there) ↦ inr (inl same, subst (λ x. h.exists x ≡ true) (sym same) there)
    ]
  ]

  add_all-keeps :
      (ps paths : List FilePath) (q : FilePath)
      → any (λ x. path_eq h x q) paths ≡ true
      → any (λ x. path_eq h x q) (add_all_existing h ps paths) ≡ true
  unfolding add_all_existing
  add_all-keeps [] paths q e = e
  add_all-keeps (p ∷ ps) paths q e =
      add_all-keeps ps (add_existing h p paths) q (add_existing-keeps p q paths e)

  add_all-adds :
      (ps paths : List FilePath) (q : FilePath)
      → Member q ps
      → h.exists q ≡ true
      → any (λ x. path_eq h x q) (add_all_existing h ps paths) ≡ true
  unfolding add_all_existing
  add_all-adds [] paths q m there = absurd m
  add_all-adds (p ∷ ps) paths q (inl same) there = add_all-keeps ps (add_existing h p paths) q (
      subst (λ x. any (λ y. path_eq h y q) (add_existing h x paths) ≡ true) same
        (add_existing-adds q paths there))
  add_all-adds (p ∷ ps) paths q (inr m) there = add_all-adds ps (add_existing h p paths) q m there

  add_all-IsSetOf : (ps : List FilePath) → IsSetOf ps (add_all_existing h ps [])
  add_all-IsSetOf ps = record {
    is_from =
        λ q m. elim (add_all-from ps [] q m) [ inl nowhere ↦ absurd nowhere | inr found ↦ found ];
    is_complete = add_all-adds ps [];
    is_distinct = add_all-Distinct ps [] tt;
  }

  add_writable_roots_lem :
      (ws : List WindowsWritableRoot) (sets : AllowDenyPaths)
      → ((add_writable_roots h ws sets).allow
          ≡ add_all_existing h (canonical_roots h ws) sets.allow)
        × ((add_writable_roots h ws sets).deny ≡ add_all_existing h (read_only_paths ws) sets.deny)
  unfolding add_writable_roots add_all_existing
  add_writable_roots_lem [] sets = (refl, refl)
  add_writable_roots_lem (w ∷ ws) sets =
      let next : AllowDenyPaths = record {
        allow = add_existing h (canonicalize_path h w.root) sets.allow;
        deny = add_all_existing h w.read_only_subpaths sets.deny;
      } in
      let (allows, denies) = add_writable_roots_lem ws next in
      (allows, denies ∙ sym (add_all-append w.read_only_subpaths (read_only_paths ws) sets.deny))

  -- The allowed paths are the canonical forms of the writable roots, and the denied ones their
  -- read-only directories, of each those that exist, and equal ones stand once.
  pub compute_allow_paths-IsSetOf :
      (p : ResolvedSandboxPermissions) (cwd : FilePath) (env : EnvMap)
      → IsSetOf
          (canonical_roots h (writable_roots_for_cwd h p cwd env))
          (compute_allow_paths_for_permissions h p cwd env).allow
        × IsSetOf
            (read_only_paths (writable_roots_for_cwd h p cwd env))
            (compute_allow_paths_for_permissions h p cwd env).deny
  unfolding compute_allow_paths_for_permissions
  compute_allow_paths-IsSetOf p cwd env =
      let ws = writable_roots_for_cwd h p cwd env in
      let (allows, denies) = add_writable_roots_lem ws (record { allow = []; deny = [] }) in
      (
        subst (IsSetOf (canonical_roots h ws)) (sym allows)
            (add_all-IsSetOf (canonical_roots h ws)),
        subst (IsSetOf (read_only_paths ws)) (sym denies) (add_all-IsSetOf (read_only_paths ws)),
      )

-- ===== src/Permissions/Pushing.antt =====
-- Pushing roots one by one: `push_root` of src/resolved_permissions.rs.
use yj_sandbox.Base.{
  Bool, true, false, ◌≡◌, refl, sym, ap, subst, ◌⊎◌, inl, inr, List, [], ◌∷◌, ◌++◌, any,
  if◌then◌else◌, arith, Bool-cases, any-Member, Member, Member-append-cases, Member-append_left,
  Member-append_right, All, All-append,
}
use yj_sandbox.Base.Host.{Host, FilePath, path_eq, path_eq_refl}
use yj_sandbox.Permissions.{WindowsWritableRoot, protected_subpaths, push_root}

module _ (h : Host) where
  -- A root with the protected directories that exist in it.
  abbrev pub annotated : FilePath → WindowsWritableRoot
  annotated root = record { root = root; read_only_subpaths = protected_subpaths h root }

  unfoldable pub push_all : List WindowsWritableRoot → List FilePath → List WindowsWritableRoot
  push_all out [] = out
  push_all out (r ∷ rs) = push_all (push_root h out r) rs

  pub push_all-append :
      (out : List WindowsWritableRoot) (rs ss : List FilePath)
      → push_all out (rs ++ ss) ≡ push_all (push_all out rs) ss
  unfolding push_all
  push_all-append out [] ss = refl
  push_all-append out (r ∷ rs) ss = push_all-append (push_root h out r) rs ss

  pub if-push_all :
      (b : Bool) (out : List WindowsWritableRoot) (rs : List FilePath)
      → (if b then push_all out rs else out) ≡ push_all out (if b then rs else [])
  unfolding push_all
  if-push_all true out rs = refl
  if-push_all false out rs = refl

  module _ (out : List WindowsWritableRoot) (r : FilePath) where
    push_root-old : any (λ e. path_eq h e.root r) out ≡ true → push_root h out r ≡ out
    unfolding push_root
    push_root-old old = rw old

    push_root-new :
        any (λ e. path_eq h e.root r) out ≡ false → push_root h out r ≡ out ++ annotated r ∷ []
    unfolding push_root
    push_root-new new = rw new

    Member-push_root :
        (w : WindowsWritableRoot) → Member w (push_root h out r) → Member w out ⊎ (w ≡ annotated r)
    Member-push_root w m = elim (Bool-cases (any (λ e. path_eq h e.root r) out)) [
      | inl old ↦ inl (subst (Member w) (push_root-old old) m)
      | inr new ↦
          elim (Member-append-cases w out (annotated r ∷ [])
            (subst (Member w) (push_root-new new) m)) [
              | inl before ↦ inl before
              | inr last ↦ inr (ground arith)
            ]
    ]

    push_root-keeps : (w : WindowsWritableRoot) → Member w out → Member w (push_root h out r)
    unfolding push_root
    push_root-keeps w m = elim (Bool-cases (any (λ e. path_eq h e.root r) out)) [
      | inl old ↦ rw old m
      | inr new ↦ rw new (Member-append_left w out (annotated r ∷ []) m)
    ]

    push_root-covers :
        (e : WindowsWritableRoot) × Member e (push_root h out r) × (path_eq h e.root r ≡ true)
    unfolding push_root
    push_root-covers = elim (Bool-cases (any (λ e. path_eq h e.root r) out)) [
      | inl old ↦ rw old (any-Member (λ e. path_eq h e.root r) out old)
      | inr new ↦ rw new (
        annotated r,
        Member-append_right (annotated r) out (annotated r ∷ []) (inl refl),
        path_eq_refl h r,
      )
    ]

  -- Where an entry of the pushed list comes from, and that each pushed root has an entry.
  pub Member-push_all :
      (out : List WindowsWritableRoot) (rs : List FilePath) (w : WindowsWritableRoot)
      → Member w (push_all out rs)
      → Member w out ⊎ (Member w.root rs × (w ≡ annotated w.root))
  unfolding push_all
  Member-push_all out [] w m = inl m
  Member-push_all out (r ∷ rs) w m = elim (Member-push_all (push_root h out r) rs w m) [
    | inr later ↦ inr (inr later.0, later.1)
    | inl now ↦ elim (Member-push_root out r w now) [
      | inl before ↦ inl before
      | inr this ↦ inr (inl (ap (λ (v : WindowsWritableRoot). v.root) this), ground arith)
    ]
  ]

  push_all-keeps :
      (out : List WindowsWritableRoot) (rs : List FilePath) (w : WindowsWritableRoot)
      → Member w out
      → Member w (push_all out rs)
  unfolding push_all
  push_all-keeps out [] w m = m
  push_all-keeps out (r ∷ rs) w m =
      push_all-keeps (push_root h out r) rs w (push_root-keeps out r w m)

  pub push_all-covers :
      (out : List WindowsWritableRoot) (rs : List FilePath) (r : FilePath)
      → Member r rs
      → (e : WindowsWritableRoot) × Member e (push_all out rs) × (path_eq h e.root r ≡ true)
  unfolding push_all
  push_all-covers out [] r m = absurd m
  push_all-covers out (q ∷ rs) r (inl e) =
      let (w, m, same) = push_root-covers out q in
      (
        w,
        push_all-keeps (push_root h out q) rs w m,
        subst (λ t. path_eq h w.root t ≡ true) (sym e) same,
      )
  push_all-covers out (q ∷ rs) r (inr m) = push_all-covers (push_root h out q) rs r m

  -- No two entries have equal roots.
  abbrev pub HasDistinctRoots : List WindowsWritableRoot → Type 0
  HasDistinctRoots [] = Unit
  HasDistinctRoots (w ∷ ws) = All (λ v. path_eq h w.root v.root ≡ false) ws × HasDistinctRoots ws

  All-differ :
      (w : WindowsWritableRoot) (ws : List WindowsWritableRoot) (r : FilePath)
      → All (λ v. path_eq h w.root v.root ≡ false) ws
      → path_eq h w.root r ≡ false
      → All (λ v. path_eq h w.root v.root ≡ false) (ws ++ annotated r ∷ [])
  All-differ w ws r before last = All-append _ ws (annotated r ∷ []) before (last, tt)

  HasDistinctRoots-snoc :
      (ws : List WindowsWritableRoot) (r : FilePath)
      → HasDistinctRoots ws
      → any (λ e. path_eq h e.root r) ws ≡ false
      → HasDistinctRoots (ws ++ annotated r ∷ [])
  HasDistinctRoots-snoc [] r d new = (tt, tt)
  HasDistinctRoots-snoc (w ∷ ws) r d new =
      (All-differ w ws r d.0 (ground arith), HasDistinctRoots-snoc ws r d.1 (ground arith))

  HasDistinctRoots-push_root :
      (out : List WindowsWritableRoot) (r : FilePath)
      → HasDistinctRoots out
      → HasDistinctRoots (push_root h out r)
  HasDistinctRoots-push_root out r d = elim (Bool-cases (any (λ e. path_eq h e.root r) out)) [
    | inl old ↦ subst HasDistinctRoots (sym (push_root-old out r old)) d
    | inr new ↦
        subst HasDistinctRoots (sym (push_root-new out r new)) (HasDistinctRoots-snoc out r d new)
  ]

  pub HasDistinctRoots-push_all :
      (out : List WindowsWritableRoot) (rs : List FilePath)
      → HasDistinctRoots out
      → HasDistinctRoots (push_all out rs)
  unfolding push_all
  HasDistinctRoots-push_all out [] d = d
  HasDistinctRoots-push_all out (r ∷ rs) d =
      HasDistinctRoots-push_all (push_root h out r) rs (HasDistinctRoots-push_root out r d)

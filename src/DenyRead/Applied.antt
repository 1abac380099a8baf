-- ===== src/DenyRead/Applied.antt =====
-- What `apply_deny_read_acls` of src/deny_read_acl.rs has denied when it succeeds.
use yj_sandbox.Base.{
  Bool, true, ◌≡◌, refl, sym, ap, ◌∙◌, subst, inl, inr, List, [], ◌∷◌, Member, arith,
}
use yj_sandbox.Base.Outcome.{ok, Result-cases}
use yj_sandbox.Base.Text.{Text}
use yj_sandbox.Base.Host.{Host, FilePath}
use yj_sandbox.DenyRead.{
  Acl, Planned, nothing_planned, push_planned_path, plan_deny_read_acl_paths, materialize,
  try_apply, note_added, apply_loop, apply_deny_read_acls,
}
use yj_sandbox.DenyRead.Plan.{push_all, IsPlan, push_all-IsPlan}
use yj_sandbox.DenyRead.Rollback.{IsAcl, apply_loop-err, apply_loop-ok}

module _ (a : Acl) (d : IsAcl a) where
  abbrev pub Denies : a.World → FilePath → Type 0
  Denies w path = d.is_denied w (d.target path) ≡ true

  -- Nothing that is denied is given back.
  abbrev KeepsDenied : a.World → a.World → Type 0
  KeepsDenied w v = (o : Text) → d.is_denied w o ≡ true → d.is_denied v o ≡ true

  materialize-KeepsDenied : (path : FilePath) (w : a.World) → KeepsDenied w (materialize a path w).1
  unfolding materialize
  materialize-KeepsDenied path w o e = ground (arith, d.create-entries path w o)

  module _ (path : FilePath) (w v : a.World) (new : Bool)
      (e : try_apply a path w ≡ (ok new, v)) where
    try_apply-Denies : Denies v path
    unfolding try_apply
    try_apply-Denies = let m = (materialize a path w).1 in ground (arith, d.add-denies path m new)

    try_apply-KeepsDenied : KeepsDenied w v
    unfolding try_apply
    try_apply-KeepsDenied o denied =
        let m = (materialize a path w).1 in
        ground (arith, materialize-KeepsDenied path w o denied, d.add-keeps path m o)

  apply_loop-nil :
      (applied : Planned) (added : List FilePath) (w : a.World)
      → apply_loop a [] applied added w ≡ (ok applied.planned, w)
  unfolding apply_loop
  apply_loop-nil applied added w = refl

  apply_loop-KeepsDenied :
      (paths : List FilePath) (applied : Planned) (added : List FilePath) (w v : a.World)
      (l : List FilePath)
      → apply_loop a paths applied added w ≡ (ok l, v)
      → KeepsDenied w v
        × ((q : FilePath) → Member q paths → Denies v q)
        × (l ≡ (push_all applied paths).planned)
  unfolding push_all
  apply_loop-KeepsDenied [] applied added w v l e =
      let f = sym (apply_loop-nil applied added w) ∙ e in
      (
        λ o denied. subst (λ x. d.is_denied x o ≡ true) (ap (λ r. r.1) f) denied,
        λ q m. absurd m,
        ground arith,
      )
  apply_loop-KeepsDenied (path ∷ paths) applied added w v l e =
      let u = (try_apply a path w).1 in
      elim (Result-cases (try_apply a path w).0) [
        | inl (why, failed) ↦
            absurd (cc (apply_loop-err a d path paths applied added w why failed, e))
        | inr (new, done) ↦
            let step : try_apply a path w ≡ (ok new, u) = ground arith in
            let (keeps, denies, same) =
              apply_loop-KeepsDenied paths (push_planned_path applied path)
                (note_added new path added) u v l
                (sym (apply_loop-ok a d path paths applied added w new done) ∙ e) in
            (
              λ o denied. keeps o (try_apply-KeepsDenied path w u new step o denied),
              λ q m. elim m [
                | inl first ↦
                    subst (Denies v) (sym first)
                      (keeps (d.target path) (try_apply-Denies path w u new step))
                | inr later ↦ denies q later
              ],
              same,
            )
      ]

  -- Where the calls keep their laws: if the application succeeds, the object of every planned path is denied, what was denied before
  -- still is, and the paths returned are the plan's, each key once.
  pub apply_deny_read_acls-ok :
      (h : Host) (paths : List FilePath) (w v : a.World) (l : List FilePath)
      → apply_deny_read_acls a h paths w ≡ (ok l, v)
      → ((q : FilePath) → Member q (plan_deny_read_acl_paths a h w paths) → Denies v q)
        × ((o : Text) → d.is_denied w o ≡ true → d.is_denied v o ≡ true)
        × IsPlan (plan_deny_read_acl_paths a h w paths) l
  unfolding apply_deny_read_acls
  apply_deny_read_acls-ok h paths w v l e =
      let plan = plan_deny_read_acl_paths a h w paths in
      let (keeps, denies, same) = apply_loop-KeepsDenied plan nothing_planned [] w v l e in
      (denies, keeps, subst (IsPlan plan) (sym same) (push_all-IsPlan plan))

-- ===== src/DenyRead/Rollback.antt =====
-- What `apply_deny_read_acls` of src/deny_read_acl.rs leaves behind when it fails, and when it does
-- not.
use yj_sandbox.Base.{
  Bool, true, false, not, ◌&&◌, ◌≡◌, refl, sym, ap, ◌∙◌, subst, inl, inr, List, [], ◌∷◌, some, any,
  any-append, arith, if◌then◌else◌,
}
use yj_sandbox.Base.Outcome.{ok, err, Result-cases}
use yj_sandbox.Base.Text.{Text, text_eq}
use yj_sandbox.Base.Text.Laws.{text_eq_iff}
use yj_sandbox.Base.Host.{Host, FilePath}
use yj_sandbox.DenyRead.{
  Acl, DenyError, Planned, nothing_planned, push_planned_path, plan_deny_read_acl_paths, revoke_all,
  materialize, try_apply, note_added, apply_loop, apply_deny_read_acls,
}

-- What the calls do to the entries of the principal. `has_entry` is an explicit entry on the object
-- that a path leads to, `is_denied` one that is explicit or inherited.
pub record IsAcl (a : Acl) : Type 1 where
  pub target : FilePath → Text
  pub has_entry : a.World → Text → Bool
  pub is_denied : a.World → Text → Bool
  pub create-entries :
      (p : FilePath) (w : a.World) (o : Text)
      → (has_entry (a.create_dir_all p w).1 o ≡ has_entry w o)
        × (is_denied w o ≡ true → is_denied (a.create_dir_all p w).1 o ≡ true)
  -- A call that adds nothing changes no entry; one that adds an entry adds it to the object.
  pub add-entries :
      (p : FilePath) (w : a.World) (o : Text)
      → has_entry (a.add_deny_read_ace p w).1 o ≡ (
          if text_eq o (target p)
          then (elim (a.add_deny_read_ace p w).0 [ some true ↦ true | _ ↦ has_entry w o ])
          else has_entry w o)
  pub add-is_new :
      (p : FilePath) (w : a.World)
      → (a.add_deny_read_ace p w).0 ≡ some true
      → has_entry w (target p) ≡ false
  pub add-denies :
      (p : FilePath) (w : a.World) (b : Bool)
      → (a.add_deny_read_ace p w).0 ≡ some b
      → is_denied (a.add_deny_read_ace p w).1 (target p) ≡ true
  pub add-keeps :
      (p : FilePath) (w : a.World) (o : Text)
      → is_denied w o ≡ true
      → is_denied (a.add_deny_read_ace p w).1 o ≡ true
  pub revoke-entries :
      (p : FilePath) (w : a.World) (o : Text)
      → has_entry (a.revoke_ace p w) o ≡ (not (text_eq o (target p)) && has_entry w o)

module _ (a : Acl) (d : IsAcl a) where
  abbrev leads_to : Text → FilePath → Bool
  leads_to o path = text_eq o (d.target path)

  revoke_all-entries :
      (paths : List FilePath) (w : a.World) (o : Text)
      → d.has_entry (revoke_all a paths w) o ≡ (not (any (leads_to o) paths) && d.has_entry w o)
  unfolding revoke_all
  revoke_all-entries [] w o = ground arith
  revoke_all-entries (p ∷ paths) w o =
      ground (arith, revoke_all-entries paths (a.revoke_ace p w) o, d.revoke-entries p w o)

  -- Against the world at the start, the current one has entries on the added paths' objects, which
  -- had none, and no other.
  abbrev Since : a.World → List FilePath → a.World → Type 0
  Since start added w =
      (o : Text)
      → (any (leads_to o) added ≡ true → d.has_entry start o ≡ false)
        × (any (leads_to o) added ≡ false → d.has_entry w o ≡ d.has_entry start o)

  Since-revoke_all :
      (start : a.World) (added : List FilePath) (w : a.World)
      → Since start added w
      → (o : Text) → d.has_entry (revoke_all a added w) o ≡ d.has_entry start o
  Since-revoke_all start added w s o = ground (arith, revoke_all-entries added w o, s o)

  pub materialize-entries :
      (path : FilePath) (w : a.World) (o : Text)
      → d.has_entry (materialize a path w).1 o ≡ d.has_entry w o
  unfolding materialize
  materialize-entries path w o = ground (arith, d.create-entries path w o)

  module _ (start : a.World) (added : List FilePath) (path : FilePath) (w : a.World)
      (s : Since start added w) where
    Since-failed :
        (why : DenyError) (v : a.World) → try_apply a path w ≡ (err why, v) → Since start added v
    unfolding try_apply
    Since-failed why v e o =
        let m = (materialize a path w).1 in
        ground (arith, s o, materialize-entries path w o, d.add-entries path m o)

    Since-applied :
        (new : Bool) (v : a.World)
        → try_apply a path w ≡ (ok new, v)
        → Since start (note_added new path added) v
    unfolding try_apply
    Since-applied new v e o =
        let m = (materialize a path w).1 in
        ground (
          arith,
          s o,
          materialize-entries path w o,
          materialize-entries path w (d.target path),
          d.add-entries path m o,
          d.add-is_new path m,
          any-append (leads_to o) added (path ∷ []),
          text_eq_iff o (d.target path),
        )

  module _ (path : FilePath) (paths : List FilePath) (applied : Planned) (added : List FilePath)
      (w : a.World) where
    pub apply_loop-err :
        (why : DenyError)
        → (try_apply a path w).0 ≡ err why
        → apply_loop a (path ∷ paths) applied added w
          ≡ (err why, revoke_all a added (try_apply a path w).1)
    unfolding apply_loop
    apply_loop-err why e = rw (e, apply_loop) refl

    pub apply_loop-ok :
        (new : Bool)
        → (try_apply a path w).0 ≡ ok new
        → apply_loop a (path ∷ paths) applied added w
          ≡ apply_loop a paths
              (push_planned_path applied path)
              (note_added new path added)
              (try_apply a path w).1
    unfolding apply_loop
    apply_loop-ok new e = rw (e, apply_loop) refl

  apply_loop-failed :
      (start : a.World) (paths : List FilePath) (applied : Planned) (added : List FilePath)
      (w v : a.World) (why : DenyError)
      → Since start added w
      → apply_loop a paths applied added w ≡ (err why, v)
      → (o : Text) → d.has_entry v o ≡ d.has_entry start o
  apply_loop-failed start [] applied added w v why s e = absurd (unfold apply_loop in ground arith)
  apply_loop-failed start (path ∷ paths) applied added w v why s e =
      let u = (try_apply a path w).1 in
      elim (Result-cases (try_apply a path w).0) [
        | inl (y, failed) ↦ λ o.
            subst (λ x. d.has_entry x o ≡ d.has_entry start o)
              (ap (λ r. r.1) (sym (apply_loop-err path paths applied added w y failed) ∙ e))
              (Since-revoke_all start added u (Since-failed start added path w s y u (ground arith))
                o)
        | inr (new, done) ↦
            apply_loop-failed start paths (push_planned_path applied path)
              (note_added new path added) u v why
              (Since-applied start added path w s new u (ground arith))
              (sym (apply_loop-ok path paths applied added w new done) ∙ e)
      ]

  -- Where the calls keep their laws: if the application fails, each object has the entry that it had
  -- before: those that this call has added are revoked, and no other.
  pub apply_deny_read_acls-err :
      (h : Host) (paths : List FilePath) (w v : a.World) (why : DenyError)
      → apply_deny_read_acls a h paths w ≡ (err why, v)
      → (o : Text) → d.has_entry v o ≡ d.has_entry w o
  unfolding apply_deny_read_acls
  apply_deny_read_acls-err h paths w v why e =
      apply_loop-failed w (plan_deny_read_acl_paths a h w paths) nothing_planned [] w v why
        (λ o. (λ added. ground arith, λ _. refl)) e

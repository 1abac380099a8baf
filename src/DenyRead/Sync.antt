-- ===== src/DenyRead/Sync.antt =====
-- The persistent entries of a principal: `sync_persistent_deny_read_acls` of src/deny_read_state.rs.
use yj_sandbox.Base.{
  Bool, not, ◌&&◌, ◌≡◌, ◌≢◌, refl, sym, subst, inl, inr, List, [], ◌∷◌, any, arith, Bool-cases,
}
use yj_sandbox.Base.Outcome.{ok, Result-cases}
use yj_sandbox.Base.Text.{Text, text_eq, contains_text}
use yj_sandbox.Base.Maps.{
  map_get, map_get-insert, map_get-insert_other, map_get-remove, map_get-remove_other,
}
use yj_sandbox.Base.Host.{Host, FilePath}
use yj_sandbox.Paths.{or_else}
use yj_sandbox.DenyRead.{
  Acl, lexical_path_key, apply_deny_read_acls, DenyState, principals, Persistent, load_state,
  keys_of, recorded, revoke_stale, store_state, reconcile, sync_persistent_deny_read_acls,
}
use yj_sandbox.DenyRead.Rollback.{IsAcl}

module _ (a : Acl) (d : IsAcl a) where
  -- The previous path is not applied again, and it leads to the object.
  abbrev pub stale_for : List Text → Text → FilePath → Bool
  stale_for desired o path =
      not (contains_text desired (lexical_path_key path)) && text_eq o (d.target path)

  revoke_stale-entries :
      (desired : List Text) (paths : List FilePath) (w : a.World) (o : Text)
      → d.has_entry (revoke_stale a desired paths w) o
        ≡ (not (any (stale_for desired o) paths) && d.has_entry w o)
  unfolding revoke_stale
  revoke_stale-entries desired [] w o = ground arith
  revoke_stale-entries desired (p ∷ paths) w o =
      elim (Bool-cases (contains_text desired (lexical_path_key p))) [
        | inl kept ↦ rw kept (ground (arith, revoke_stale-entries desired paths w o))
        | inr stale ↦ rw stale (
            ground (
              arith,
              revoke_stale-entries desired paths (a.revoke_ace p w) o,
              d.revoke-entries p w o,
            ))
      ]

  -- The outcome of a run that succeeds, against the state before it and the world in which the
  -- desired paths have been applied.
  pub record IsReconciled (sid : Text) (state : DenyState) (applied : List FilePath) (w : a.World)
      (q : Persistent a) : Type 0 where
    pub new_state : DenyState
    pub is_stored : q.file ≡ principals new_state
    pub own_paths : or_else (map_get new_state sid) [] ≡ applied
    pub others : (other : Text) → sid ≢ other → map_get new_state other ≡ map_get state other
    pub entries :
        (o : Text)
        → d.has_entry q.world o ≡ (
            not (any (stale_for (keys_of applied) o) (or_else (map_get state sid) []))
            && d.has_entry w o)

  recorded-own :
      (sid : Text) (applied : List FilePath) (state : DenyState)
      → or_else (map_get (recorded sid applied state) sid) [] ≡ applied
  recorded-own sid [] state = rw (map_get-remove state sid) refl
  recorded-own sid (x ∷ xs) state = rw (map_get-insert state sid (x ∷ xs)) refl

  recorded-others :
      (sid : Text) (applied : List FilePath) (state : DenyState) (other : Text)
      → sid ≢ other
      → map_get (recorded sid applied state) other ≡ map_get state other
  recorded-others sid [] state other apart = map_get-remove_other state sid other apart
  recorded-others sid (x ∷ xs) state other apart =
      map_get-insert_other state sid (x ∷ xs) other apart

  reconcile-IsReconciled :
      (sid : Text) (state : DenyState) (applied l : List FilePath) (p q : Persistent a)
      → reconcile a sid state applied p ≡ (ok l, q)
      → (l ≡ applied) × IsReconciled sid state applied p.world q
  unfolding reconcile store_state
  reconcile-IsReconciled sid state applied l p q e = elim (Bool-cases p.can_store) [
    | inr cannot ↦ absurd (ground arith)
    | inl can ↦ (
      ground arith,
      record {
        new_state = recorded sid applied state;
        is_stored = ground arith;
        own_paths = recorded-own sid applied state;
        others = recorded-others sid applied state;
        entries = λ o. ground (
          arith,
          revoke_stale-entries (keys_of applied) (or_else (map_get state sid) []) p.world o,
        );
      },
    )
  ]

  -- Where the calls keep their laws: if the synchronisation succeeds, the desired paths were applied, the state records exactly them
  -- for the principal and keeps every other principal's, and of the entries there were once they had
  -- been applied just those on the objects of stale paths are gone: of paths recorded before whose
  -- key no applied path has.
  pub sync-IsReconciled :
      (h : Host) (sid : Text) (desired l : List FilePath) (p q : Persistent a)
      → sync_persistent_deny_read_acls a h sid desired p ≡ (ok l, q)
      → (state : DenyState) × (w : a.World) × (load_state p.file ≡ ok state)
        × (apply_deny_read_acls a h desired p.world ≡ (ok l, w))
        × IsReconciled sid state l w q
  unfolding sync_persistent_deny_read_acls
  sync-IsReconciled h sid desired l p q e = elim (Result-cases (load_state p.file)) [
    | inl (why, failed) ↦ absurd (ground arith)
    | inr (state, loaded) ↦
        let w = (apply_deny_read_acls a h desired p.world).1 in
        elim (Result-cases (apply_deny_read_acls a h desired p.world).0) [
          | inl (why, failed) ↦ absurd (ground arith)
          | inr (applied, done) ↦
              let (same, r) =
                reconcile-IsReconciled sid state applied l (record p { world = w }) q
                  (ground arith) in
              (
                state,
                w,
                loaded,
                ground arith,
                subst (λ x. IsReconciled sid state x w q) (sym same) r,
              )
        ]
  ]

-- ===== src/Cap/Stable.antt =====
-- A root keeps its SID: src/cap.rs.
use yj_sandbox.Base.{
  ◌≡◌, refl, sym, ◌∙◌, subst, inl, inr, none, some, if◌then◌else◌, arith, Option-cases,
}
use yj_sandbox.Base.Outcome.{ok}
use yj_sandbox.Base.Text.{Text, text_eq}
use yj_sandbox.Base.Maps.{map_get, map_insert, map_get-insert, map_get-insert_other}
use yj_sandbox.Base.Host.{Host, FilePath}
use yj_sandbox.Paths.{canonical_path_key}
use yj_sandbox.Cap.{
  SidMap, CapSids, CapWorld, CapLibraries, Table, workspaces, writable_roots, table, with_table,
  make_random_cap_sid_string, load_or_create_cap_sids, add_sid, sid_for_key,
  workspace_cap_sid_for_cwd, writable_root_cap_sid_for_path, workspace_write_cap_sid_for_root,
}
use yj_sandbox.Cap.Files.{ok_of_run, IsSerde, Loads, saved-Loads, load_or_create-Loads}

module _ (l : CapLibraries) (serde : IsSerde l) where
  -- The file holds the SID of the key.
  abbrev Known : Table → Text → Text → CapWorld → Type 0
  Known t key sid w = (caps : CapSids) × Loads l caps w × (map_get (table t caps) key ≡ some sid)

  Known-again :
      (t : Table) (key sid : Text) (w : CapWorld)
      → Known t key sid w
      → sid_for_key l t key w ≡ (ok sid, w)
  unfolding sid_for_key
  Known-again t key sid w (caps, loads, found) = rw loads (ground arith)

  table-with : (t : Table) (m : SidMap) (caps : CapSids) → table t (with_table t m caps) ≡ m
  table-with workspaces m caps = refl
  table-with writable_roots m caps = refl

  insert_keeps :
      (m : SidMap) (key other new sid : Text)
      → map_get m key ≡ none
      → map_get m other ≡ some sid
      → map_get (map_insert key new m) other ≡ some sid
  insert_keeps m key other new sid missing found =
      map_get-insert_other m key new other
        (λ same. cc (subst (λ k. map_get m k ≡ none) same missing, found))
      ∙ found

  table-insert :
      (t u : Table) (key other new sid : Text) (caps : CapSids)
      → map_get (table t caps) key ≡ none
      → map_get (table u caps) other ≡ some sid
      → map_get (table u (with_table t (map_insert key new (table t caps)) caps)) other ≡ some sid
  table-insert workspaces workspaces key other new sid caps missing found =
      insert_keeps caps.workspace_by_cwd key other new sid missing found
  table-insert workspaces writable_roots key other new sid caps missing found = found
  table-insert writable_roots workspaces key other new sid caps missing found = found
  table-insert writable_roots writable_roots key other new sid caps missing found =
      insert_keeps caps.writable_root_by_path key other new sid missing found

  add_sid-Known :
      (t : Table) (key sid : Text) (caps : CapSids) (w v : CapWorld)
      → add_sid l t key caps w ≡ (ok sid, v)
      → Known t key sid v
  unfolding add_sid
  add_sid-Known t key sid caps w v e =
      let new = (make_random_cap_sid_string l w).0 in
      let grown = with_table t (map_insert key new (table t caps)) caps in
      let (same, loads) = saved-Loads l serde grown (make_random_cap_sid_string l w).1 new e in
      (
        grown,
        loads,
        subst (λ s. map_get (table t grown) key ≡ some s) same
            (subst (λ m. map_get m key ≡ some new)
              (sym (table-with t (map_insert key new (table t caps)) caps))
              (map_get-insert (table t caps) key new)),
      )

  sid_for_key-Known :
      (t : Table) (key sid : Text) (w v : CapWorld)
      → sid_for_key l t key w ≡ (ok sid, v)
      → Known t key sid v
  unfolding sid_for_key
  sid_for_key-Known t key sid w v e =
      let (caps, u, loaded, rest) = ok_of_run (load_or_create_cap_sids l w) _ e in
      elim (Option-cases (map_get (table t caps) key)) [
        | inl missing ↦ add_sid-Known t key sid caps u v (ground arith)
        | inr (s, found) ↦
            (caps, ground (arith, load_or_create-Loads l serde caps w u loaded), ground arith)
      ]

  sid_for_key-keeps :
      (t u : Table) (key other sid new : Text) (w v : CapWorld)
      → Known u other sid w
      → sid_for_key l t key w ≡ (ok new, v)
      → Known u other sid v
  unfolding sid_for_key add_sid
  sid_for_key-keeps t u key other sid new w v (caps, loads, found) e =
      elim (Option-cases (map_get (table t caps) key)) [
        | inr (s, old) ↦ (caps, subst (Loads l caps) (ground arith) loads, found)
        | inl missing ↦
            let random = (make_random_cap_sid_string l w).0 in
            let grown = with_table t (map_insert key random (table t caps)) caps in
            let (same, kept) =
              saved-Loads l serde grown (make_random_cap_sid_string l w).1 random {b = new} {v = v}
                (ground arith) in
            (grown, kept, table-insert t u key other random sid caps missing found)
      ]

  module _ (h : Host) where
    -- the table and the key under which `workspace_write_cap_sid_for_root` looks
    place : FilePath → FilePath → Table × Text
    place cwd root =
        if text_eq (canonical_path_key h root) (canonical_path_key h cwd)
        then (workspaces, canonical_path_key h cwd)
        else (writable_roots, canonical_path_key h root)

    at_place :
        (cwd root : FilePath) (w : CapWorld)
        → workspace_write_cap_sid_for_root l h cwd root w
          ≡ sid_for_key l (place cwd root).0 (place cwd root).1 w
    unfolding workspace_write_cap_sid_for_root workspace_cap_sid_for_cwd
        writable_root_cap_sid_for_path place
    at_place cwd root w = ground arith

    -- A root that was given a SID is given the same one again, and that call changes nothing.
    pub root_sid-again :
        (cwd root : FilePath) (sid : Text) (w v : CapWorld)
        → workspace_write_cap_sid_for_root l h cwd root w ≡ (ok sid, v)
        → workspace_write_cap_sid_for_root l h cwd root v ≡ (ok sid, v)
    root_sid-again cwd root sid w v e =
        at_place cwd root v
        ∙ Known-again (place cwd root).0 (place cwd root).1 sid v (
            sid_for_key-Known (place cwd root).0 (place cwd root).1 sid w v
              (sym (at_place cwd root w) ∙ e))

    -- If a root was given a SID and then another root, or the same one in another directory, was, the
    -- first is given its SID again and that changes nothing, where serde_json reads what it writes.
    pub root_sid-keeps :
        (cwd root cwd2 root2 : FilePath) (sid sid2 : Text) (w v u : CapWorld)
        → workspace_write_cap_sid_for_root l h cwd root w ≡ (ok sid, v)
        → workspace_write_cap_sid_for_root l h cwd2 root2 v ≡ (ok sid2, u)
        → workspace_write_cap_sid_for_root l h cwd root u ≡ (ok sid, u)
    root_sid-keeps cwd root cwd2 root2 sid sid2 w v u e f =
        at_place cwd root u
        ∙ Known-again (place cwd root).0 (place cwd root).1 sid u (
            sid_for_key-keeps (place cwd2 root2).0 (place cwd root).0 (place cwd2 root2).1
              (place cwd root).1 sid sid2 v u
              (sid_for_key-Known (place cwd root).0 (place cwd root).1 sid w v
                (sym (at_place cwd root w) ∙ e))
              (sym (at_place cwd2 root2 v) ∙ f))

    same_place :
        (cwd root cwd2 root2 : FilePath)
        → canonical_path_key h cwd ≡ canonical_path_key h cwd2
        → canonical_path_key h root ≡ canonical_path_key h root2
        → place cwd root ≡ place cwd2 root2
    unfolding place
    same_place cwd root cwd2 root2 c r = rw (c, r) refl

    -- If a root was given a SID, it is given the same one again, under any spellings of the root and of
    -- the directory with the same canonical keys, and that changes nothing, where serde_json reads what
    -- it writes.
    pub root_sid-spelling :
        (cwd root cwd2 root2 : FilePath) (sid : Text) (w v : CapWorld)
        → canonical_path_key h cwd ≡ canonical_path_key h cwd2
        → canonical_path_key h root ≡ canonical_path_key h root2
        → workspace_write_cap_sid_for_root l h cwd root w ≡ (ok sid, v)
        → workspace_write_cap_sid_for_root l h cwd2 root2 v ≡ (ok sid, v)
    root_sid-spelling cwd root cwd2 root2 sid w v c r e =
        at_place cwd2 root2 v
        ∙ subst (λ (p : Table × Text). sid_for_key l p.0 p.1 v ≡ (ok sid, v))
            (same_place cwd root cwd2 root2 c r)
            (sym (at_place cwd root v) ∙ root_sid-again cwd root sid w v e)

-- ===== src/DenyRead.antt =====
-- Deny-read entries in access control lists: src/deny_read_acl.rs and src/deny_read_state.rs. What
-- these files use of the file system and of src/acl.rs is the record `Acl`, over a state of its own.
mod Keys
pub mod Plan
pub mod Rollback
pub mod Applied
pub mod Sync
use yj_sandbox.Base.{
  Bool, true, false, not, List, [], ◌∷◌, ◌++◌, Option, none, some, map, is_empty, ◌==◌,
  if◌then◌else◌,
}
use yj_sandbox.Base.Outcome.{Result, ok, err}
use yj_sandbox.Base.Text.{
  Text, codes, text_eq, contains_text, to_ascii_lowercase, replace_char, trim_end_while,
}
use yj_sandbox.Base.Maps.{TextMap, map_get, map_insert, map_remove}
use yj_sandbox.Base.Host.{Host, FilePath}
use yj_sandbox.Paths.{canonicalize_path, or_else}

-- `psid` is fixed: all of these are about one principal.
pub record Acl : Type 1 where
  pub World : Type 0
  pub path_exists : World → FilePath → Bool
  -- whether it succeeded
  pub create_dir_all : FilePath → World → Bool × World
  -- whether an entry was added; `none` for an error
  pub add_deny_read_ace : FilePath → World → Option Bool × World
  pub revoke_ace : FilePath → World → World

pub data DenyError : Type 0 where
  cannot_create cannot_apply : FilePath → DenyError
  cannot_load cannot_store : DenyError

unfoldable pub lexical_path_key : FilePath → Text
lexical_path_key path =
    to_ascii_lowercase (trim_end_while (λ c. c == b'/') (replace_char 92 b'/' path))

pub record Planned : Type 0 where
  pub planned : List FilePath
  pub seen : List Text

abbrev pub nothing_planned : Planned
nothing_planned = record { planned = []; seen = [] }

unfoldable pub push_planned_path : Planned → FilePath → Planned
push_planned_path p path =
    let key = lexical_path_key path in
    if contains_text p.seen key
    then p
    else record { planned = p.planned ++ path ∷ []; seen = p.seen ++ key ∷ [] }

abbrev pub added_or_error : FilePath → Option Bool → Result DenyError Bool
added_or_error path none = err (cannot_apply path)
added_or_error path (some added) = ok added

abbrev pub note_added : Bool → FilePath → List FilePath → List FilePath
note_added added path paths = if added then paths ++ path ∷ [] else paths

module _ (a : Acl) where
  open a use {World, path_exists, create_dir_all, add_deny_read_ace, revoke_ace}

  module _ (h : Host) where
    unfoldable pub plan_path : World → FilePath → Planned → Planned
    plan_path w path p =
        let pushed = push_planned_path p path in
        if path_exists w path then push_planned_path pushed (canonicalize_path h path) else pushed

    unfoldable pub plan_paths : World → List FilePath → Planned → Planned
    plan_paths w [] p = p
    plan_paths w (path ∷ paths) p = plan_paths w paths (plan_path w path p)

    unfoldable pub plan_deny_read_acl_paths : World → List FilePath → List FilePath
    unfolding plan_paths
    plan_deny_read_acl_paths w paths = (plan_paths w paths nothing_planned).planned

  unfoldable pub revoke_all : List FilePath → World → World
  revoke_all [] w = w
  revoke_all (path ∷ paths) w = revoke_all paths (revoke_ace path w)

  -- `if !path.exists() { create_dir_all(&path)?; }`
  unfoldable pub materialize : FilePath → World → Bool × World
  materialize path w = if path_exists w path then (true, w) else create_dir_all path w

  -- the closure in the loop of `apply_deny_read_acls`
  unfoldable pub try_apply : FilePath → World → Result DenyError Bool × World
  try_apply path w =
      let (there, v) = materialize path w in
      let (added, u) = add_deny_read_ace path v in
      if there then (added_or_error path added, u) else (err (cannot_create path), v)

  -- the loop, with its variables `applied` and `added_in_this_call`
  unfoldable pub apply_loop :
      List FilePath → Planned → List FilePath → World → Result DenyError (List FilePath) × World
  apply_loop [] applied added w = (ok applied.planned, w)
  apply_loop (path ∷ paths) applied added w =
      let (result, v) = try_apply path w in
      elim result [
        | err why ↦ (err why, revoke_all added v)
        | ok new ↦ apply_loop paths (push_planned_path applied path) (note_added new path added) v
      ]

  module _ (h : Host) where
    unfoldable pub apply_deny_read_acls :
        List FilePath → World → Result DenyError (List FilePath) × World
    unfolding apply_loop
    apply_deny_read_acls paths w =
        apply_loop (plan_deny_read_acl_paths h w paths) nothing_planned [] w

-- The persistent state: src/deny_read_state.rs, for the principal that `psid` stands for.
abbrev pub DenyState : Type 0
DenyState = TextMap (List FilePath)

-- What reading the state's file gives.
pub data StateFile : Type 0 where
  missing unreadable unparsable : StateFile
  principals : DenyState → StateFile

pub record Persistent (a : Acl) : Type 0 where
  pub world : a.World
  pub file : StateFile
  pub can_store : Bool

unfoldable pub load_state : StateFile → Result DenyError DenyState
load_state missing = ok []
load_state unreadable = err cannot_load
load_state unparsable = err cannot_load
load_state (principals state) = ok state

abbrev pub keys_of : List FilePath → List Text
keys_of = map lexical_path_key

abbrev pub recorded : Text → List FilePath → DenyState → DenyState
recorded sid applied state =
    if is_empty applied then map_remove sid state else map_insert sid applied state

module _ (a : Acl) where
  -- the loop over the paths applied before
  unfoldable pub revoke_stale : List Text → List FilePath → a.World → a.World
  revoke_stale desired [] w = w
  revoke_stale desired (path ∷ paths) w =
      revoke_stale desired paths
        (if contains_text desired (lexical_path_key path) then w else a.revoke_ace path w)

  unfoldable pub store_state : DenyState → Persistent a → Result DenyError Unit × Persistent a
  store_state state p =
      if p.can_store then (ok tt, record p { file = principals state }) else (err cannot_store, p)

  -- `sync_persistent_deny_read_acls` once the state is loaded and the paths are applied
  unfoldable pub reconcile :
      Text
      → DenyState
      → List FilePath
      → Persistent a
      → Result DenyError (List FilePath) × Persistent a
  reconcile sid state applied p =
      let previous = or_else (map_get state sid) [] in
      let revoked = record p { world = revoke_stale (keys_of applied) previous p.world } in
      let (stored, q) = store_state (recorded sid applied state) revoked in
      elim stored [ err why ↦ (err why, q) | ok _ ↦ (ok applied, q) ]

  unfoldable pub sync_persistent_deny_read_acls :
      Host → Text → List FilePath → Persistent a → Result DenyError (List FilePath) × Persistent a
  sync_persistent_deny_read_acls h sid desired p = elim (load_state p.file) [
    | err why ↦ (err why, p)
    | ok state ↦
        let (result, w) = apply_deny_read_acls a h desired p.world in
        elim result [
          | err why ↦ (err why, record p { world = w })
          | ok applied ↦ reconcile sid state applied (record p { world = w })
        ]
  ]

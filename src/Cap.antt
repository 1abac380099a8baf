-- ===== src/Cap.antt =====
-- Capability SIDs: src/cap.rs. The file of a `codex_home` is part of the state; the random numbers
-- are a stream, of which the state counts those drawn; serde_json is the record `CapJson`. A write
-- that fails leaves the file as it is.
pub mod Files
pub mod Stable
pub mod Nested
use yj_sandbox.Base.{
  ℕ, ◌+◌, Bool, true, false, ◌&&◌, ◌||◌, not, List, [], ◌∷◌, ◌++◌, Option, none, some, is_empty,
  length, if◌then◌else◌,
}
use yj_sandbox.Base.Outcome.{Result, ok, err}
use yj_sandbox.Base.Text.{Text, codes, text_eq, trim, starts_with, ends_with, decimal_u32}
use yj_sandbox.Base.Maps.{TextMap, map_get, map_insert}
use yj_sandbox.Base.Host.{Host, FilePath, path_starts_with}
use yj_sandbox.Paths.{canonicalize_path, canonical_path_key}

abbrev pub SidMap : Type 0
SidMap = TextMap Text

pub record CapSids : Type 0 where
  pub workspace : Text
  pub readonly : Text
  pub workspace_by_cwd : SidMap
  pub writable_root_by_path : SidMap

pub data CapError : Type 0 where
  cannot_read cannot_persist : CapError

pub data FileState : Type 0 where
  absent unreadable : FileState
  holds : Text → FileState

pub record CapWorld : Type 0 where
  pub file : FileState
  pub is_writable : Bool
  pub drawn : ℕ

-- What is used of serde_json, and the random numbers.
pub record CapLibraries : Type 0 where
  pub to_string : CapSids → Text
  pub from_str : Text → Option CapSids
  pub random_u32 : ℕ → ℕ

abbrev pub Ran : Type 0 → Type 0
Ran A = Result CapError A × CapWorld

-- `?`
abbrev pub and_run : {A B : Type 0} → Ran A → (A → CapWorld → Ran B) → Ran B
and_run (err why, w) rest = (err why, w)
and_run (ok a, w) rest = rest a w

-- One of the two maps of SIDs.
pub data Table : Type 0 where
  workspaces writable_roots : Table

abbrev pub table : Table → CapSids → SidMap
table workspaces caps = caps.workspace_by_cwd
table writable_roots caps = caps.writable_root_by_path

abbrev pub with_table : Table → SidMap → CapSids → CapSids
with_table workspaces m caps = record caps { workspace_by_cwd = m }
with_table writable_roots m caps = record caps { writable_root_by_path = m }

module _ (l : CapLibraries) where
  unfoldable pub make_random_cap_sid_string : CapWorld → Text × CapWorld
  make_random_cap_sid_string w =
      let number = λ (i : ℕ). decimal_u32 (l.random_u32 (w.drawn + i)) in
      (
        codes "S-1-5-21-"
            ++ number 0
            ++ codes "-"
            ++ number 1
            ++ codes "-"
            ++ number 2
            ++ codes "-"
            ++ number 3,
        record w { drawn = w.drawn + 4 },
      )

  unfoldable pub persist_caps : CapSids → CapWorld → Ran Unit
  persist_caps caps w =
      if w.is_writable
      then (ok tt, record w { file = holds (l.to_string caps) })
      else (err cannot_persist, w)

  -- the last lines of `load_or_create_cap_sids`
  unfoldable pub create_cap_sids : CapWorld → Ran CapSids
  create_cap_sids w =
      let (workspace, w1) = make_random_cap_sid_string w in
      let (readonly, w2) = make_random_cap_sid_string w1 in
      let caps : CapSids = record {
        workspace = workspace;
        readonly = readonly;
        workspace_by_cwd = [];
        writable_root_by_path = [];
      } in
      and_run (persist_caps caps w2) (λ _ w3. (ok caps, w3))

  -- the branch for a file that holds one SID only
  unfoldable pub migrate_cap_sids : Text → CapWorld → Ran CapSids
  migrate_cap_sids t w =
      let (readonly, w1) = make_random_cap_sid_string w in
      let caps : CapSids = record {
        workspace = t;
        readonly = readonly;
        workspace_by_cwd = [];
        writable_root_by_path = [];
      } in
      and_run (persist_caps caps w1) (λ _ w2. (ok caps, w2))

  -- the branch for a file that is there, with its trimmed text
  unfoldable pub load_cap_sids : Text → CapWorld → Ran CapSids
  load_cap_sids t w =
      if starts_with t (codes "{") && ends_with t (codes "}")
      then elim (l.from_str t) [ some obj ↦ (ok obj, w) | none ↦ create_cap_sids w ]
      else if not (is_empty t)
      then migrate_cap_sids t w
      else create_cap_sids w

  unfoldable pub load_or_create_cap_sids : CapWorld → Ran CapSids
  load_or_create_cap_sids w = elim w.file [
    | absent ↦ create_cap_sids w
    | unreadable ↦ (err cannot_read, w)
    | holds txt ↦ load_cap_sids (trim txt) w
  ]

  -- a new SID in one of the maps
  unfoldable pub add_sid : Table → Text → CapSids → CapWorld → Ran Text
  add_sid t key caps w =
      let (sid, w1) = make_random_cap_sid_string w in
      and_run (persist_caps (with_table t (map_insert key sid (table t caps)) caps) w1)
        (λ _ w2. (ok sid, w2))

  -- the SID of a key in one of the maps, the common text of the two functions that give one
  unfoldable pub sid_for_key : Table → Text → CapWorld → Ran Text
  sid_for_key t key w = and_run (load_or_create_cap_sids w) (λ caps w1.
      elim (map_get (table t caps) key) [ some sid ↦ (ok sid, w1) | none ↦ add_sid t key caps w1 ])

  module _ (h : Host) where
    unfoldable pub workspace_cap_sid_for_cwd : FilePath → CapWorld → Ran Text
    workspace_cap_sid_for_cwd cwd w = sid_for_key workspaces (canonical_path_key h cwd) w

    unfoldable pub writable_root_cap_sid_for_path : FilePath → CapWorld → Ran Text
    writable_root_cap_sid_for_path root w = sid_for_key writable_roots (canonical_path_key h root) w

    unfoldable pub workspace_write_cap_sid_for_root : FilePath → FilePath → CapWorld → Ran Text
    workspace_write_cap_sid_for_root cwd root w =
        if text_eq (canonical_path_key h root) (canonical_path_key h cwd)
        then workspace_cap_sid_for_cwd cwd w
        else writable_root_cap_sid_for_path root w

module _ (h : Host) where
  unfoldable pub workspace_write_root_contains_path : FilePath → FilePath → Bool
  workspace_write_root_contains_path root path =
      path_starts_with h (canonicalize_path h path) (canonicalize_path h root)

  unfoldable pub workspace_write_root_overlaps_path : FilePath → FilePath → Bool
  workspace_write_root_overlaps_path root path =
      workspace_write_root_contains_path root path || workspace_write_root_contains_path path root

  unfoldable pub workspace_write_root_specificity : FilePath → ℕ
  workspace_write_root_specificity root = length (h.components (canonicalize_path h root))

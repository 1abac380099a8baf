-- ===== src/Cli/State/Exact.antt =====
-- What `resolve_sandbox_state` of src/bin/yj-sandbox-run/main.rs grants, as a function of the rules
-- in the JSON text.
use yj_sandbox.Base.{
  Bool, true, false, [], none, refl, ◌||◌, not, ◌≡◌, sym, ap, ◌∙◌, subst, ◌⊎◌, inl, inr, List,
  Option, some, arith, Bool-cases,
}
use yj_sandbox.Base.Outcome.{ok, ok_of_bind, some_of_bind, ok-injective}
use yj_sandbox.Base.Text.{Text, codes, text_eq}
use yj_sandbox.Base.Text.Laws.{text_eq_iff}
use yj_sandbox.Base.Host.{Host, FilePath}
use yj_sandbox.Cli.State.{Libraries, Rule, ResolvedCommandState}
use yj_sandbox.Cli.State.Entries.{and_then, resolve_entries, native_path}
use yj_sandbox.Cli.State.Resolve.{
  network_enabled, check_file_system_type, no_grants, external_state, external_profile,
  managed_profile, typed_profile, resolve_sandbox_state,
}
use yj_sandbox.Cli.State.Rules.{resolve_entries-Granted}
use yj_sandbox.Cli.State.Asked.{AllAsk, IsNative}
use yj_sandbox.Cli.State.Ruled.{RulesOf-AllAsk, native_path-IsNative}
use yj_sandbox.Cli.State.Special.{of_if}
use yj_sandbox.Permissions.{read_only}
use yj_sandbox.Cli.State.Amounts.{Amounts, Amounts-Granted}

module _ (h : Host) (l : Libraries) where
  open l use {Value, Object, from_str, get, member, as_str, as_object, as_array}

  -- The entries of a managed profile, and its network member.
  abbrev pub entries_of : Object → Option (List Value)
  entries_of profile =
      and_then (and_then (member profile (codes "file_system")) as_object)
        (λ fs. and_then (member fs (codes "entries")) as_array)

  abbrev pub network_of : Object → Option Text
  network_of profile = and_then (member profile (codes "network")) as_str

  abbrev pub file_system_type : Object → Option Text
  file_system_type profile =
      and_then (and_then (member profile (codes "file_system")) as_object)
        (λ fs. and_then (member fs (codes "type")) as_str)

  -- The network that the profile names is enabled or restricted.
  abbrev pub IsNetwork : Object → Bool → Type 0
  IsNetwork profile true = network_of profile ≡ some (codes "enabled")
  IsNetwork profile false = network_of profile ≡ some (codes "restricted")

  network_enabled-IsNetwork :
      (profile : Object) (network : Option Text) (enabled : Bool)
      → network_of profile ≡ network
      → network_enabled network ≡ ok enabled
      → IsNetwork profile enabled
  unfolding network_enabled
  network_enabled-IsNetwork profile none enabled same e = cc e
  network_enabled-IsNetwork profile (some t) enabled same e =
      elim (of_if (text_eq t (codes "enabled")) _ _ e) [
        | inl (is, e1) ↦
            subst (IsNetwork profile) (ok-injective e1)
              (same ∙ ap some ((text_eq_iff t (codes "enabled")).0 is))
        | inr (_, e1) ↦ elim (of_if (text_eq t (codes "restricted")) _ _ e1) [
          | inl (is, e2) ↦
              subst (IsNetwork profile) (ok-injective e2)
                (same ∙ ap some ((text_eq_iff t (codes "restricted")).0 is))
          | inr (_, e2) ↦ cc e2
        ]
      ]

  check_file_system_type_restricted :
      (kind : Text) {result : Unit {0}}
      → check_file_system_type kind ≡ ok result
      → kind ≡ codes "restricted"
  unfolding check_file_system_type
  check_file_system_type_restricted kind e =
      elim (of_if (text_eq kind (codes "restricted")) _ _ e) [
        | inl (is, _) ↦ (text_eq_iff kind (codes "restricted")).0 is
        | inr (_, e1) ↦ elim (of_if (text_eq kind (codes "unrestricted")) _ _ e1) [
          | inl (_, e2) ↦ cc e2
          | inr (_, e2) ↦ cc e2
        ]
      ]

  -- All may be read, nothing written, and the network is blocked.
  abbrev pub read_only_state : FilePath → ResolvedCommandState
  read_only_state cwd = record {
    cwd = cwd;
    permissions = record {
      readable_roots = [];
      full_disk_read = true;
      include_platform_defaults = true;
      workspace_roots = [];
      extra_writable_roots = [];
      include_temp = false;
      block_network = true;
    };
    deny_read_paths = [];
    deny_write_paths = [];
  }

  -- The state of a managed profile rests on rules for all its entries and on its network member.
  pub record FromManaged (readable : List FilePath) (disable : Bool) (add_dirs : List FilePath)
      (cwd : FilePath) (profile : Object) (st : ResolvedCommandState) : Type 0 where
    pub entries : List Value
    pub enabled : Bool
    pub rules : List Rule
    pub listed : entries_of profile ≡ some entries
    pub restricted : file_system_type profile ≡ some (codes "restricted")
    pub online : IsNetwork profile enabled
    pub ruled : AllAsk l h cwd entries rules
    pub amounts : Amounts h readable add_dirs cwd (disable || not enabled) rules st

  managed_profile-FromManaged :
      (readable : List FilePath) (disable : Bool) (add_dirs : List FilePath) (cwd : FilePath)
      (profile : Object) (st : ResolvedCommandState)
      → managed_profile h l readable disable add_dirs cwd profile ≡ ok st
      → FromManaged readable disable add_dirs cwd profile st
  unfolding managed_profile
  managed_profile-FromManaged readable disable add_dirs cwd profile st e =
      let (fs, is_fs, e1) =
        some_of_bind (and_then (member profile (codes "file_system")) as_object) _ _ e in
      let (kind, has_kind, e2) = some_of_bind (and_then (member fs (codes "type")) as_str) _ _ e1 in
      let (_, known, e3) = ok_of_bind (check_file_system_type kind) _ e2 in
      let (entries, is_entries, e4) =
        some_of_bind (and_then (member fs (codes "entries")) as_array) _ _ e3 in
      let (grants, is_grants, e5) =
        ok_of_bind (resolve_entries l h 0 cwd (no_grants readable) entries) _ e4 in
      let (enabled, is_enabled, e6) = ok_of_bind (network_enabled (network_of profile)) _ e5 in
      let (rules, ruled, granted) =
        resolve_entries-Granted l h cwd 0 (no_grants readable) entries grants is_grants in
      record {
        entries = entries;
        enabled = enabled;
        rules = rules;
        listed =
            ap (λ o. and_then o (λ fs'. and_then (member fs' (codes "entries")) as_array)) is_fs
            ∙ is_entries;
        restricted =
            ap (λ o. and_then o (λ fs'. and_then (member fs' (codes "type")) as_str)) is_fs
            ∙ has_kind
            ∙ ap some (check_file_system_type_restricted kind known);
        online = network_enabled-IsNetwork profile (network_of profile) enabled refl is_enabled;
        ruled = RulesOf-AllAsk l h cwd 0 entries rules ruled;
        amounts =
            subst (Amounts h readable add_dirs cwd (disable || not enabled) rules) (ok-injective e6)
              (Amounts-Granted h cwd add_dirs (disable || not enabled) readable rules grants
                granted);
      }

  external_profile_lem :
      (cwd : FilePath) (profile : Object) (st : ResolvedCommandState)
      → external_profile h l cwd profile ≡ ok st
      → st ≡ read_only_state cwd
  unfolding external_profile external_state read_only
  external_profile_lem cwd profile st e =
      let (_, _, last) = ok_of_bind (network_enabled (network_of profile)) _ e in
      sym (ok-injective last)

  -- The two types of profile that give a state.
  abbrev pub FromProfile :
      List FilePath
      → Bool
      → List FilePath
      → FilePath
      → Object
      → Text
      → ResolvedCommandState
      → Type 0
  FromProfile readable disable add_dirs cwd profile kind st =
      ((kind ≡ codes "external") × (st ≡ read_only_state cwd))
      ⊎ ((kind ≡ codes "managed") × FromManaged readable disable add_dirs cwd profile st)

  typed_profile-FromProfile :
      (readable : List FilePath) (disable : Bool) (add_dirs : List FilePath) (cwd : FilePath)
      (profile : Object) (kind : Text) (st : ResolvedCommandState)
      → typed_profile h l readable disable add_dirs cwd profile kind ≡ ok st
      → FromProfile readable disable add_dirs cwd profile kind st
  unfolding typed_profile
  typed_profile-FromProfile readable disable add_dirs cwd profile kind st e =
      elim (Bool-cases (text_eq kind (codes "disabled"))) [
        | inl off ↦ absurd (ground arith)
        | inr on ↦ elim (Bool-cases (text_eq kind (codes "external"))) [
          | inl external ↦ inl (
            (text_eq_iff kind (codes "external")).0 external,
            external_profile_lem cwd profile st (ground arith),
          )
          | inr internal ↦ elim (Bool-cases (text_eq kind (codes "managed"))) [
            | inl managed ↦ inr (
              (text_eq_iff kind (codes "managed")).0 managed,
              managed_profile-FromManaged readable disable add_dirs cwd profile st (ground arith),
            )
            | inr other ↦ absurd (ground arith)
          ]
        ]
      ]

  -- Where a state comes from in the JSON text.
  pub record FromJson (raw : Text) (readable : List FilePath) (disable : Bool)
      (add_dirs : List FilePath) (st : ResolvedCommandState) : Type 0 where
    pub value : Value
    pub cwd_raw : Text
    pub cwd : FilePath
    pub profile : Object
    pub kind : Text
    pub parsed : from_str raw ≡ some value
    pub has_cwd : and_then (get value (codes "sandboxCwd")) as_str ≡ some cwd_raw
    pub native : IsNative l h cwd cwd_raw cwd
    pub has_profile : and_then (get value (codes "permissionProfile")) as_object ≡ some profile
    pub has_kind : and_then (member profile (codes "type")) as_str ≡ some kind
    pub resolved : FromProfile readable disable add_dirs cwd profile kind st

  -- A resolved state is the read-only one without network, for an external profile, or exactly what
  -- the entries of a managed profile ask for, in the directory that the text names. Each entry asks, by
  -- its access, its type of path and its kind, to read, write or deny a path, to read everything, to
  -- write the workspace or the temporary directories, to read the platform's defaults, or for nothing.
  -- What the state has is the list of the paths asked for in each way, with the readable roots that are
  -- given and, if anything is written, the directories of the options, which are resolved against the
  -- directory and canonical where that can be, and added unless they are there; whether one of the other
  -- wishes is there; and a network that is blocked when the options or the profile say so. A state that
  -- reads everything lists no readable path and includes the platform's defaults.
  pub resolve_sandbox_state-FromJson :
      (raw : Text) (readable : List FilePath) (disable : Bool) (add_dirs : List FilePath)
      (st : ResolvedCommandState)
      → resolve_sandbox_state h l raw readable disable add_dirs ≡ ok st
      → FromJson raw readable disable add_dirs st
  unfolding resolve_sandbox_state
  resolve_sandbox_state-FromJson raw readable disable add_dirs st e =
      let (value, parsed, e1) = some_of_bind (from_str raw) _ _ e in
      let (cwd_raw, has_cwd, e2) =
        some_of_bind (and_then (get value (codes "sandboxCwd")) as_str) _ _ e1 in
      let (cwd, native, e3) = ok_of_bind (native_path l h cwd_raw) _ e2 in
      let (profile, has_profile, e4) =
        some_of_bind (and_then (get value (codes "permissionProfile")) as_object) _ _ e3 in
      let (kind, has_kind, e5) =
        some_of_bind (and_then (member profile (codes "type")) as_str) _ _ e4 in
      record {
        value = value;
        cwd_raw = cwd_raw;
        cwd = cwd;
        profile = profile;
        kind = kind;
        parsed = parsed;
        has_cwd = has_cwd;
        native = native_path-IsNative l h cwd cwd_raw cwd native;
        has_profile = has_profile;
        has_kind = has_kind;
        resolved = typed_profile-FromProfile readable disable add_dirs cwd profile kind st e5;
      }

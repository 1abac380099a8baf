-- ===== src/Cli/State/Ruled.antt =====
-- The rule that `resolve_sandbox_state` of src/bin/yj-sandbox-run/main.rs finds for an entry, beside the
-- words of the entry.
use yj_sandbox.Base.{
  ℕ, ◌+◌, true, ◌||◌, ◌≡◌, refl, sym, ap, subst, inl, inr, List, [], ◌∷◌, Option, none, some, any,
  Member, arith, Bool-cases, Option-cases, if◌then◌else◌,
}
use yj_sandbox.Base.Outcome.{Result, ok, err, ok_or, ok_of_bind, some_of_bind, ok-injective}
use yj_sandbox.Base.Text.{Text, codes, text_eq}
use yj_sandbox.Base.Text.Laws.{text_eq_iff}
use yj_sandbox.Base.Host.{Host, FilePath}
use yj_sandbox.Cli.State.{
  Libraries, StateError, not_native, not_absolute, Access, Rule, read_path, write_path, deny_path,
  read_everything, write_workspace, write_temp, read_platform_defaults, ignored, access_of,
}
use yj_sandbox.Cli.State.Entries.{
  and_then, native_path, special_rule, special_subpath, special_entry, path_entry, typed_entry,
  entry_rule,
}
use yj_sandbox.Cli.State.Rules.{RulesOf, is_write}
use yj_sandbox.Cli.State.Special.{Says, either_iff, of_if, on_path-Asks, special_rule-Asks}
use yj_sandbox.Cli.State.Asked.{HasAccess, IsNative, HasPath, HasSubpath, Asks, AllAsk}

access_of-Says :
    (index : ℕ) (raw : Text) (access : Access) → access_of index raw ≡ ok access → Says access raw
unfolding access_of
access_of-Says index raw access e = elim (of_if (text_eq raw (codes "read")) _ _ e) [
  | inl (is, e1) ↦ subst (λ a. Says a raw) (ok-injective e1) ((text_eq_iff raw (codes "read")).0 is)
  | inr (_, e1) ↦ elim (of_if (text_eq raw (codes "write")) _ _ e1) [
    | inl (is, e2) ↦
        subst (λ a. Says a raw) (ok-injective e2) ((text_eq_iff raw (codes "write")).0 is)
    | inr (_, e2) ↦ elim (of_if (text_eq raw (codes "deny") || text_eq raw (codes "none")) _ _ e2) [
      | inl (is, e3) ↦
          subst (λ a. Says a raw) (ok-injective e3)
            (either_iff raw (codes "deny") (codes "none") is)
      | inr (_, e3) ↦ cc e3
    ]
  ]
]

some_of_ok : {E A : Type 0} (o : Option A) (why : E) {a : A} → ok_or o why ≡ ok a → o ≡ some a
some_of_ok none why e = cc e
some_of_ok (some a) why e = ap some (ok-injective e)

-- The part of `native_path` that reads a URL.
file_url :
    (raw : Text) (scheme : Option Text) (path : Option FilePath) {p : FilePath}
    → (elim scheme as (λ _. Result StateError FilePath) [
      | none ↦ err (not_absolute raw)
      | some s ↦
          if text_eq s (codes "file") then ok_or path (not_native raw) else err (not_native raw)
    ])
      ≡ ok p
    → (scheme ≡ some (codes "file")) × (path ≡ some p)
file_url raw none path e = cc e
file_url raw (some s) path e =
    elim (of_if (text_eq s (codes "file")) (ok_or path (not_native raw)) (err (not_native raw)) e) [
      | inl (is, e1) ↦
          (ap some ((text_eq_iff s (codes "file")).0 is), some_of_ok path (not_native raw) e1)
      | inr (_, e1) ↦ cc e1
    ]

module _ (l : Libraries) (h : Host) (cwd : FilePath) where
  open l use {Value, Object, get, member, as_str, as_object, url_scheme, url_file_path}

  pub native_path-IsNative :
      (raw : Text) (p : FilePath) → native_path l h raw ≡ ok p → IsNative l h cwd raw p
  unfolding native_path
  native_path-IsNative raw p e = elim (of_if (h.is_absolute raw) _ _ e) [
    | inl (absolute, e1) ↦ inl (absolute, sym (ok-injective e1))
    | inr (_, e1) ↦ inr (file_url raw (url_scheme raw) (url_file_path raw) e1)
  ]

  module _ (entry : Value) where
    special_subpath-some :
        (index : ℕ) (v : Value) (subpath : Option Text)
        → special_subpath l h index (some v) ≡ ok subpath
        → (s : Text) × (some s ≡ subpath) × (as_str v ≡ some s)
    unfolding special_subpath
    special_subpath-some index v subpath e =
        let (s, is, e1) = some_of_bind (as_str v) _ _ e in (s, ok-injective e1, is)

    special_subpath-HasSubpath :
        (index : ℕ) (value : Object) (o : Option Value) (subpath : Option Text)
        → member value (codes "subpath") ≡ o
        → special_subpath l h index o ≡ ok subpath
        → HasSubpath l h cwd value subpath
    unfolding special_subpath
    special_subpath-HasSubpath index value none subpath same e =
        subst (HasSubpath l h cwd value) (ok-injective e) same
    special_subpath-HasSubpath index value (some v) subpath same e =
        let (s, is, text) = special_subpath-some index v subpath e in
        subst (HasSubpath l h cwd value) is (v, same, text)

    no_kind :
        (index : ℕ) (access : Access) (subpath : Option Text) (rule : Rule)
        → special_rule l h index cwd none access subpath ≡ ok rule
        → Asks l h cwd entry rule
    unfolding special_rule
    no_kind index access subpath rule e = cc e

    special_entry-Asks :
        (index : ℕ) (access : Access) (path : Object) (rule : Rule) (raw : Text)
        → special_entry l h index cwd access path ≡ ok rule
        → Says access raw
        → HasAccess l h cwd entry raw
        → HasPath l h cwd entry (codes "special") path
        → Asks l h cwd entry rule
    unfolding special_entry
    special_entry-Asks index access path rule raw e says has is_path =
        let (value, is_value, e1) =
          some_of_bind (and_then (member path (codes "value")) as_object) _ _ e in
        let (subpath, is_subpath, e2) =
          ok_of_bind (special_subpath l h index (member value (codes "subpath"))) _ e1 in
        elim (Option-cases (and_then (member value (codes "kind")) as_str)) [
          | inl absent ↦
              no_kind index access subpath rule
                (subst (λ k. special_rule l h index cwd k access subpath ≡ ok rule) absent e2)
          | inr (kind, is_kind) ↦
              special_rule-Asks l h cwd entry index kind access subpath rule raw
                (subst (λ k. special_rule l h index cwd k access subpath ≡ ok rule) is_kind e2) says
                has
                (
                  path,
                  value,
                  is_path,
                  is_value,
                  is_kind,
                  special_subpath-HasSubpath index value (member value (codes "subpath")) subpath
                      refl is_subpath,
                )
        ]

    path_entry-Asks :
        (index : ℕ) (access : Access) (path : Object) (rule : Rule) (raw : Text)
        → path_entry l h index access path ≡ ok rule
        → Says access raw
        → HasAccess l h cwd entry raw
        → HasPath l h cwd entry (codes "path") path
        → Asks l h cwd entry rule
    unfolding path_entry
    path_entry-Asks index access path rule raw e says has is_path =
        let (text, is_text, e1) =
          some_of_bind (and_then (member path (codes "path")) as_str) _ _ e in
        let (native, is_native, e2) = ok_of_bind (native_path l h text) _ e1 in
        subst (Asks l h cwd entry) (ok-injective e2) (
          on_path-Asks l h cwd entry access raw native says has
            (path, text, is_path, is_text, native_path-IsNative text native is_native))

    typed_entry-Asks :
        (index : ℕ) (access : Access) (path : Object) (kind : Text) (rule : Rule) (raw : Text)
        → typed_entry l h index cwd access path kind ≡ ok rule
        → Says access raw
        → HasAccess l h cwd entry raw
        → HasPath l h cwd entry kind path
        → Asks l h cwd entry rule
    unfolding typed_entry
    typed_entry-Asks index access path kind rule raw e says has is_path =
        elim (of_if (text_eq kind (codes "path")) _ _ e) [
          | inl (is, e1) ↦ path_entry-Asks index access path rule raw e1 says has (
              subst (λ k. HasPath l h cwd entry k path) ((text_eq_iff kind (codes "path")).0 is)
                is_path)
          | inr (_, e1) ↦ elim (of_if (text_eq kind (codes "special")) _ _ e1) [
            | inl (is, e2) ↦ special_entry-Asks index access path rule raw e2 says has (
                subst (λ k. HasPath l h cwd entry k path)
                  ((text_eq_iff kind (codes "special")).0 is) is_path)
            | inr (_, e2) ↦ elim (of_if (text_eq kind (codes "glob_pattern")) _ _ e2) [
              | inl (_, e3) ↦ cc e3
              | inr (_, e3) ↦ cc e3
            ]
          ]
        ]

    entry_rule-Asks :
        (index : ℕ) (rule : Rule)
        → entry_rule l h index cwd entry ≡ ok rule
        → Asks l h cwd entry rule
    unfolding entry_rule
    entry_rule-Asks index rule e =
        let (raw, has, e1) = some_of_bind (and_then (get entry (codes "access")) as_str) _ _ e in
        let (access, is_access, e2) = ok_of_bind (access_of index raw) _ e1 in
        let (path, is_path, e3) =
          some_of_bind (and_then (get entry (codes "path")) as_object) _ _ e2 in
        let (kind, is_kind, e4) =
          some_of_bind (and_then (member path (codes "type")) as_str) _ _ e3 in
        typed_entry-Asks index access path kind rule raw e4
          (access_of-Says index raw access is_access) has (is_path, is_kind)

  pub RulesOf-AllAsk :
      (index : ℕ) (entries : List Value) (rules : List Rule)
      → RulesOf l h cwd index entries rules
      → AllAsk l h cwd entries rules
  RulesOf-AllAsk index [] [] of = tt
  RulesOf-AllAsk index (entry ∷ entries) (rule ∷ rules) (first, rest) =
      (entry_rule-Asks entry index rule first, RulesOf-AllAsk (index + 1) entries rules rest)
  RulesOf-AllAsk index [] (rule ∷ rules) of = absurd of
  RulesOf-AllAsk index (entry ∷ entries) [] of = absurd of

  write-HasAccess :
      (entry : Value) (rule : Rule)
      → Asks l h cwd entry rule
      → is_write rule ≡ true
      → HasAccess l h cwd entry (codes "write")
  write-HasAccess entry (write_path p) (has, _) e = has
  write-HasAccess entry write_workspace (has, _) e = has
  write-HasAccess entry write_temp (has, _) e = has
  write-HasAccess entry (read_path p) asks e = cc e
  write-HasAccess entry (deny_path p) asks e = cc e
  write-HasAccess entry read_everything asks e = cc e
  write-HasAccess entry read_platform_defaults asks e = cc e
  write-HasAccess entry ignored asks e = cc e

  -- A rule that grants writes is asked for by an entry that has write access.
  pub writing_entry :
      (entries : List Value) (rules : List Rule)
      → AllAsk l h cwd entries rules
      → any is_write rules ≡ true
      → (entry : Value) × Member entry entries × HasAccess l h cwd entry (codes "write")
  writing_entry [] [] all e = cc e
  writing_entry (entry ∷ entries) (rule ∷ rules) (asks, all) e = elim (Bool-cases (is_write rule)) [
    | inl writes ↦ (entry, inl refl, write-HasAccess entry rule asks writes)
    | inr quiet ↦
        let (other, there, has) = writing_entry entries rules all (ground (arith, e, quiet)) in
        (other, inr there, has)
  ]
  writing_entry [] (rule ∷ rules) all e = absurd all
  writing_entry (entry ∷ entries) [] all e = absurd all

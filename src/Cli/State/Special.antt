-- ===== src/Cli/State/Special.antt =====
-- The rules for a special path in src/bin/yj-sandbox-run/main.rs, beside the words of the entry.
use yj_sandbox.Base.{
  ℕ, Bool, true, false, ◌||◌, ◌≡◌, ◌⊎◌, refl, subst, inl, inr, Option, none, some, arith,
  Bool-cases, if◌then◌else◌,
}
use yj_sandbox.Base.Outcome.{Result, ok, ok-injective}
use yj_sandbox.Base.Text.{Text, codes, text_eq}
use yj_sandbox.Base.Text.Laws.{text_eq_iff}
use yj_sandbox.Base.Host.{Host, FilePath}
use yj_sandbox.Cli.State.{
  Libraries, StateError, not_native, not_absolute, Access, read, write, deny, Rule, read_path,
  write_path, deny_path, read_everything, write_workspace, write_temp, read_platform_defaults,
  ignored, access_of, on_path, is_project, is_temp,
}
use yj_sandbox.Cli.State.Entries.{
  and_then, native_path, special_rule, special_subpath, special_entry, path_entry, typed_entry,
  entry_rule, other_kind,
}
use yj_sandbox.Cli.State.Asked.{
  IsDenied, IsProject, HasAccess, NamesPath, NamesSpecial, NamesAny, Asks,
}

abbrev pub Says : Access → Text → Type 0
Says read access = access ≡ codes "read"
Says write access = access ≡ codes "write"
Says deny access = IsDenied access

pub either_iff : (t a b : Text) → (text_eq t a || text_eq t b) ≡ true → (t ≡ a) ⊎ (t ≡ b)
either_iff t a b e = elim (Bool-cases (text_eq t a)) [
  | inl first ↦ inl ((text_eq_iff t a).0 first)
  | inr apart ↦ inr ((text_eq_iff t b).0 (ground (arith, e, apart)))
]

-- The branch that a result comes from.
pub of_if :
    {E A : Type 0} (b : Bool) (x y : Result E A) {a : A}
    → (if b then x else y) ≡ ok a
    → ((b ≡ true) × (x ≡ ok a)) ⊎ ((b ≡ false) × (y ≡ ok a))
of_if true x y e = inl (refl, e)
of_if false x y e = inr (refl, e)

module _ (l : Libraries) (h : Host) (cwd : FilePath) (entry : l.Value) where
  pub on_path-Asks :
      (access : Access) (raw : Text) (p : FilePath)
      → Says access raw
      → HasAccess l h cwd entry raw
      → NamesPath l h cwd entry p
      → Asks l h cwd entry (on_path access p)
  on_path-Asks read raw p says has names = (subst (HasAccess l h cwd entry) says has, inl names)
  on_path-Asks write raw p says has names = (subst (HasAccess l h cwd entry) says has, inl names)
  on_path-Asks deny raw p says has names = ((raw, says, has), inl names)

  named :
      {kind literal : Text} (subpath : Option Text)
      → text_eq kind literal ≡ true
      → NamesSpecial l h cwd entry kind subpath
      → (s : Option Text) × NamesSpecial l h cwd entry literal s
  named {kind} {literal} subpath e names = (
    subpath,
    subst (λ k. NamesSpecial l h cwd entry k subpath) ((text_eq_iff kind literal).0 e) names,
  )

  in_project :
      (kind : Text) (subpath : Option Text)
      → IsProject kind
      → NamesSpecial l h cwd entry kind subpath
      → NamesAny l h cwd entry (yj_sandbox.Cli.State.Entries.project_path l h cwd subpath)
  in_project kind none is names = inr (inl ((kind, is, names), refl))
  in_project kind (some s) is names = inr (inr (kind, s, is, names, refl))

  of_other :
      (index : ℕ) (kind : Text) (subpath : Option Text) (rule : Rule)
      → other_kind index kind ≡ ok rule
      → NamesSpecial l h cwd entry kind subpath
      → Asks l h cwd entry rule
  of_other index kind subpath rule e names = elim (of_if (text_eq kind (codes "unknown")) _ _ e) [
    | inl (is, e1) ↦ subst (Asks l h cwd entry) (ok-injective e1) (named subpath is names)
    | inr (_, e1) ↦ cc e1
  ]

  read_special :
      (index : ℕ) (kind : Text) (subpath : Option Text) (rule : Rule) (raw : Text)
      → special_rule l h index cwd (some kind) read subpath ≡ ok rule
      → raw ≡ codes "read"
      → HasAccess l h cwd entry raw
      → NamesSpecial l h cwd entry kind subpath
      → Asks l h cwd entry rule
  unfolding special_rule
  read_special index kind subpath rule raw e says has names =
      let reads : HasAccess l h cwd entry (codes "read") =
        subst (HasAccess l h cwd entry) says has in
      elim (of_if (text_eq kind (codes "root")) _ _ e) [
        | inl (is, e1) ↦
            subst (Asks l h cwd entry) (ok-injective e1) (reads, named subpath is names)
        | inr (_, e1) ↦ elim (of_if (is_project kind) _ _ e1) [
          | inl (is, e2) ↦ subst (Asks l h cwd entry) (ok-injective e2) (
            reads,
            in_project kind subpath
                (either_iff kind (codes "project_roots") (codes "current_working_directory") is)
                names,
          )
          | inr (_, e2) ↦ elim (of_if (text_eq kind (codes "minimal")) _ _ e2) [
            | inl (is, e3) ↦
                subst (Asks l h cwd entry) (ok-injective e3) (reads, named subpath is names)
            | inr (_, e3) ↦ of_other index kind subpath rule e3 names
          ]
        ]
      ]

  write_project :
      (kind : Text) (subpath : Option Text)
      → HasAccess l h cwd entry (codes "write")
      → IsProject kind
      → NamesSpecial l h cwd entry kind subpath
      → Asks l h cwd entry
          (elim subpath [ none ↦ write_workspace | some s ↦ write_path (h.join cwd s) ])
  write_project kind none writes is names = (writes, (kind, is, names))
  write_project kind (some s) writes is names = (writes, inr (kind, s, is, names, refl))

  write_special :
      (index : ℕ) (kind : Text) (subpath : Option Text) (rule : Rule) (raw : Text)
      → special_rule l h index cwd (some kind) write subpath ≡ ok rule
      → raw ≡ codes "write"
      → HasAccess l h cwd entry raw
      → NamesSpecial l h cwd entry kind subpath
      → Asks l h cwd entry rule
  unfolding special_rule
  write_special index kind subpath rule raw e says has names =
      let writes : HasAccess l h cwd entry (codes "write") =
        subst (HasAccess l h cwd entry) says has in
      elim (of_if (is_project kind) _ _ e) [
        | inl (is, e1) ↦ subst (Asks l h cwd entry) (ok-injective e1) (
            write_project kind subpath writes
              (either_iff kind (codes "project_roots") (codes "current_working_directory") is)
              names)
        | inr (_, e1) ↦ elim (of_if (is_temp kind) _ _ e1) [
          | inl (is, e2) ↦ subst (Asks l h cwd entry) (ok-injective e2) (
            writes,
            (kind, subpath, either_iff kind (codes "tmpdir") (codes "slash_tmp") is, names),
          )
          | inr (_, e2) ↦ elim (of_if (text_eq kind (codes "root")) _ _ e2) [
            | inl (_, e3) ↦ cc e3
            | inr (_, e3) ↦ of_other index kind subpath rule e3 names
          ]
        ]
      ]

  deny_special :
      (index : ℕ) (kind : Text) (subpath : Option Text) (rule : Rule) (raw : Text)
      → special_rule l h index cwd (some kind) deny subpath ≡ ok rule
      → IsDenied raw
      → HasAccess l h cwd entry raw
      → NamesSpecial l h cwd entry kind subpath
      → Asks l h cwd entry rule
  unfolding special_rule
  deny_special index kind subpath rule raw e says has names = elim (of_if (is_project kind) _ _ e) [
    | inl (is, e1) ↦ subst (Asks l h cwd entry) (ok-injective e1) (
      (raw, says, has),
      in_project kind subpath
          (either_iff kind (codes "project_roots") (codes "current_working_directory") is) names,
    )
    | inr (_, e1) ↦ of_other index kind subpath rule e1 names
  ]

  pub special_rule-Asks :
      (index : ℕ) (kind : Text) (access : Access) (subpath : Option Text) (rule : Rule) (raw : Text)
      → special_rule l h index cwd (some kind) access subpath ≡ ok rule
      → Says access raw
      → HasAccess l h cwd entry raw
      → NamesSpecial l h cwd entry kind subpath
      → Asks l h cwd entry rule
  special_rule-Asks index kind read = read_special index kind
  special_rule-Asks index kind write = write_special index kind
  special_rule-Asks index kind deny = deny_special index kind

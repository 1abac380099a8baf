-- ===== src/Cli/State/Writes.antt =====
-- Write access that src/bin/yj-sandbox-run/main.rs grants, as the permissions of
-- src/resolved_permissions.rs understand it.
use yj_sandbox.Base.{
  Bool, false, ◌≡◌, ◌≢◌, refl, sym, ap, ◌∙◌, subst, inl, inr, List, [], some, Member, any, arith,
  Bool-cases,
}
use yj_sandbox.Base.Outcome.{ok}
use yj_sandbox.Base.Text.{Text, codes}
use yj_sandbox.Base.Host.{Host, FilePath}
use yj_sandbox.Permissions.{
  EnvMap, ResolvedSandboxPermissions, writable_roots_for_cwd, push_workspace_roots,
  push_extra_roots,
}
use yj_sandbox.Cli.State.{Libraries, ResolvedCommandState}
use yj_sandbox.Cli.State.Resolve.{resolve_sandbox_state}
use yj_sandbox.Cli.State.Rules.{is_write}
use yj_sandbox.Cli.State.Entries.{and_then}
use yj_sandbox.Cli.State.Ruled.{writing_entry}
use yj_sandbox.Cli.State.Amounts.{any-is_write}
use yj_sandbox.Cli.State.Exact.{entries_of, FromManaged, resolve_sandbox_state-FromJson}

no_writable_roots :
    (h : Host) (p : ResolvedSandboxPermissions) (cwd : FilePath) (env : EnvMap)
    → p.workspace_roots ≡ []
    → p.extra_writable_roots ≡ []
    → p.include_temp ≡ false
    → writable_roots_for_cwd h p cwd env ≡ []
unfolding writable_roots_for_cwd push_workspace_roots push_extra_roots
no_writable_roots h p cwd env w x t = rw (w, x, t)

module _ (h : Host) (l : Libraries) (readable : List FilePath) (disable : Bool)
    (add_dirs : List FilePath) (st : ResolvedCommandState) where
  managed_writes :
      (cwd : FilePath) (profile : l.Object)
      → (m : FromManaged h l readable disable add_dirs cwd profile st)
      → any is_write m.rules ≡ false
      → (at : FilePath) (env : EnvMap) → writable_roots_for_cwd h st.permissions at env ≡ []
  managed_writes cwd profile m quiet at env =
      let a = m.amounts in
      no_writable_roots h st.permissions at env
        (ground (arith, a.workspace, any-is_write m.rules, quiet)) (ground (arith, a.extra, quiet))
        (ground (arith, a.temp, any-is_write m.rules, quiet))

  -- The text holds a managed profile with an entry whose access is `write`.
  abbrev pub IsWriting : Text → Type 0
  IsWriting raw =
      (value : l.Value) × (profile : l.Object) × (entries : List (l.Value)) × (l.from_str raw
        ≡ some value)
      × (and_then (l.get value (codes "permissionProfile")) l.as_object ≡ some profile)
      × (and_then (l.member profile (codes "type")) l.as_str ≡ some (codes "managed"))
      × (entries_of h l profile ≡ some entries)
      × ((entry : l.Value) × Member entry entries
          × (and_then (l.get entry (codes "access")) l.as_str ≡ some (codes "write")))

  -- If the permissions of a resolved state make anything writable, in some directory and with some
  -- variables, then the text holds a managed profile with an entry whose access is `write`; the
  -- directories of the options alone never give it.
  pub writes_need_rule :
      (raw : Text) (at : FilePath) (env : EnvMap)
      → resolve_sandbox_state h l raw readable disable add_dirs ≡ ok st
      → writable_roots_for_cwd h st.permissions at env ≢ []
      → IsWriting raw
  writes_need_rule raw at env e some_roots =
      let j = resolve_sandbox_state-FromJson h l raw readable disable add_dirs st e in
      elim (j.resolved) [
        | inl (_, external) ↦ absurd (
            some_roots (
              subst
                (λ (s : ResolvedCommandState). writable_roots_for_cwd h s.permissions at env ≡ [])
                (sym external)
                (unfold writable_roots_for_cwd push_workspace_roots push_extra_roots in refl)))
        | inr (managed, m) ↦ elim (Bool-cases (any is_write m.rules)) [
          | inl asked ↦ (
            j.value,
            j.profile,
            m.entries,
            j.parsed,
            j.has_profile,
            j.has_kind ∙ ap some managed,
            m.listed,
            writing_entry l h j.cwd m.entries m.rules m.ruled asked,
          )
          | inr quiet ↦ absurd (some_roots (managed_writes j.cwd j.profile m quiet at env))
        ]
      ]

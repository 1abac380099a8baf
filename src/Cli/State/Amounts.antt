-- ===== src/Cli/State/Amounts.antt =====
-- The permissions that the rules of the JSON state amount to: the end of `resolve_sandbox_state` in
-- src/bin/yj-sandbox-run/main.rs.
use yj_sandbox.Base.{
  Bool, ◌||◌, not, false, true, ◌≡◌, ◌⊎◌, inl, inr, refl, sym, ◌∙◌, subst, Bool-cases, List, [],
  ◌∷◌, ◌++◌, any, is_empty, if◌then◌else◌, arith,
}
use yj_sandbox.Base.Host.{Host, FilePath}
use yj_sandbox.Cli.{resolve_add_dirs}
use yj_sandbox.Cli.State.{Rule, Grants, ResolvedCommandState}
use yj_sandbox.Cli.State.Resolve.{no_grants, extend_roots, grants_permissions}
use yj_sandbox.Cli.State.Dirs.{IsExtended, extend_roots-IsExtended}
use yj_sandbox.Cli.State.Rules.{
  reads, writes, denies, is_read_everything, is_write_workspace, is_write_temp, is_write,
  is_platform_defaults, collect, Granted,
}

-- The permissions that the rules amount to, beside the readable roots and the directories of the
-- options.
abbrev pub writable : Host → List FilePath → FilePath → List Rule → List FilePath
writable h add_dirs cwd rules =
    if any is_write rules
    then extend_roots h (collect writes rules) (resolve_add_dirs h add_dirs cwd)
    else []

-- The state is exactly what the rules of a managed profile ask for.
pub record Amounts (h : Host) (readable add_dirs : List FilePath) (cwd : FilePath) (blocked : Bool)
    (rules : List Rule) (st : ResolvedCommandState) : Type 0 where
  pub same_cwd : st.cwd ≡ cwd
  pub denies_read : st.deny_read_paths ≡ collect denies rules
  pub denies_write : st.deny_write_paths ≡ collect denies rules
  pub workspace :
      st.permissions.workspace_roots ≡ (if any is_write_workspace rules then cwd ∷ [] else [])
  pub extra : st.permissions.extra_writable_roots ≡ writable h add_dirs cwd rules
  pub extended :
      (any is_write rules ≡ false)
      ⊎ IsExtended h cwd add_dirs (collect writes rules) st.permissions.extra_writable_roots
  pub temp : st.permissions.include_temp ≡ any is_write_temp rules
  pub network : st.permissions.block_network ≡ blocked
  pub everything : st.permissions.full_disk_read ≡ any is_read_everything rules
  pub readable_roots :
      st.permissions.readable_roots
      ≡ (if any is_read_everything rules then [] else readable ++ collect reads rules)
  pub defaults :
      st.permissions.include_platform_defaults
      ≡ (any is_read_everything rules || any is_platform_defaults rules)

-- A rule that grants writes is one of the three kinds.
pub any-is_write :
    (rules : List Rule)
    → (any is_write_workspace rules
        || not (is_empty (collect writes rules))
        || any is_write_temp rules)
      ≡ any is_write rules
any-is_write [] = refl
any-is_write (Rule.read_path p ∷ rs) = any-is_write rs
any-is_write (Rule.write_path p ∷ rs) = ground arith
any-is_write (Rule.deny_path p ∷ rs) = any-is_write rs
any-is_write (Rule.read_everything ∷ rs) = any-is_write rs
any-is_write (Rule.write_workspace ∷ rs) = refl
any-is_write (Rule.write_temp ∷ rs) = ground arith
any-is_write (Rule.read_platform_defaults ∷ rs) = any-is_write rs
any-is_write (Rule.ignored ∷ rs) = any-is_write rs

module _ (h : Host) (cwd : FilePath) (add_dirs : List FilePath) (blocked : Bool) where
  -- The shortcut for a profile that reads everything and writes nothing changes no permission.
  grants_permissions_lem :
      (g : Grants)
      → let w = g.workspace_write || not (is_empty g.extra_writable_roots) || g.include_temp in
        let p = grants_permissions h cwd add_dirs blocked g in
        (p.workspace_roots ≡ (if g.workspace_write then cwd ∷ [] else []))
        × (p.extra_writable_roots ≡ (
            if w
            then extend_roots h g.extra_writable_roots (resolve_add_dirs h add_dirs cwd)
            else g.extra_writable_roots))
        × (p.include_temp ≡ g.include_temp)
        × (p.block_network ≡ blocked)
        × (p.full_disk_read ≡ g.full_disk_read)
        × (p.readable_roots ≡ (if g.full_disk_read then [] else g.readable_roots))
        × (p.include_platform_defaults ≡ (g.full_disk_read || g.include_platform_defaults))
  unfolding grants_permissions
  grants_permissions_lem g = (
    ground arith,
    ground arith,
    ground arith,
    ground arith,
    ground arith,
    ground arith,
    ground arith,
  )

  writable_lem :
      (rules : List Rule)
      → any is_write rules ≡ true
      → writable h add_dirs cwd rules
        ≡ extend_roots h (collect writes rules) (resolve_add_dirs h add_dirs cwd)
  writable_lem rules some_write = rw some_write refl

  pub Amounts-Granted :
      (readable : List FilePath) (rules : List Rule) (g : Grants)
      → Granted (no_grants readable) rules g
      → Amounts h readable add_dirs cwd blocked rules (record {
        cwd = cwd;
        permissions = grants_permissions h cwd add_dirs blocked g;
        deny_read_paths = g.deny_read_paths;
        deny_write_paths = g.deny_write_paths;
      })
  Amounts-Granted readable rules g d =
      let (workspace, extra, temp, network, everything, roots, defaults) =
        grants_permissions_lem g in
      let extra_is : (grants_permissions h cwd add_dirs blocked g).extra_writable_roots
          ≡ writable h add_dirs cwd rules =
        ground (arith, extra, d.workspace, d.writes_paths, d.temp, any-is_write rules) in
      record {
        same_cwd = refl;
        denies_read = d.denies_read;
        denies_write = d.denies_write;
        workspace = ground (arith, d.workspace);
        extra = extra_is;
        extended = elim (Bool-cases (any is_write rules)) [
          | inr quiet ↦ inl quiet
          | inl some_write ↦ inr (
              subst (IsExtended h cwd add_dirs (collect writes rules))
                (sym (extra_is ∙ writable_lem rules some_write))
                (extend_roots-IsExtended h cwd add_dirs (collect writes rules)))
        ];
        temp = ground (arith, d.temp);
        network = network;
        everything = ground (arith, d.everything);
        readable_roots = ground (arith, d.everything, d.reads_paths);
        defaults = ground (arith, d.everything, d.defaults);
      }

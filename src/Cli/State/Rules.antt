-- ===== src/Cli/State/Rules.antt =====
-- The loop over the entries as the list of what they ask for, in their order.
use mathlib.Core.List.{append_assoc, append-nil}
use yj_sandbox.Base.{
  ℕ, ◌+◌, Bool, true, false, ◌||◌, ◌≡◌, refl, sym, subst, ap, ◌∙◌, List, [], ◌∷◌, ◌++◌, any, arith,
}
use yj_sandbox.Base.Outcome.{ok, ok_of_bind}
use yj_sandbox.Base.Host.{Host, FilePath}
use yj_sandbox.Cli.State.{
  Libraries, Rule, read_path, write_path, deny_path, read_everything, write_workspace, write_temp,
  read_platform_defaults, Grants, apply_rule,
}
use yj_sandbox.Cli.State.Entries.{entry_rule, resolve_entries}

-- The paths and the flags that a rule asks for.
abbrev pub reads : Rule → List FilePath
reads (read_path p) = p ∷ []
reads _ = []

abbrev pub writes : Rule → List FilePath
writes (write_path p) = p ∷ []
writes _ = []

abbrev pub denies : Rule → List FilePath
denies (deny_path p) = p ∷ []
denies _ = []

abbrev pub is_read_everything : Rule → Bool
is_read_everything read_everything = true
is_read_everything _ = false

abbrev pub is_write_workspace : Rule → Bool
is_write_workspace write_workspace = true
is_write_workspace _ = false

abbrev pub is_write_temp : Rule → Bool
is_write_temp write_temp = true
is_write_temp _ = false

abbrev pub is_platform_defaults : Rule → Bool
is_platform_defaults read_platform_defaults = true
is_platform_defaults _ = false

abbrev pub is_write : Rule → Bool
is_write (write_path p) = true
is_write write_workspace = true
is_write write_temp = true
is_write _ = false

abbrev pub collect : (Rule → List FilePath) → List Rule → List FilePath
collect f [] = []
collect f (r ∷ rs) = f r ++ collect f rs

apply_rules : Grants → List Rule → Grants
apply_rules g [] = g
apply_rules g (r ∷ rs) = apply_rules (apply_rule r g) rs

-- A field of the grants that collects paths, and one that is set by a rule and never reset.
module _ (field : Grants → List FilePath) (f : Rule → List FilePath)
    (step : (r : Rule) (g : Grants) → field (apply_rule r g) ≡ field g ++ f r) where
  collected : (rs : List Rule) (g : Grants) → field (apply_rules g rs) ≡ field g ++ collect f rs
  unfolding apply_rules
  collected [] g = sym (append-nil (field g))
  collected (r ∷ rs) g =
      collected rs (apply_rule r g)
      ∙ ap (λ l. l ++ collect f rs) (step r g)
      ∙ append_assoc (field g) (f r) (collect f rs)

module _ (flag : Grants → Bool) (p : Rule → Bool)
    (step : (r : Rule) (g : Grants) → flag (apply_rule r g) ≡ (flag g || p r)) where
  flagged : (rs : List Rule) (g : Grants) → flag (apply_rules g rs) ≡ (flag g || any p rs)
  unfolding apply_rules
  flagged [] g = ground arith
  flagged (r ∷ rs) g = ground (arith, flagged rs (apply_rule r g), step r g)

step_denies_read :
    (r : Rule) (g : Grants) → (apply_rule r g).deny_read_paths ≡ g.deny_read_paths ++ denies r
unfolding apply_rule
step_denies_read (deny_path p) g = refl
step_denies_read _ g = sym (append-nil g.deny_read_paths)

step_denies_write :
    (r : Rule) (g : Grants) → (apply_rule r g).deny_write_paths ≡ g.deny_write_paths ++ denies r
unfolding apply_rule
step_denies_write (deny_path p) g = refl
step_denies_write _ g = sym (append-nil g.deny_write_paths)

step_reads : (r : Rule) (g : Grants) → (apply_rule r g).readable_roots ≡ g.readable_roots ++ reads r
unfolding apply_rule
step_reads (read_path p) g = refl
step_reads _ g = sym (append-nil g.readable_roots)

step_writes :
    (r : Rule) (g : Grants)
    → (apply_rule r g).extra_writable_roots ≡ g.extra_writable_roots ++ writes r
unfolding apply_rule
step_writes (write_path p) g = refl
step_writes _ g = sym (append-nil g.extra_writable_roots)

step_workspace :
    (r : Rule) (g : Grants)
    → (apply_rule r g).workspace_write ≡ (g.workspace_write || is_write_workspace r)
unfolding apply_rule
step_workspace write_workspace g = ground arith
step_workspace _ g = ground arith

step_temp :
    (r : Rule) (g : Grants) → (apply_rule r g).include_temp ≡ (g.include_temp || is_write_temp r)
unfolding apply_rule
step_temp write_temp g = ground arith
step_temp _ g = ground arith

step_everything :
    (r : Rule) (g : Grants)
    → (apply_rule r g).full_disk_read ≡ (g.full_disk_read || is_read_everything r)
unfolding apply_rule
step_everything read_everything g = ground arith
step_everything _ g = ground arith

step_defaults :
    (r : Rule) (g : Grants)
    → (apply_rule r g).include_platform_defaults
      ≡ (g.include_platform_defaults || is_platform_defaults r)
unfolding apply_rule
step_defaults read_platform_defaults g = ground arith
step_defaults _ g = ground arith

-- What the loop's variables are behind the rules, if it starts with nothing granted but some
-- readable roots.
pub record Granted (start : Grants) (rules : List Rule) (g : Grants) : Type 0 where
  pub denies_read : g.deny_read_paths ≡ start.deny_read_paths ++ collect denies rules
  pub denies_write : g.deny_write_paths ≡ start.deny_write_paths ++ collect denies rules
  pub reads_paths : g.readable_roots ≡ start.readable_roots ++ collect reads rules
  pub writes_paths : g.extra_writable_roots ≡ start.extra_writable_roots ++ collect writes rules
  pub workspace : g.workspace_write ≡ (start.workspace_write || any is_write_workspace rules)
  pub temp : g.include_temp ≡ (start.include_temp || any is_write_temp rules)
  pub everything : g.full_disk_read ≡ (start.full_disk_read || any is_read_everything rules)
  pub defaults :
      g.include_platform_defaults
      ≡ (start.include_platform_defaults || any is_platform_defaults rules)

apply_rules-Granted :
    (start : Grants) (rules : List Rule) → Granted start rules (apply_rules start rules)
apply_rules-Granted start rules = record {
  denies_read = collected (λ g. g.deny_read_paths) denies step_denies_read rules start;
  denies_write = collected (λ g. g.deny_write_paths) denies step_denies_write rules start;
  reads_paths = collected (λ g. g.readable_roots) reads step_reads rules start;
  writes_paths = collected (λ g. g.extra_writable_roots) writes step_writes rules start;
  workspace = flagged (λ g. g.workspace_write) is_write_workspace step_workspace rules start;
  temp = flagged (λ g. g.include_temp) is_write_temp step_temp rules start;
  everything = flagged (λ g. g.full_disk_read) is_read_everything step_everything rules start;
  defaults =
      flagged (λ g. g.include_platform_defaults) is_platform_defaults step_defaults rules start;
}

module _ (l : Libraries) (h : Host) (cwd : FilePath) where
  -- These are the rules of the entries, the first of which has the given index.
  abbrev pub RulesOf : ℕ → List (l.Value) → List Rule → Type 0
  RulesOf index [] [] = Unit
  RulesOf index (entry ∷ entries) (rule ∷ rules) =
      (entry_rule l h index cwd entry ≡ ok rule) × RulesOf (index + 1) entries rules
  RulesOf _ _ _ = ⊥

  unrolled :
      (index : ℕ) (start : Grants) (entries : List (l.Value)) (g : Grants)
      → resolve_entries l h index cwd start entries ≡ ok g
      → (rules : List Rule) × RulesOf index entries rules × (g ≡ apply_rules start rules)
  unfolding resolve_entries apply_rules
  unrolled index start [] g e = ([], tt, ground arith)
  unrolled index start (entry ∷ entries) g e =
      let (rule, is_rule, rest) = ok_of_bind (entry_rule l h index cwd entry) _ e in
      let (rules, of, same) = unrolled (index + 1) (apply_rule rule start) entries g rest in
      (rule ∷ rules, (is_rule, of), same)

  pub resolve_entries-Granted :
      (index : ℕ) (start : Grants) (entries : List (l.Value)) (g : Grants)
      → resolve_entries l h index cwd start entries ≡ ok g
      → (rules : List Rule) × RulesOf index entries rules × Granted start rules g
  resolve_entries-Granted index start entries g e =
      let (rules, of, same) = unrolled index start entries g e in
      (rules, of, subst (Granted start rules) (sym same) (apply_rules-Granted start rules))

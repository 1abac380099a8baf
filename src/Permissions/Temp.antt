-- ===== src/Permissions/Temp.antt =====
-- The temporary directories that are writable roots in src/resolved_permissions.rs.
use yj_sandbox.Base.{
  true, false, ◌≡◌, refl, sym, ap, subst, ◌⊎◌, inl, inr, [], ◌∷◌, arith, Bool-cases, Option-cases,
  some, none, Member, Member-append,
}
use yj_sandbox.Base.Text.{Text, codes, eq_ignore_ascii_case}
use yj_sandbox.Base.Host.{Host, FilePath}
use yj_sandbox.Paths.{or_other}
use yj_sandbox.Permissions.{EnvMap, find_ignoring_case, temp_root, windows_temp_env_roots}

module _ (h : Host) where
  -- The value of a variable for the command: its own under that name in any case, or that of the process
  -- if it has none.
  abbrev pub HasVariable : EnvMap → Text → FilePath → Type 0
  HasVariable env key value =
      ((name : Text) × Member (name, value) env × (eq_ignore_ascii_case name key ≡ true))
      ⊎ (((name other : Text) → Member (name, other) env → eq_ignore_ascii_case name key ≡ false)
          × (h.env_var key ≡ some value))

  abbrev pub IsTempRoot : EnvMap → FilePath → Type 0
  IsTempRoot env root =
      (key : Text) × ((key ≡ codes "TEMP") ⊎ (key ≡ codes "TMP"))
      × HasVariable env key root
      × (h.is_absolute root ≡ true)

  found_variable :
      (key : Text) (env : EnvMap) (value : FilePath)
      → find_ignoring_case key env ≡ some value
      → (name : Text) × Member (name, value) env × (eq_ignore_ascii_case name key ≡ true)
  unfolding find_ignoring_case
  found_variable key [] value e = cc e
  found_variable key ((name, v) ∷ env) value e = elim (Bool-cases (eq_ignore_ascii_case name key)) [
    | inl same ↦
        let is : value ≡ v = ground (arith, e, same) in (name, inl (ap (λ x. (name, x)) is), same)
    | inr other ↦
        let (n, there, same) = found_variable key env value (ground (arith, e, other)) in
        (n, inr there, same)
  ]

  no_variable :
      (key : Text) (env : EnvMap)
      → find_ignoring_case key env ≡ none
      → (name other : Text) → Member (name, other) env
      → eq_ignore_ascii_case name key ≡ false
  unfolding find_ignoring_case
  no_variable key [] e name other m = absurd m
  no_variable key ((n, v) ∷ env) e name other m = elim (Bool-cases (eq_ignore_ascii_case n key)) [
    | inl same ↦ ground (arith, e, same)
    | inr apart ↦ elim m [
      | inl own ↦
          let same : name ≡ n = ap (λ (x : Text × Text). x.0) own in
          subst (λ x. eq_ignore_ascii_case x key ≡ false) (sym same) apart
      | inr there ↦ no_variable key env (ground (arith, e, apart)) name other there
    ]
  ]

  or_other-HasVariable :
      (env : EnvMap) (key : Text) (root : FilePath)
      → or_other (find_ignoring_case key env) (h.env_var key) ≡ some root
      → HasVariable env key root
  or_other-HasVariable env key root e = elim (Option-cases (find_ignoring_case key env)) [
    | inl missing ↦ inr (no_variable key env missing, ground (arith, e, missing))
    | inr (value, found) ↦ inl (found_variable key env root (ground (arith, e, found)))
  ]

  temp_root-HasVariable :
      (env : EnvMap) (key : Text) (root : FilePath)
      → Member root (temp_root h env key)
      → HasVariable env key root × (h.is_absolute root ≡ true)
  unfolding temp_root
  temp_root-HasVariable env key root =
      elim (Option-cases (or_other (find_ignoring_case key env) (h.env_var key))) [
        | inl unset ↦ λ m. ground (arith, unset, m)
        | inr (path, set) ↦ elim (Bool-cases (h.is_absolute path)) [
          | inr relative ↦ λ m. ground (arith, set, relative, m)
          | inl absolute ↦ λ m.
              let own : root ≡ path = ground (arith, set, absolute, m) in
              (
                or_other-HasVariable env key root (ground (arith, set, own)),
                subst (λ x. h.is_absolute x ≡ true) (sym own) absolute,
              )
        ]
      ]

  pub windows_temp_env_roots-IsTempRoot :
      (env : EnvMap) (root : FilePath)
      → Member root (windows_temp_env_roots h env)
      → IsTempRoot env root
  unfolding windows_temp_env_roots
  windows_temp_env_roots-IsTempRoot env root m =
      elim ((Member-append root (temp_root h env (codes "TEMP")) (temp_root h env (codes "TMP"))).0
        m) [
          | inl temp ↦
              let (has, absolute) = temp_root-HasVariable env (codes "TEMP") root temp in
              (codes "TEMP", inl refl, has, absolute)
          | inr tmp ↦
              let (has, absolute) = temp_root-HasVariable env (codes "TMP") root tmp in
              (codes "TMP", inr refl, has, absolute)
        ]

-- ===== src/Env/Stubs.antt =====
-- PATH and PATHEXT for the stubs: `prepend_path` and `reorder_pathext_for_stubs` of src/env.rs.
use yj_sandbox.Base.{
  true, false, ◌≡◌, refl, sym, subst, [], ◌∷◌, ◌++◌, is_empty, All, if◌then◌else◌, ◌==◌, Bool-cases,
  inl, inr,
}
use yj_sandbox.Base.Text.{Text, codes, eq_ignore_ascii_case, to_ascii_lowercase, split}
use yj_sandbox.Base.Text.Laws.{text_eq_refl}
use yj_sandbox.Base.Maps.{map_get, map_insert, map_get-insert}
use yj_sandbox.Base.Host.{Host}
use yj_sandbox.Paths.{or_else, or_other}
use yj_sandbox.Env.{EnvMap, first_is, prepend_path}

-- No character is the separator of PATH.
abbrev pub HasNoSemicolon : Text → Type 0
HasNoSemicolon s = All (λ c. (c == b';') ≡ false) s

split-none : (s : Text) → HasNoSemicolon s → split b';' s ≡ s ∷ []
unfolding split
split-none [] h = refl
split-none (c ∷ s) (plain, h) = rw (split-none s h, plain) refl

split-first :
    (s rest : Text) → HasNoSemicolon s → split b';' (s ++ codes ";" ++ rest) ≡ s ∷ split b';' rest
unfolding split
split-first [] rest h = refl
split-first (c ∷ s) rest (plain, h) = rw (split-first s rest h, plain) refl

eq_ignore_ascii_case_refl : (s : Text) → eq_ignore_ascii_case s s ≡ true
unfolding eq_ignore_ascii_case
eq_ignore_ascii_case_refl s = text_eq_refl (to_ascii_lowercase s)

module _ (h : Host) (prefix : Text) where
  -- The PATH that a child gets: its own, else that of the process.
  abbrev pub path_of : EnvMap → Text
  path_of env = or_else (or_other (map_get env (codes "PATH")) (h.env_var (codes "PATH"))) []

  abbrev pub LooksFirst : EnvMap → Type 0
  LooksFirst env = first_is (λ p. eq_ignore_ascii_case p prefix) (split b';' (path_of env)) ≡ true

  prepend_path-old : (env : EnvMap) → LooksFirst env → prepend_path h prefix env ≡ env
  unfolding prepend_path
  prepend_path-old env first = rw first refl

  new_path : Text → Text
  new_path existing = if is_empty existing then prefix else prefix ++ codes ";" ++ existing

  prepend_path-new :
      (env : EnvMap)
      → first_is (λ p. eq_ignore_ascii_case p prefix) (split b';' (path_of env)) ≡ false
      → prepend_path h prefix env ≡ map_insert (codes "PATH") (new_path (path_of env)) env
  unfolding prepend_path new_path
  prepend_path-new env later = rw later refl

  new_path-first :
      (existing : Text)
      → HasNoSemicolon prefix
      → first_is (λ p. eq_ignore_ascii_case p prefix) (split b';' (new_path existing)) ≡ true
  unfolding new_path
  new_path-first [] plain = rw (split-none prefix plain) (eq_ignore_ascii_case_refl prefix)
  new_path-first (c ∷ existing) plain =
      rw (split-first prefix (c ∷ existing) plain) (eq_ignore_ascii_case_refl prefix)

  prepend_path-first :
      (env : EnvMap) → HasNoSemicolon prefix → LooksFirst (prepend_path h prefix env)
  prepend_path-first env plain =
      elim (Bool-cases (first_is (λ p. eq_ignore_ascii_case p prefix) (split b';' (path_of env)))) [
        | inl already ↦ subst LooksFirst (sym (prepend_path-old env already)) already
        | inr later ↦ subst LooksFirst (sym (prepend_path-new env later)) (
            rw (map_get-insert env (codes "PATH") (new_path (path_of env)))
              (new_path-first (path_of env) plain))
      ]

  -- With a directory whose name has no semicolon put before it, PATH begins with the directory, in
  -- some spelling, and doing so again changes nothing.
  prepend_path-LooksFirst :
      (env : EnvMap)
      → HasNoSemicolon prefix
      → LooksFirst (prepend_path h prefix env)
        × (prepend_path h prefix (prepend_path h prefix env) ≡ prepend_path h prefix env)
  prepend_path-LooksFirst env plain =
      let first = prepend_path-first env plain in
      (first, prepend_path-old (prepend_path h prefix env) first)

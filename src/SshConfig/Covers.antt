-- ===== src/SshConfig/Covers.antt =====
-- What the visit of src/ssh_config_dependencies.rs leaves out of the first file: nothing; and how
-- often it reads a file: at most once.
use yj_sandbox.Base.{
  ℕ, suc, true, false, ◌≡◌, refl, sym, subst, ◌⊎◌, inl, inr, List, [], ◌∷◌, none, some, Member,
  Member-append_left, Member-append_right, arith, Bool-cases,
}
use yj_sandbox.Base.Distinct.{Distinct, Distinct-append}
use yj_sandbox.Base.Text.{Text, codes, text_eq, contains_text, to_ascii_lowercase, lines}
use yj_sandbox.Base.Text.Laws.{text_eq_iff}
use yj_sandbox.Base.Host.{Host, FilePath, path_eq}
use yj_sandbox.Paths.{canonicalize_path}
use yj_sandbox.SshConfig.{
  Files, ssh_profile_path_directives, profile_path_arg, include_paths, directives, Visiting,
  add_path, add_found, add_visited, visit_includes, add_arguments, include_arguments,
  visit_directive, visit_directives, visit_file, visit_config, ssh_config_dependency_paths,
}
use yj_sandbox.SshConfig.Steps.{
  add_arguments-R, visit_includes-R, include_arguments-R, visit_directives-R, visit_config-R,
}
use yj_sandbox.SshConfig.Visits.{HasDirective, IsInclude, IsPathKeyword, ssh_dir_of, config_of}

-- No path is taken away.
abbrev Grows : Visiting → Visiting → Type 0
Grows s t = (q : FilePath) → Member q s.paths → Member q t.paths

Grows-add_path : (p : FilePath) (s : Visiting) → Grows s (add_path p s)
Grows-add_path p s q m = Member-append_left q s.paths (p ∷ []) m

Grows-trans : (s t u : Visiting) → Grows s t → Grows t u → Grows s u
Grows-trans s t u a b q m = b q (a q m)

not_listed : ¬ (contains_text ssh_profile_path_directives (codes "include") ≡ true)
unfolding contains_text
not_listed e = ground arith

module _ (h : Host) (f : Files) (user_profile ssh_dir : FilePath) where
  -- What an argument of a directive names, or includes.
  abbrev pub Names : Text → Text → FilePath → Type 0
  Names keyword arg p =
      (IsPathKeyword h f user_profile ssh_dir keyword
        × (profile_path_arg h arg user_profile none ≡ some p))
      ⊎ (IsInclude h f user_profile ssh_dir keyword
          × Member p (include_paths h f arg user_profile ssh_dir))

  add_path-Member : (p : FilePath) (s : Visiting) → Member p (add_path p s).paths
  add_path-Member p s = Member-append_right p s.paths (p ∷ []) (inl refl)

  add_arguments_cover :
      (args : List Text) (s : Visiting) (arg : Text) (p : FilePath)
      → Member arg args
      → profile_path_arg h arg user_profile none ≡ some p
      → Member p (add_arguments h f user_profile ssh_dir args s).paths
  unfolding add_arguments
  add_arguments_cover [] s arg p m e = absurd m
  add_arguments_cover (a ∷ args) s arg p (inl same) e =
      let o = profile_path_arg h a user_profile none in
      add_arguments-R Grows (λ _ q m. m) Grows-trans Grows-add_path h f user_profile ssh_dir args
        (add_found o s) p
        (subst (λ found. Member p (add_found found s).paths)
          (sym (subst (λ x. profile_path_arg h x user_profile none ≡ some p) same e))
          (add_path-Member p s))
  add_arguments_cover (a ∷ args) s arg p (inr m) e =
      add_arguments_cover args (add_found (profile_path_arg h a user_profile none) s) arg p m e

  -- `include` is no path directive.
  not_include :
      (keyword : Text)
      → IsPathKeyword h f user_profile ssh_dir keyword
      → text_eq (to_ascii_lowercase keyword) (codes "include") ≡ false
  not_include keyword k =
      elim (Bool-cases (text_eq (to_ascii_lowercase keyword) (codes "include"))) [
        | inr other ↦ other
        | inl i ↦ absurd (
            not_listed (
              subst (λ t. contains_text ssh_profile_path_directives t ≡ true)
                ((text_eq_iff (to_ascii_lowercase keyword) (codes "include")).0 i) k))
      ]

  module _ (recur : FilePath → Visiting → Visiting)
      (deeper : (p : FilePath) (s : Visiting) → Grows s (recur p s)) where
    visit_includes_cover :
        (ps : List FilePath) (s : Visiting) (p : FilePath)
        → Member p ps
        → Member p (visit_includes recur ps s).paths
    unfolding visit_includes
    visit_includes_cover [] s p m = absurd m
    visit_includes_cover (q ∷ ps) s p (inl same) =
        visit_includes-R Grows (λ _ q m. m) Grows-trans Grows-add_path h f user_profile ssh_dir
          recur deeper ps (recur q (add_path q s)) p
          (deeper q (add_path q s) p
            (subst (λ x. Member x (add_path q s).paths) (sym same) (add_path-Member q s)))
    visit_includes_cover (q ∷ ps) s p (inr m) = visit_includes_cover ps (recur q (add_path q s)) p m

    include_arguments_cover :
        (args : List Text) (s : Visiting) (arg : Text) (p : FilePath)
        → Member arg args
        → Member p (include_paths h f arg user_profile ssh_dir)
        → Member p (include_arguments h f user_profile ssh_dir recur args s).paths
    unfolding include_arguments
    include_arguments_cover [] s arg p m n = absurd m
    include_arguments_cover (a ∷ args) s arg p (inl same) n =
        let t = visit_includes recur (include_paths h f a user_profile ssh_dir) s in
        include_arguments-R Grows (λ _ q m. m) Grows-trans Grows-add_path h f user_profile ssh_dir
          recur deeper args t p
          (visit_includes_cover (include_paths h f a user_profile ssh_dir) s p
            (subst (λ x. Member p (include_paths h f x user_profile ssh_dir)) same n))
    include_arguments_cover (a ∷ args) s arg p (inr m) n =
        include_arguments_cover args
          (visit_includes recur (include_paths h f a user_profile ssh_dir) s) arg p m n

    visit_directive_cover :
        (keyword : Text) (args : List Text) (s : Visiting) (arg : Text) (p : FilePath)
        → Member arg args
        → Names keyword arg p
        → Member p (visit_directive h f user_profile ssh_dir recur (keyword, args) s).paths
    unfolding visit_directive
    visit_directive_cover keyword args s arg p m (inr (i, n)) =
        rw i (include_arguments_cover args s arg p m n)
    visit_directive_cover keyword args s arg p m (inl (k, e)) =
        rw (not_include keyword k, k) (add_arguments_cover args s arg p m e)

    visit_directives_cover :
        (ds : List (Text × List Text)) (s : Visiting) (keyword : Text) (args : List Text)
        (arg : Text) (p : FilePath)
        → Member (keyword, args) ds
        → Member arg args
        → Names keyword arg p
        → Member p (visit_directives h f user_profile ssh_dir recur ds s).paths
    unfolding visit_directives
    visit_directives_cover [] s keyword args arg p d m n = absurd d
    visit_directives_cover (x ∷ ds) s keyword args arg p (inl same) m n =
        let first =
          subst (λ y. Member p (visit_directive h f user_profile ssh_dir recur y s).paths) same
            (visit_directive_cover keyword args s arg p m n) in
        visit_directives-R Grows (λ _ q m. m) Grows-trans Grows-add_path h f user_profile ssh_dir
          recur deeper ds (visit_directive h f user_profile ssh_dir recur x s) p first
    visit_directives_cover (x ∷ ds) s keyword args arg p (inr d) m n =
        visit_directives_cover ds (visit_directive h f user_profile ssh_dir recur x s) keyword args
          arg p d m n

  first_visit_cover :
      (left : ℕ) (config : FilePath) (s : Visiting) (keyword : Text) (args : List Text) (arg : Text)
      (p : FilePath)
      → s.visited ≡ []
      → HasDirective h f user_profile ssh_dir config keyword args
      → Member arg args
      → Names keyword arg p
      → Member p (visit_config h f user_profile ssh_dir (suc left) config s).paths
  unfolding visit_config visit_file
  first_visit_cover left config s keyword args arg p fresh d m n =
      rw (fresh, d.is_read)
        (visit_directives_cover (visit_config h f user_profile ssh_dir left)
          (visit_config-R Grows (λ _ q m. m) Grows-trans Grows-add_path h f user_profile ssh_dir
            (λ path t new q m. m) left)
          (directives (lines d.contents)) (add_visited (canonicalize_path h config) s) keyword args
          arg p d.stands m n)

  -- If the keys of the files visited before are different paths, so are those after a visit: no
  -- file is read twice, at any depth.
  visit_config-Distinct :
      (left : ℕ) (path : FilePath) (s : Visiting)
      → Distinct (path_eq h) s.visited
      → Distinct (path_eq h) (visit_config h f user_profile ssh_dir left path s).visited
  visit_config-Distinct =
      visit_config-R (λ s t. Distinct (path_eq h) s.visited → Distinct (path_eq h) t.visited)
        (λ s d. d) (λ s t u a b d. b (a d)) (λ p s d. d) h f user_profile ssh_dir
        (λ path s new d. Distinct-append (path_eq h) s.visited (canonicalize_path h path) new d)

module _ (h : Host) (f : Files) (user_profile : FilePath) where
  -- Every path that an argument of a path directive in the configuration itself names, and every
  -- file that one of its include directives matches, is among the paths given.
  pub dependency_paths_cover :
      (keyword : Text) (args : List Text) (arg : Text) (p : FilePath)
      → HasDirective h f user_profile
          (ssh_dir_of h f user_profile)
          (config_of h f user_profile)
          keyword
          args
      → Member arg args
      → Names h f user_profile (ssh_dir_of h f user_profile) keyword arg p
      → Member p (ssh_config_dependency_paths h f user_profile)
  unfolding ssh_config_dependency_paths
  dependency_paths_cover keyword args arg p d m n =
      let first : Visiting = record { visited = []; paths = config_of h f user_profile ∷ [] } in
      first_visit_cover h f user_profile (ssh_dir_of h f user_profile) 31
        (config_of h f user_profile) first keyword args arg p refl d m n

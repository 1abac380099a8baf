-- ===== src/SshConfig/Visits.antt =====
-- Which paths the visit of src/ssh_config_dependencies.rs collects, and that it reads each file once.
use yj_sandbox.Base.{
  ℕ, zero, suc, true, ◌≡◌, refl, inl, inr, List, [], ◌∷◌, Option, none, some, any, Member, All,
  All-append, All-at, Bool-cases, Option-cases,
}
use yj_sandbox.Base.Text.{Text, codes, text_eq, contains_text, to_ascii_lowercase, lines}
use yj_sandbox.Base.Host.{Host, FilePath, path_eq}
use yj_sandbox.Paths.{canonicalize_path}
use yj_sandbox.SshConfig.{
  Files, ssh_profile_path_directives, profile_path_arg, include_paths, directives, Visiting,
  add_path, add_found, add_visited, visit_includes, add_arguments, include_arguments,
  visit_directive, visit_directives, visit_file, visit_config, max_depth,
  ssh_config_dependency_paths,
}

-- An invariant of the visit: the test of the keyword, the paths and the visited keys are all that
-- it depends on.
module _ (h : Host) (f : Files) (user_profile ssh_dir : FilePath) where
  -- The file has a directive with the keyword and the arguments.
  pub record HasDirective (file : FilePath) (keyword : Text) (args : List Text) : Type 0 where
    pub contents : Text
    pub is_read : f.read_to_string file ≡ some contents
    pub stands : Member (keyword, args) (directives (lines contents))

  abbrev pub IsInclude : Text → Type 0
  IsInclude keyword = text_eq (to_ascii_lowercase keyword) (codes "include") ≡ true

  abbrev pub IsPathKeyword : Text → Type 0
  IsPathKeyword keyword =
      contains_text ssh_profile_path_directives (to_ascii_lowercase keyword) ≡ true

  -- The file is the first one, or a file reached before includes it.
  pub data Reached (config : FilePath) : FilePath → Type 0 where
    start : Reached config config
    included :
        (file : FilePath) {path : FilePath} (keyword arg : Text) (args : List Text)
        → Reached config file
        → HasDirective file keyword args
        → IsInclude keyword
        → Member arg args
        → Member path (include_paths h f arg user_profile ssh_dir)
        → Reached config path

  -- The path is a file reached, or an argument of a path directive in one.
  pub data Listed (config : FilePath) (path : FilePath) : Type 0 where
    reached : Reached config path → Listed config path
    named :
        (file : FilePath) (keyword arg : Text) (args : List Text)
        → Reached config file
        → HasDirective file keyword args
        → IsPathKeyword keyword
        → Member arg args
        → profile_path_arg h arg user_profile none ≡ some path
        → Listed config path

  module _ (config : FilePath) where
    abbrev Sound : Visiting → Type 0
    Sound s = All (Listed config) s.paths

    Sound-add_path :
        (p : FilePath) (s : Visiting) → Listed config p → Sound s → Sound (add_path p s)
    Sound-add_path p s l sound = All-append (Listed config) s.paths (p ∷ []) sound (l, tt)

    Sound-add_found :
        (o : Option FilePath) (s : Visiting)
        → ((p : FilePath) → o ≡ some p → Listed config p)
        → Sound s
        → Sound (add_found o s)
    Sound-add_found none s known sound = sound
    Sound-add_found (some p) s known sound = Sound-add_path p s (known p refl) sound

    add_arguments-Sound :
        (args : List Text) (s : Visiting)
        → ((arg : Text) (p : FilePath)
            → Member arg args
            → profile_path_arg h arg user_profile none ≡ some p
            → Listed config p)
        → Sound s
        → Sound (add_arguments h f user_profile ssh_dir args s)
    unfolding add_arguments
    add_arguments-Sound [] s known sound = sound
    add_arguments-Sound (arg ∷ args) s known sound =
        add_arguments-Sound args (add_found (profile_path_arg h arg user_profile none) s)
          (λ a p m. known a p (inr m))
          (Sound-add_found (profile_path_arg h arg user_profile none) s
            (λ p e. known arg p (inl refl) e) sound)

    module _ (recur : FilePath → Visiting → Visiting)
        (deeper : (p : FilePath) (s : Visiting)
          → Reached config p
          → Sound s
          → Sound (recur p s)) where
      visit_includes-Sound :
          (ps : List FilePath) (s : Visiting)
          → ((p : FilePath) → Member p ps → Reached config p)
          → Sound s
          → Sound (visit_includes recur ps s)
      unfolding visit_includes
      visit_includes-Sound [] s known sound = sound
      visit_includes-Sound (p ∷ ps) s known sound =
          let first = known p (inl refl) in
          visit_includes-Sound ps (recur p (add_path p s)) (λ q m. known q (inr m))
            (deeper p (add_path p s) first (Sound-add_path p s (reached first) sound))

      include_arguments-Sound :
          (args : List Text) (s : Visiting)
          → ((arg : Text) (p : FilePath)
              → Member arg args
              → Member p (include_paths h f arg user_profile ssh_dir)
              → Reached config p)
          → Sound s
          → Sound (include_arguments h f user_profile ssh_dir recur args s)
      unfolding include_arguments
      include_arguments-Sound [] s known sound = sound
      include_arguments-Sound (arg ∷ args) s known sound =
          include_arguments-Sound args
            (visit_includes recur (include_paths h f arg user_profile ssh_dir) s)
            (λ a p m. known a p (inr m))
            (visit_includes-Sound (include_paths h f arg user_profile ssh_dir) s
              (λ p m. known arg p (inl refl) m) sound)

      module _ (file : FilePath) (r : Reached config file) where
        visit_directive-Sound :
            (keyword : Text) (args : List Text) (s : Visiting)
            → HasDirective file keyword args
            → Sound s
            → Sound (visit_directive h f user_profile ssh_dir recur (keyword, args) s)
        unfolding visit_directive
        visit_directive-Sound keyword args s d sound =
            elim (Bool-cases (text_eq (to_ascii_lowercase keyword) (codes "include"))) [
              | inl i ↦ rw i (
                  include_arguments-Sound args s (λ a p m n. included file keyword a args r d i m n)
                    sound)
              | inr i ↦
                  elim (Bool-cases
                    (contains_text ssh_profile_path_directives (to_ascii_lowercase keyword))) [
                      | inl k ↦
                          rw (i, k)
                            (add_arguments-Sound args s
                              (λ a p m n. named file keyword a args r d k m n) sound)
                      | inr k ↦ rw (i, k) sound
                    ]
            ]

        visit_directives-Sound :
            (ds : List (Text × List Text)) (s : Visiting)
            → ((keyword : Text) (args : List Text)
                → Member (keyword, args) ds
                → HasDirective file keyword args)
            → Sound s
            → Sound (visit_directives h f user_profile ssh_dir recur ds s)
        unfolding visit_directives
        visit_directives-Sound [] s known sound = sound
        visit_directives-Sound ((k, args) ∷ ds) s known sound =
            visit_directives-Sound ds (visit_directive h f user_profile ssh_dir recur (k, args) s)
              (λ k2 a2 m. known k2 a2 (inr m))
              (visit_directive-Sound k args s (known k args (inl refl)) sound)

        visit_file-Sound :
            (s : Visiting) → Sound s → Sound (visit_file h f user_profile ssh_dir recur file s)
        unfolding visit_file
        visit_file-Sound s sound =
            elim (Bool-cases (any (λ p. path_eq h p (canonicalize_path h file)) s.visited)) [
              | inl seen ↦ rw seen sound
              | inr new ↦ elim (Option-cases (f.read_to_string file)) [
                | inl e ↦ rw (new, e) sound
                | inr (contents, e) ↦
                    rw (new, e)
                      (visit_directives-Sound (directives (lines contents))
                        (add_visited (canonicalize_path h file) s)
                        (λ k a m. record { contents = contents; is_read = e; stands = m }) sound)
              ]
            ]

    visit_config-Sound :
        (left : ℕ) (p : FilePath) (s : Visiting)
        → Reached config p
        → Sound s
        → Sound (visit_config h f user_profile ssh_dir left p s)
    unfolding visit_config
    visit_config-Sound zero p s r sound = sound
    visit_config-Sound (suc left) p s r sound =
        visit_file-Sound (visit_config h f user_profile ssh_dir left) (visit_config-Sound left) p r
          s sound

module _ (h : Host) (f : Files) (user_profile : FilePath) where
  abbrev pub ssh_dir_of : FilePath
  ssh_dir_of = h.join user_profile (codes ".ssh")

  abbrev pub config_of : FilePath
  config_of = h.join ssh_dir_of (codes "config")

  -- Every path given is the configuration, a file that it includes, directly or through other
  -- included files, or a path that a path directive in one of these names.
  pub dependency_paths-Listed :
      (p : FilePath)
      → Member p (ssh_config_dependency_paths h f user_profile)
      → Listed h f user_profile ssh_dir_of config_of p
  unfolding ssh_config_dependency_paths
  dependency_paths-Listed p m =
      let first : Visiting = record { visited = []; paths = config_of ∷ [] } in
      All-at (Listed h f user_profile ssh_dir_of config_of)
        ((visit_config h f user_profile ssh_dir_of max_depth config_of first).paths) p
        (visit_config-Sound h f user_profile ssh_dir_of config_of max_depth config_of first start
          (reached start, tt))
        m

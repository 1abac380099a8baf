-- ===== src/SshConfig/Steps.antt =====
-- Relations on the state of the visit of src/ssh_config_dependencies.rs that its single writes
-- respect.
use yj_sandbox.Base.{
  ℕ, zero, suc, false, ◌≡◌, inl, inr, List, [], ◌∷◌, Option, none, some, any, Bool-cases,
  Option-cases,
}
use yj_sandbox.Base.Text.{Text, codes, text_eq, contains_text, to_ascii_lowercase, lines}
use yj_sandbox.Base.Host.{Host, FilePath, path_eq}
use yj_sandbox.Paths.{canonicalize_path}
use yj_sandbox.SshConfig.{
  Files, ssh_profile_path_directives, profile_path_arg, include_paths, directives, Visiting,
  add_path, add_found, add_visited, visit_includes, add_arguments, include_arguments,
  visit_directive, visit_directives, visit_file, visit_config,
}

-- A relation on the visit's state that its two writes respect holds across all of it.
module _ (R : Visiting → Visiting → Type 0) (stay : (s : Visiting) → R s s)
    (follow : (s t u : Visiting) → R s t → R t u → R s u)
    (writes : (p : FilePath) (s : Visiting) → R s (add_path p s)) where
  pub add_found-R : (o : Option FilePath) (s : Visiting) → R s (add_found o s)
  add_found-R none s = stay s
  add_found-R (some p) s = writes p s

  module _ (h : Host) (f : Files) (user_profile ssh_dir : FilePath) where
    pub add_arguments-R :
        (args : List Text) (s : Visiting) → R s (add_arguments h f user_profile ssh_dir args s)
    unfolding add_arguments
    add_arguments-R [] s = stay s
    add_arguments-R (arg ∷ args) s =
        let t = add_found (profile_path_arg h arg user_profile none) s in
        follow s t (add_arguments h f user_profile ssh_dir args t)
          (add_found-R (profile_path_arg h arg user_profile none) s) (add_arguments-R args t)

    module _ (recur : FilePath → Visiting → Visiting)
        (deeper : (p : FilePath) (s : Visiting) → R s (recur p s)) where
      pub visit_includes-R : (ps : List FilePath) (s : Visiting) → R s (visit_includes recur ps s)
      unfolding visit_includes
      visit_includes-R [] s = stay s
      visit_includes-R (p ∷ ps) s =
          let t = recur p (add_path p s) in
          follow s t (visit_includes recur ps t)
            (follow s (add_path p s) t (writes p s) (deeper p (add_path p s)))
            (visit_includes-R ps t)

      pub include_arguments-R :
          (args : List Text) (s : Visiting)
          → R s (include_arguments h f user_profile ssh_dir recur args s)
      unfolding include_arguments
      include_arguments-R [] s = stay s
      include_arguments-R (arg ∷ args) s =
          let t = visit_includes recur (include_paths h f arg user_profile ssh_dir) s in
          follow s t (include_arguments h f user_profile ssh_dir recur args t)
            (visit_includes-R (include_paths h f arg user_profile ssh_dir) s)
            (include_arguments-R args t)

      pub visit_directive-R :
          (d : Text × List Text) (s : Visiting)
          → R s (visit_directive h f user_profile ssh_dir recur d s)
      unfolding visit_directive
      visit_directive-R (keyword, args) s =
          elim (Bool-cases (text_eq (to_ascii_lowercase keyword) (codes "include"))) [
            | inl i ↦ rw i (include_arguments-R args s)
            | inr i ↦
                elim (Bool-cases
                  (contains_text ssh_profile_path_directives (to_ascii_lowercase keyword))) [
                    | inl k ↦ rw (i, k) (add_arguments-R args s)
                    | inr k ↦ rw (i, k) (stay s)
                  ]
          ]

      pub visit_directives-R :
          (ds : List (Text × List Text)) (s : Visiting)
          → R s (visit_directives h f user_profile ssh_dir recur ds s)
      unfolding visit_directives
      visit_directives-R [] s = stay s
      visit_directives-R (d ∷ ds) s =
          let t = visit_directive h f user_profile ssh_dir recur d s in
          follow s t (visit_directives h f user_profile ssh_dir recur ds t) (visit_directive-R d s)
            (visit_directives-R ds t)

      module _
          (marks : (path : FilePath) (s : Visiting)
            → any (λ p. path_eq h p (canonicalize_path h path)) s.visited ≡ false
            → R s (add_visited (canonicalize_path h path) s)) where
        pub visit_file-R :
            (path : FilePath) (s : Visiting)
            → R s (visit_file h f user_profile ssh_dir recur path s)
        unfolding visit_file
        visit_file-R path s =
            elim (Bool-cases (any (λ p. path_eq h p (canonicalize_path h path)) s.visited)) [
              | inl seen ↦ rw seen (stay s)
              | inr new ↦ elim (Option-cases (f.read_to_string path)) [
                | inl e ↦ rw (new, e) (marks path s new)
                | inr (contents, e) ↦
                    let t = add_visited (canonicalize_path h path) s in
                    let ds = directives (lines contents) in
                    rw (new, e)
                      (follow s t (visit_directives h f user_profile ssh_dir recur ds t)
                        (marks path s new) (visit_directives-R ds t))
              ]
            ]

    pub visit_config-R :
        ((path : FilePath) (s : Visiting)
          → any (λ p. path_eq h p (canonicalize_path h path)) s.visited ≡ false
          → R s (add_visited (canonicalize_path h path) s))
        → (left : ℕ) (path : FilePath) (s : Visiting)
        → R s (visit_config h f user_profile ssh_dir left path s)
    unfolding visit_config
    visit_config-R marks zero path s = stay s
    visit_config-R marks (suc left) path s =
        visit_file-R (visit_config h f user_profile ssh_dir left) (visit_config-R marks left) marks
          path s

-- ===== src/Examples/SshConfig.antt =====
-- The dependencies of an SSH configuration: src/ssh_config_dependencies.rs.
use yj_sandbox.Base.{
  ◌≡◌, refl, subst, sym, inl, inr, [], ◌∷◌, ◌++◌, none, some, if◌then◌else◌, Member,
}
use yj_sandbox.Base.Text.{
  Text, codes, text_eq, contains_text, to_ascii_lowercase, eq_ignore_ascii_case, is_whitespace,
  replace_char, split_once, strip_prefix, lines, texts_eq,
}
use yj_sandbox.Base.Host.{Host, path_eq}
use yj_sandbox.Base.Unix.{unix_with_files, unix_join, unix_components}
use yj_sandbox.Paths.{canonicalize_path}
use yj_sandbox.SshConfig.{
  Files, escape_step, word_step, words, directive, profile_path_arg, include_paths, Visiting,
  visit_includes, add_arguments, include_arguments, visit_directive, visit_directives, visit_file,
  visit_config, ssh_config_dependency_paths,
}
use yj_sandbox.SshConfig.Quoting.{print_words, escaped, words-round_trip}
use yj_sandbox.SshConfig.Visits.{
  Listed, HasDirective, ssh_dir_of, config_of, dependency_paths-Listed,
}
use yj_sandbox.SshConfig.Covers.{Names, dependency_paths_cover}

visiting : Unit {0}
unfolding text_eq contains_text to_ascii_lowercase eq_ignore_ascii_case is_whitespace replace_char
    split_once strip_prefix lines texts_eq path_eq unix_with_files unix_join unix_components
    canonicalize_path escape_step word_step words directive profile_path_arg include_paths
    visit_includes add_arguments include_arguments visit_directive visit_directives visit_file
    visit_config ssh_config_dependency_paths print_words escaped
visiting = tt

unfoldable host : Host
unfolding unix_with_files
host = unix_with_files []

abbrev config_text : Text
config_text = codes "# mine" ++ 10 ∷ (codes "Include extra" ++ 10 ∷ codes "IdentityFile=~/.ssh/id")

-- The file `extra` includes itself.
unfoldable files : Files
unfolding text_eq
files = record {
  read_to_string = λ p.
      if text_eq p (codes "/u/.ssh/config")
      then some config_text
      else if text_eq p (codes "/u/.ssh/extra")
      then some (codes "include extra")
      else none;
  glob = λ p. some (p ∷ []);
}

words_test : words (codes "Host 'a b' c#d") ≡ codes "Host" ∷ codes "a b" ∷ codes "c" ∷ []
unfolding visiting
words_test = refl

dependencies_test :
    ssh_config_dependency_paths host files (codes "/u")
    ≡ codes "/u/.ssh/config"
      ∷ codes "/u/.ssh/extra"
      ∷ codes "/u/.ssh/extra"
      ∷ codes "/u/.ssh/id"
      ∷ []
unfolding visiting host files
dependencies_test = refl

words-round_trip_example :
    words (print_words ((34 ∷ 92 ∷ []) ∷ codes "a #b" ∷ [])) ≡ (34 ∷ 92 ∷ []) ∷ codes "a #b" ∷ []
words-round_trip_example = words-round_trip ((34 ∷ 92 ∷ []) ∷ codes "a #b" ∷ []) (refl, (refl, tt))

extra_given : Member (codes "/u/.ssh/extra") (ssh_config_dependency_paths host files (codes "/u"))
extra_given = subst (Member (codes "/u/.ssh/extra")) (sym dependencies_test) (inr (inl refl))

dependency_paths-Listed_example :
    Listed host files
      (codes "/u")
      (ssh_dir_of host files (codes "/u"))
      (config_of host files (codes "/u"))
      (codes "/u/.ssh/extra")
dependency_paths-Listed_example =
    dependency_paths-Listed host files (codes "/u") (codes "/u/.ssh/extra") extra_given

config-HasDirective :
    HasDirective host files
      (codes "/u")
      (ssh_dir_of host files (codes "/u"))
      (config_of host files (codes "/u"))
      (codes "IdentityFile")
      (codes "~/.ssh/id" ∷ [])
unfolding visiting host files
config-HasDirective = record { contents = config_text; is_read = refl; stands = inr (inl refl) }

id-Names :
    Names host files
      (codes "/u")
      (ssh_dir_of host files (codes "/u"))
      (codes "IdentityFile")
      (codes "~/.ssh/id")
      (codes "/u/.ssh/id")
unfolding visiting host files
id-Names = inl (refl, refl)

dependency_paths_cover_example :
    Member (codes "/u/.ssh/id") (ssh_config_dependency_paths host files (codes "/u"))
dependency_paths_cover_example =
    dependency_paths_cover host files (codes "/u") (codes "IdentityFile") (codes "~/.ssh/id" ∷ [])
      (codes "~/.ssh/id") (codes "/u/.ssh/id") config-HasDirective (inl refl) id-Names

abbrev nothing_visited : Visiting
nothing_visited = record { visited = []; paths = [] }

-- ===== src/SshConfig.antt =====
-- The paths that an SSH configuration depends on: src/ssh_config_dependencies.rs. The file system
-- and the crate `glob` are the record `Files`.
pub mod Quoting
pub mod Visits
mod Steps
pub mod Covers
use yj_sandbox.Base.{
  ℕ, zero, suc, Bool, true, false, ◌&&◌, ◌||◌, not, List, [], ◌∷◌, ◌++◌, Option, none, some, any,
  is_empty, keep, ◌==◌, if◌then◌else◌,
}
use yj_sandbox.Base.Text.{
  Text, codes, text_eq, contains_text, to_ascii_lowercase, eq_ignore_ascii_case, is_whitespace,
  replace_char, split_once, strip_prefix, lines,
}
use yj_sandbox.Base.Host.{Host, FilePath, path_eq}
use yj_sandbox.Paths.{canonicalize_path, or_else, or_other}

pub record Files : Type 0 where
  pub read_to_string : FilePath → Option Text
  -- `glob::glob`, with the paths that could be read; `none` for a pattern that is not one
  pub glob : Text → Option (List FilePath)

abbrev pub ssh_profile_path_directives : List Text
ssh_profile_path_directives =
    codes "certificatefile"
    ∷ codes "controlpath"
    ∷ codes "globalknownhostsfile"
    ∷ codes "identityagent"
    ∷ codes "identityfile"
    ∷ codes "revokedhostkeys"
    ∷ codes "userknownhostsfile"
    ∷ []

-- The variables of the loop in `words`.
pub record Scanned : Type 0 where
  pub quote : Option ℕ
  pub word : Text
  pub out : List Text

-- How the loop goes on: it leaves, or it goes on with the next character or with the one after it.
pub data Next : Type 0 where
  leave : Next
  go_on skip_one : Scanned → Next

abbrev pub is_quote : ℕ → Bool
is_quote c = c == 39 || c == 34

abbrev pub is_open : Option ℕ → Bool
is_open none = false
is_open (some q) = true

abbrev pub quoted_by : Option ℕ → ℕ → Bool
quoted_by none c = false
quoted_by (some q) c = q == c

abbrev pub push : ℕ → Scanned → Scanned
push c s = record s { word = s.word ++ c ∷ [] }

-- `if !word.is_empty() { out.push(word) }`
abbrev pub end_word : Scanned → List Text
end_word s = if is_empty s.word then s.out else s.out ++ s.word ∷ []

-- the arm for a backslash
unfoldable pub escape_step : Scanned → List ℕ → Next
escape_step s [] = go_on (push 92 s)
escape_step s (next ∷ _) =
    if is_quote next || next == 92 || (not (is_open s.quote) && next == 32)
    then skip_one (push next s)
    else go_on (push 92 s)

-- One round of the loop: the character and those that `peek` and `next` can still see.
unfoldable pub word_step : Scanned → ℕ → List ℕ → Next
word_step s c rest =
    if c == b'#' && not (is_open s.quote)
    then leave
    else if is_quote c && quoted_by s.quote c
    then go_on (record s { quote = none })
    else if is_quote c && not (is_open s.quote)
    then go_on (record s { quote = some c })
    else if c == 92
    then escape_step s rest
    else if is_whitespace c && not (is_open s.quote)
    then go_on (record s { word = []; out = end_word s })
    else go_on (push c s)

-- The loop; the flag says that the first character is one that the round before has taken.
unfoldable pub words_loop : Bool → Scanned → List ℕ → List Text
words_loop skip s [] = end_word s
words_loop true s (c ∷ rest) = words_loop false s rest
words_loop false s (c ∷ rest) = elim (word_step s c rest) [
  | leave ↦ end_word s
  | go_on t ↦ words_loop false t rest
  | skip_one t ↦ words_loop true t rest
]

unfoldable pub words : Text → List Text
unfolding words_loop
words line = words_loop false (record { quote = none; word = []; out = [] }) line

-- the second branch of `directive`
abbrev pub spaced_directive : Text → List Text → Text × List Text
spaced_directive key [] = (key, [])
spaced_directive key (arg ∷ args) =
    (key, keep (λ a. not (is_empty a)) (or_else (strip_prefix (codes "=") arg) arg ∷ args))

abbrev pub directive_of : List Text → Option (Text × List Text)
directive_of [] = none
directive_of (first ∷ args) = elim (split_once b'=' first) [
  | none ↦ some (spaced_directive first args)
  | some (key, value) ↦
      if is_empty key
      then some (spaced_directive first args)
      else some (key, if is_empty value then args else value ∷ args)
]

unfoldable pub directive : Text → Option (Text × List Text)
unfolding words
directive line = directive_of (words line)

abbrev pub strip_any : List Text → Text → Option Text
strip_any [] arg = none
strip_any (p ∷ ps) arg = or_other (strip_prefix p arg) (strip_any ps arg)

abbrev pub home_prefixes : List Text
home_prefixes =
    codes "~/"
    ∷ (126 ∷ 92 ∷ [])
    ∷ codes "%d/"
    ∷ (37 ∷ 100 ∷ 92 ∷ [])
    ∷ codes "${HOME}/"
    ∷ (codes "${HOME}" ++ 92 ∷ [])
    ∷ []

module _ (h : Host) where
  unfoldable pub profile_path_arg : Text → FilePath → Option FilePath → Option FilePath
  profile_path_arg arg user_profile relative_base =
      if eq_ignore_ascii_case arg (codes "none")
      then none
      else if text_eq arg (codes "~") || text_eq arg (codes "%d") || text_eq arg (codes "${HOME}")
      then some user_profile
      else elim (strip_any home_prefixes arg) [
        | some rest ↦ some (h.join user_profile rest)
        | none ↦
            if h.is_absolute arg
            then some arg
            else elim relative_base [ none ↦ none | some base ↦ some (h.join base arg) ]
      ]

  module _ (f : Files) where
    unfoldable pub include_paths : Text → FilePath → FilePath → List FilePath
    include_paths arg user_profile ssh_dir =
        elim (profile_path_arg arg user_profile (some ssh_dir)) [
          | none ↦ []
          | some pattern ↦ or_else (f.glob (replace_char 92 b'/' pattern)) []
        ]

-- `filter_map(directive)`
abbrev pub directives : List Text → List (Text × List Text)
directives [] = []
directives (l ∷ ls) = elim (directive l) [ none ↦ directives ls | some d ↦ d ∷ directives ls ]

-- What `visit_config` writes to.
pub record Visiting : Type 0 where
  pub visited : List FilePath
  pub paths : List FilePath

abbrev pub add_path : FilePath → Visiting → Visiting
add_path p s = record s { paths = s.paths ++ p ∷ [] }

-- `if let Some(path) = … { paths.push(path) }`
abbrev pub add_found : Option FilePath → Visiting → Visiting
add_found none s = s
add_found (some path) s = add_path path s

abbrev pub add_visited : FilePath → Visiting → Visiting
add_visited key s = record s { visited = s.visited ++ key ∷ [] }

-- the innermost loop; `recur` is the call of `visit_config` one level deeper
unfoldable pub visit_includes :
    (FilePath → Visiting → Visiting) → List FilePath → Visiting → Visiting
visit_includes recur [] s = s
visit_includes recur (include ∷ includes) s =
    visit_includes recur includes (recur include (add_path include s))

module _ (h : Host) (f : Files) (user_profile ssh_dir : FilePath) where
  unfoldable pub add_arguments : List Text → Visiting → Visiting
  add_arguments [] s = s
  add_arguments (arg ∷ args) s =
      add_arguments args (add_found (profile_path_arg h arg user_profile none) s)

  module _ (recur : FilePath → Visiting → Visiting) where
    unfoldable pub include_arguments : List Text → Visiting → Visiting
    include_arguments [] s = s
    include_arguments (arg ∷ args) s =
        include_arguments args (visit_includes recur (include_paths h f arg user_profile ssh_dir) s)

    -- the match on the keyword
    unfoldable pub visit_directive : Text × List Text → Visiting → Visiting
    visit_directive (keyword, args) s =
        let key = to_ascii_lowercase keyword in
        if text_eq key (codes "include")
        then include_arguments args s
        else if contains_text ssh_profile_path_directives key
        then add_arguments args s
        else s

    unfoldable pub visit_directives : List (Text × List Text) → Visiting → Visiting
    visit_directives [] s = s
    visit_directives (d ∷ ds) s = visit_directives ds (visit_directive d s)

    -- the body of `visit_config` below its test of the depth
    unfoldable pub visit_file : FilePath → Visiting → Visiting
    visit_file path s =
        let key = canonicalize_path h path in
        if any (λ p. path_eq h p key) s.visited then s else elim (f.read_to_string path) [
          | none ↦ add_visited key s
          | some contents ↦ visit_directives (directives (lines contents)) (add_visited key s)
        ]

  -- `visit_config` where as many levels as the number are left of the 32
  unfoldable pub visit_config : ℕ → FilePath → Visiting → Visiting
  visit_config zero path s = s
  visit_config (suc left) path s = visit_file (visit_config left) path s

abbrev pub max_depth : ℕ
max_depth = 32

module _ (h : Host) (f : Files) where
  unfoldable pub ssh_config_dependency_paths : FilePath → List FilePath
  unfolding visit_config
  ssh_config_dependency_paths user_profile =
      let ssh_dir = h.join user_profile (codes ".ssh") in
      let config = h.join ssh_dir (codes "config") in
      (visit_config h f user_profile ssh_dir max_depth config
        (record { visited = []; paths = config ∷ [] })).paths

-- ===== src/Base/Unix.antt =====
-- `std::path` on Unix, and a host over it with a small fixed file system for the tests.
use yj_sandbox.Base.Tests.{◌==◌, if◌then◌else◌}
use yj_sandbox.Base.Lists.{keep, is_empty}
use yj_sandbox.Base.Text.{Text, codes, text_eq, split, contains_text}
use yj_sandbox.Base.Host.{Host, FilePath}
use mathlib.Core.Bool.{Bool, false, not, ◌||◌}
use mathlib.Core.Option.{none, some}
use mathlib.Core.List.{List, [], ◌∷◌, ◌++◌}

abbrev pub unix_is_absolute : FilePath → Bool
unix_is_absolute [] = false
unix_is_absolute (c ∷ _) = c == b'/'

abbrev ends_with_slash : FilePath → Bool
ends_with_slash [] = false
ends_with_slash (c ∷ []) = c == b'/'
ends_with_slash (_ ∷ c ∷ s) = ends_with_slash (c ∷ s)

-- `Path::join`: an absolute path replaces the base.
unfoldable pub unix_join : FilePath → FilePath → FilePath
unix_join base path =
    if unix_is_absolute path
    then path
    else if is_empty base || ends_with_slash base
    then base ++ path
    else base ++ codes "/" ++ path

abbrev first_is_dot : List Text → Bool
first_is_dot [] = false
first_is_dot (w ∷ _) = text_eq w (codes ".")

-- `Path::components`: repeated separators and `.` vanish, but for a `.` that a relative path begins
-- with.
unfoldable pub unix_components : FilePath → List Text
unfolding text_eq split
unix_components path =
    let parts = split b'/' path in
    let named = keep (λ w. not (is_empty w || text_eq w (codes "."))) parts in
    if unix_is_absolute path
    then codes "/" ∷ named
    else if first_is_dot parts
    then codes "." ∷ named
    else named

-- A host whose files are the listed paths, which are their own canonical forms.
unfoldable pub unix_with_files : List FilePath → Host
unfolding unix_join unix_components contains_text
unix_with_files files = record {
  is_absolute = unix_is_absolute;
  join = unix_join;
  components = unix_components;
  canonicalize = λ p. if contains_text files p then some p else none;
  exists = contains_text files;
  env_var = λ _. none;
  current_dir = some (codes "/");
}

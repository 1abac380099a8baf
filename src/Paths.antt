-- ===== src/Paths.antt =====
-- Paths in a normal form: src/path_normalization.rs and src/absolute_path.rs.
use yj_sandbox.Base.{Option, none, some, if◌then◌else◌}
use yj_sandbox.Base.Outcome.{Result, ok, err}
use yj_sandbox.Base.Text.{Text, replace_char, to_ascii_lowercase}
use yj_sandbox.Base.Host.{Host, FilePath}

-- `unwrap_or`
abbrev pub or_else : {A : Type 0} → Option A → A → A
or_else none d = d
or_else (some a) d = a

-- `or_else` of an `Option`
abbrev pub or_other : {A : Type 0} → Option A → Option A → Option A
or_other none o = o
or_other (some a) o = some a

module _ (h : Host) where
  unfoldable pub canonicalize_path : FilePath → FilePath
  canonicalize_path path = or_else (h.canonicalize path) path

  unfoldable pub canonical_path_key : FilePath → Text
  unfolding canonicalize_path
  canonical_path_key path = to_ascii_lowercase (replace_char 92 b'/' (canonicalize_path path))

  -- `AbsolutePathBuf` is a path that one of its constructors has accepted; the error names the
  -- path that is not absolute.
  unfoldable pub from_absolute_path : FilePath → Result FilePath FilePath
  from_absolute_path path = if h.is_absolute path then ok path else err path

  unfoldable pub resolve_path_against_base : FilePath → FilePath → FilePath
  resolve_path_against_base path base = if h.is_absolute path then path else h.join base path

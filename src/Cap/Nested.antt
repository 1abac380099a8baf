-- ===== src/Cap/Nested.antt =====
-- Roots inside one another: the last functions of src/cap.rs.
use yj_sandbox.Base.{◌≤◌, true, ◌||◌, ◌≡◌, refl, List, [], ◌∷◌, length, arith}
use yj_sandbox.Base.Text.{Text, texts_eq, texts_start_with}
use yj_sandbox.Base.Text.Laws.{text_eq_iff}
use yj_sandbox.Base.Host.{Host, FilePath, path_eq, path_starts_with}
use yj_sandbox.Paths.{canonicalize_path}
use yj_sandbox.Cap.{
  workspace_write_root_contains_path, workspace_write_root_overlaps_path,
  workspace_write_root_specificity,
}

start-length :
    (xs ps : List Text)
    → texts_start_with xs ps ≡ true
    → (length ps ≤ length xs) × (length xs ≡ length ps → texts_eq xs ps ≡ true)
unfolding texts_start_with texts_eq
start-length [] [] e = (omega arith, λ _. refl)
start-length (x ∷ xs) [] e = (omega arith, λ same. ground arith)
start-length [] (p ∷ ps) e = ground arith
start-length (x ∷ xs) (p ∷ ps) e = ground (arith, start-length xs ps)

module _ (h : Host) where
  -- A root is at most as specific as a path in it, and as specific only as itself.
  contains-specificity :
      (root path : FilePath)
      → workspace_write_root_contains_path h root path ≡ true
      → (workspace_write_root_specificity h root ≤ workspace_write_root_specificity h path)
        × (workspace_write_root_specificity h path ≡ workspace_write_root_specificity h root
            → path_eq h (canonicalize_path h path) (canonicalize_path h root) ≡ true)
  unfolding workspace_write_root_contains_path path_starts_with workspace_write_root_specificity
      path_eq
  contains-specificity root path =
      start-length (h.components (canonicalize_path h path))
        (h.components (canonicalize_path h root))

prefixes_nest :
    (xs ps qs : List Text)
    → texts_start_with xs ps ≡ true
    → texts_start_with xs qs ≡ true
    → (texts_start_with ps qs || texts_start_with qs ps) ≡ true
unfolding texts_start_with
prefixes_nest xs [] qs e f = ground arith
prefixes_nest xs (p ∷ ps) [] e f = ground arith
prefixes_nest [] (p ∷ ps) (q ∷ qs) e f = ground arith
prefixes_nest (x ∷ xs) (p ∷ ps) (q ∷ qs) e f = ground (
  arith,
  text_eq_iff x p,
  text_eq_iff x q,
  text_eq_iff p q,
  text_eq_iff q p,
  prefixes_nest xs ps qs,
)

module _ (h : Host) where
  -- Two roots that contain one path overlap.
  containing_roots_overlap :
      (root other path : FilePath)
      → workspace_write_root_contains_path h root path ≡ true
      → workspace_write_root_contains_path h other path ≡ true
      → workspace_write_root_overlaps_path h root other ≡ true
  unfolding workspace_write_root_contains_path path_starts_with workspace_write_root_overlaps_path
  containing_roots_overlap root other path e f = ground (
    arith,
    prefixes_nest (h.components (canonicalize_path h path))
        (h.components (canonicalize_path h root)) (h.components (canonicalize_path h other)),
  )

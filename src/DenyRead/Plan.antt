-- ===== src/DenyRead/Plan.antt =====
-- Which paths src/deny_read_acl.rs plans to deny.
use yj_sandbox.Base.{
  true, ◌≡◌, refl, sym, subst, ◌⊎◌, inl, inr, List, [], ◌∷◌, Member, Member-map, Bool-cases,
  if◌then◌else◌,
}
use yj_sandbox.Base.Distinct.{Distinct}
use yj_sandbox.Base.Text.{Text, contains_text}
use yj_sandbox.Base.Text.Laws.{contains_text_iff}
use yj_sandbox.Base.Host.{Host, FilePath}
use yj_sandbox.Paths.{canonicalize_path}
use yj_sandbox.DenyRead.{
  Acl, lexical_path_key, Planned, nothing_planned, push_planned_path, plan_path, plan_paths,
  plan_deny_read_acl_paths, keys_of,
}
use yj_sandbox.DenyRead.Keys.{
  same_key, IsTracked, push_planned_path-IsTracked, push_planned_path-Distinct,
  Member-push_planned_path, push_planned_path-seen, push_planned_path-keeps,
}

unfoldable pub push_all : Planned → List FilePath → Planned
push_all p [] = p
push_all p (path ∷ paths) = push_all (push_planned_path p path) paths

pub push_all-IsTracked :
    (p : Planned) (paths : List FilePath) → IsTracked p → IsTracked (push_all p paths)
unfolding push_all
push_all-IsTracked p [] t = t
push_all-IsTracked p (path ∷ paths) t =
    push_all-IsTracked (push_planned_path p path) paths (push_planned_path-IsTracked p path t)

push_all-Distinct :
    (p : Planned) (paths : List FilePath)
    → IsTracked p
    → Distinct same_key p.planned
    → Distinct same_key (push_all p paths).planned
unfolding push_all
push_all-Distinct p [] t d = d
push_all-Distinct p (path ∷ paths) t d =
    push_all-Distinct (push_planned_path p path) paths (push_planned_path-IsTracked p path t)
      (push_planned_path-Distinct p path t d)

Member-push_all :
    (p : Planned) (paths : List FilePath) (q : FilePath)
    → Member q (push_all p paths).planned
    → Member q p.planned ⊎ Member q paths
unfolding push_all
Member-push_all p [] q m = inl m
Member-push_all p (path ∷ paths) q m = elim (Member-push_all (push_planned_path p path) paths q m) [
  | inr later ↦ inr (inr later)
  | inl early ↦ elim (Member-push_planned_path p path q early) [
    | inl before ↦ inl before
    | inr same ↦ inr (inl same)
  ]
]

push_all-keeps :
    (p : Planned) (paths : List FilePath) (key : Text)
    → contains_text p.seen key ≡ true
    → contains_text (push_all p paths).seen key ≡ true
unfolding push_all
push_all-keeps p [] key seen = seen
push_all-keeps p (path ∷ paths) key seen =
    push_all-keeps (push_planned_path p path) paths key (push_planned_path-keeps p path key seen)

push_all_cover :
    (p : Planned) (paths : List FilePath) (q : FilePath)
    → Member q paths
    → contains_text (push_all p paths).seen (lexical_path_key q) ≡ true
unfolding push_all
push_all_cover p [] q m = absurd m
push_all_cover p (path ∷ paths) q (inl same) =
    push_all-keeps (push_planned_path p path) paths (lexical_path_key q) (
      subst (λ x. contains_text (push_planned_path p path).seen (lexical_path_key x) ≡ true)
        (sym same) (push_planned_path-seen p path))
push_all_cover p (path ∷ paths) q (inr m) = push_all_cover (push_planned_path p path) paths q m

planned_for :
    (q : FilePath) (wanted : List FilePath)
    → Member q wanted
    → (r : FilePath) × Member r (push_all nothing_planned wanted).planned
      × (lexical_path_key q ≡ lexical_path_key r)
planned_for q wanted m =
    let seen = push_all_cover nothing_planned wanted q m in
    (Member-map lexical_path_key (push_all nothing_planned wanted).planned (lexical_path_key q)).0 (
      (contains_text_iff (keys_of (push_all nothing_planned wanted).planned) (lexical_path_key q)).0
        (subst (λ keys. contains_text keys (lexical_path_key q) ≡ true)
          (push_all-IsTracked nothing_planned wanted refl) seen))

-- A plan for the wanted paths.
pub record IsPlan (wanted plan : List FilePath) : Type 0 where
  pub is_distinct : Distinct same_key plan
  pub is_wanted : (q : FilePath) → Member q plan → Member q wanted
  pub is_complete :
      (q : FilePath)
      → Member q wanted
      → (r : FilePath) × Member r plan × (lexical_path_key q ≡ lexical_path_key r)

pub push_all-IsPlan :
    (wanted : List FilePath) → IsPlan wanted (push_all nothing_planned wanted).planned
push_all-IsPlan wanted = record {
  is_distinct = push_all-Distinct nothing_planned wanted refl tt;
  is_wanted = λ q m. elim (Member-push_all nothing_planned wanted q m) [
    | inl nowhere ↦ absurd nowhere
    | inr asked ↦ asked
  ];
  is_complete = λ q m. planned_for q wanted m;
}

module _ (a : Acl) (h : Host) (w : a.World) where
  -- What is asked for: the paths, each with its canonical form where it exists.
  unfoldable pub with_canonical : List FilePath → List FilePath
  with_canonical [] = []
  with_canonical (path ∷ paths) =
      path
      ∷ (if a.path_exists w path
          then canonicalize_path h path ∷ with_canonical paths
          else with_canonical paths)

  plan_paths-push_all :
      (paths : List FilePath) (p : Planned)
      → plan_paths a h w paths p ≡ push_all p (with_canonical paths)
  unfolding plan_paths plan_path push_all with_canonical
  plan_paths-push_all [] p = refl
  plan_paths-push_all (path ∷ paths) p = elim (Bool-cases (a.path_exists w path)) [
    | inl there ↦ rw there (
        plan_paths-push_all paths
          (push_planned_path (push_planned_path p path) (canonicalize_path h path)))
    | inr gone ↦ rw gone (plan_paths-push_all paths (push_planned_path p path))
  ]

  -- The planned paths are asked for, no two have one lexical key, and each path asked for, itself or
  -- as the canonical form of one that exists, has the key of a planned one.
  pub plan_deny_read_acl_paths-IsPlan :
      (paths : List FilePath) → IsPlan (with_canonical paths) (plan_deny_read_acl_paths a h w paths)
  unfolding plan_deny_read_acl_paths
  plan_deny_read_acl_paths-IsPlan paths =
      subst (λ (p : Planned). IsPlan (with_canonical paths) p.planned)
        (sym (plan_paths-push_all paths nothing_planned)) (push_all-IsPlan (with_canonical paths))

-- ===== src/Examples/DenyRead.antt =====
-- Deny-read entries of src/deny_read_acl.rs and src/deny_read_state.rs, where `/link` leads to
-- `/secret` and `/bad` cannot be created.
use yj_sandbox.Base.{
  Bool, true, false, not, ◌&&◌, ◌≡◌, refl, List, [], ◌∷◌, Option, some, keep, Member, inl, inr,
  if◌then◌else◌, arith, Bool-cases,
}
use yj_sandbox.Base.Outcome.{ok, err}
use yj_sandbox.Base.Text.{
  Text, codes, text_eq, contains_text, to_ascii_lowercase, replace_char, trim_end_while,
  trim_start_while,
}
use yj_sandbox.Base.Text.Laws.{text_eq_iff, text_eq_refl}
use yj_sandbox.Base.Maps.{map_get, map_insert, map_remove}
use yj_sandbox.Base.Host.{Host, FilePath}
use yj_sandbox.Base.Unix.{unix_with_files}
use yj_sandbox.Paths.{canonicalize_path}
use yj_sandbox.DenyRead.{
  Acl, cannot_create, lexical_path_key, push_planned_path, plan_path, plan_paths,
  plan_deny_read_acl_paths, revoke_all, materialize, try_apply, apply_loop, apply_deny_read_acls,
  principals, Persistent, load_state, revoke_stale, store_state, reconcile,
  sync_persistent_deny_read_acls, DenyState,
}
use yj_sandbox.DenyRead.Plan.{IsPlan, with_canonical, plan_deny_read_acl_paths-IsPlan}
use yj_sandbox.DenyRead.Rollback.{IsAcl, apply_deny_read_acls-err}
use yj_sandbox.DenyRead.Applied.{Denies, apply_deny_read_acls-ok}
use yj_sandbox.DenyRead.Sync.{IsReconciled, sync-IsReconciled}

unfoldable object : FilePath → Text
unfolding text_eq
object p = if text_eq p (codes "/link") then codes "/secret" else p

unfoldable add_object : Text → List Text → Option Bool × List Text
unfolding contains_text
add_object t w = if contains_text w t then (some false, w) else (some true, t ∷ w)

unfoldable add_entry : FilePath → List Text → Option Bool × List Text
unfolding object add_object
add_entry p w = add_object (object p) w

unfoldable remove_entry : FilePath → List Text → List Text
unfolding object text_eq
remove_entry p w = keep (λ o. not (text_eq o (object p))) w

abbrev acl : Acl
acl = record {
  World = List Text;
  path_exists = λ w p. not (text_eq p (codes "/bad"));
  create_dir_all = λ p w. (false, w);
  add_deny_read_ace = add_entry;
  revoke_ace = remove_entry;
}

contains-keep :
    (t o : Text) (w : List Text)
    → contains_text (keep (λ x. not (text_eq x t)) w) o ≡ (not (text_eq o t) && contains_text w o)
unfolding contains_text
contains-keep t o [] = ground arith
contains-keep t o (x ∷ w) = elim (Bool-cases (text_eq x t)) [
  | inl same ↦
      rw same
        (ground (arith, contains-keep t o w, text_eq_iff x t, text_eq_iff o t, text_eq_iff o x))
  | inr other ↦
      rw other
        (ground (arith, contains-keep t o w, text_eq_iff x t, text_eq_iff o t, text_eq_iff o x))
]

add_object-entries :
    (t o : Text) (w : List Text)
    → contains_text (add_object t w).1 o ≡ (
        if text_eq o t
        then (elim (add_object t w).0 [ some true ↦ true | _ ↦ contains_text w o ])
        else contains_text w o)
unfolding add_object contains_text
add_object-entries t o w = ground (arith, text_eq_iff o t)

add_object-is_new :
    (t : Text) (w : List Text) → (add_object t w).0 ≡ some true → contains_text w t ≡ false
unfolding add_object
add_object-is_new t w e = ground arith

add_object-denies : (t : Text) (w : List Text) → contains_text (add_object t w).1 t ≡ true
unfolding add_object contains_text
add_object-denies t w = ground (arith, text_eq_refl t)

add_object-keeps :
    (t o : Text) (w : List Text)
    → contains_text w o ≡ true
    → contains_text (add_object t w).1 o ≡ true
unfolding add_object contains_text
add_object-keeps t o w e = ground arith

acl-IsAcl : IsAcl acl
unfolding add_entry
acl-IsAcl = record {
  target = object;
  has_entry = contains_text;
  is_denied = contains_text;
  create-entries = λ p w o. (refl, λ e. e);
  add-entries = λ p w o. add_object-entries (object p) o w;
  add-is_new = λ p w e. add_object-is_new (object p) w e;
  add-denies = λ p w b e. add_object-denies (object p) w;
  add-keeps = λ p w o e. add_object-keeps (object p) o w e;
  revoke-entries = λ p w o. unfold remove_entry in contains-keep (object p) o w;
}

denying : Unit {0}
unfolding text_eq contains_text to_ascii_lowercase replace_char trim_end_while trim_start_while
    unix_with_files canonicalize_path lexical_path_key push_planned_path plan_path plan_paths
    plan_deny_read_acl_paths revoke_all materialize try_apply apply_loop apply_deny_read_acls
    load_state revoke_stale store_state reconcile sync_persistent_deny_read_acls map_get map_insert
    map_remove add_entry add_object remove_entry object
denying = tt

unfoldable host : Host
unfolding unix_with_files
host = unix_with_files []

abbrev requested : List FilePath
requested = codes "/A/" ∷ codes "/link" ∷ []

failed_test :
    apply_deny_read_acls acl host
      (codes "/A/" ∷ codes "/old" ∷ codes "/bad" ∷ [])
      (codes "/old" ∷ [])
    ≡ (err (cannot_create (codes "/bad")), codes "/old" ∷ [])
unfolding denying host
failed_test = refl

applied_test :
    apply_deny_read_acls acl host requested [] ≡ (ok requested, codes "/secret" ∷ codes "/A/" ∷ [])
unfolding denying host
applied_test = refl

abbrev before : Persistent acl
before = record {
  world = codes "/old" ∷ [];
  file = principals ((codes "S-1", codes "/old" ∷ []) ∷ []);
  can_store = true;
}

abbrev after : Persistent acl
after = record {
  world = codes "/secret" ∷ codes "/A/" ∷ [];
  file = principals ((codes "S-1", requested) ∷ []);
  can_store = true;
}

sync_test :
    sync_persistent_deny_read_acls acl host (codes "S-1") requested before ≡ (ok requested, after)
unfolding denying host
sync_test = refl

-- A stale path that leads to the object of a desired one takes its entry away.
abbrev linked : Persistent acl
linked = record {
  world = codes "/secret" ∷ [];
  file = principals ((codes "S-1", codes "/link" ∷ codes "/secret" ∷ []) ∷ []);
  can_store = true;
}

stale_link_test :
    (sync_persistent_deny_read_acls acl host (codes "S-1") (codes "/secret" ∷ []) linked).1.world
    ≡ []
unfolding denying host
stale_link_test = refl

plan_deny_read_acl_paths-IsPlan_example :
    IsPlan (with_canonical acl host [] requested) (plan_deny_read_acl_paths acl host [] requested)
plan_deny_read_acl_paths-IsPlan_example = plan_deny_read_acl_paths-IsPlan acl host [] requested

apply_deny_read_acls-err_example :
    acl-IsAcl.has_entry (codes "/old" ∷ []) (codes "/A/")
    ≡ acl-IsAcl.has_entry (codes "/old" ∷ []) (codes "/A/")
apply_deny_read_acls-err_example =
    apply_deny_read_acls-err acl acl-IsAcl host (codes "/A/" ∷ codes "/old" ∷ codes "/bad" ∷ [])
      (codes "/old" ∷ []) (codes "/old" ∷ []) (cannot_create (codes "/bad")) failed_test
      (codes "/A/")

apply_deny_read_acls-ok_example :
    ((q : FilePath)
      → Member q (plan_deny_read_acl_paths acl host [] requested)
      → Denies acl acl-IsAcl (codes "/secret" ∷ codes "/A/" ∷ []) q)
    × ((o : Text)
        → acl-IsAcl.is_denied [] o ≡ true
        → acl-IsAcl.is_denied (codes "/secret" ∷ codes "/A/" ∷ []) o ≡ true)
    × IsPlan (plan_deny_read_acl_paths acl host [] requested) requested
apply_deny_read_acls-ok_example =
    apply_deny_read_acls-ok acl acl-IsAcl host requested [] (codes "/secret" ∷ codes "/A/" ∷ [])
      requested applied_test

sync-IsReconciled_example :
    (state : DenyState) × (w : List Text) × (load_state before.file ≡ ok state)
    × (apply_deny_read_acls acl host requested (codes "/old" ∷ []) ≡ (ok requested, w))
    × IsReconciled acl acl-IsAcl (codes "S-1") state requested w after
sync-IsReconciled_example =
    sync-IsReconciled acl acl-IsAcl host (codes "S-1") requested requested before after sync_test

-- ===== src/Examples/Cap.antt =====
-- The SIDs of roots: src/cap.rs.
use yj_sandbox.Base.{◌≡◌, refl, sym, true, []}
use yj_sandbox.Base.Outcome.{ok}
use yj_sandbox.Base.Text.{
  Text, codes, text_eq, trim, starts_with, ends_with, digits, replace_char, to_ascii_lowercase,
  contains_text, texts_eq, texts_start_with,
}
use yj_sandbox.Base.Maps.{map_get, map_insert}
use yj_sandbox.Base.Host.{Host, path_eq, path_starts_with}
use yj_sandbox.Base.Unix.{unix_with_files, unix_join, unix_components}
use yj_sandbox.Paths.{canonicalize_path, canonical_path_key}
use yj_sandbox.Cap.{
  CapWorld, absent, holds, Ran, make_random_cap_sid_string, persist_caps, create_cap_sids,
  migrate_cap_sids, load_cap_sids, load_or_create_cap_sids, add_sid, sid_for_key,
  workspace_cap_sid_for_cwd, writable_root_cap_sid_for_path, workspace_write_cap_sid_for_root,
  workspace_write_root_contains_path, workspace_write_root_overlaps_path,
  workspace_write_root_specificity,
}
use yj_sandbox.Cap.Stable.{root_sid-keeps, root_sid-spelling}
use yj_sandbox.Examples.CapJson.{libraries, libraries-IsSerde}

granting : Unit {0}
unfolding text_eq trim starts_with ends_with digits replace_char to_ascii_lowercase contains_text
    texts_eq texts_start_with path_eq path_starts_with unix_with_files unix_join unix_components
    canonicalize_path canonical_path_key map_get map_insert make_random_cap_sid_string persist_caps
    create_cap_sids migrate_cap_sids load_cap_sids load_or_create_cap_sids add_sid sid_for_key
    workspace_cap_sid_for_cwd writable_root_cap_sid_for_path workspace_write_cap_sid_for_root
    libraries workspace_write_root_contains_path workspace_write_root_overlaps_path
    workspace_write_root_specificity
granting = tt

unfoldable host : Host
unfolding unix_with_files
host = unix_with_files []

abbrev start : CapWorld
start = record { file = absent; is_writable = true; drawn = 0 }

abbrev sid_of : Text → Text → CapWorld → Ran Text
sid_of cwd root w = workspace_write_cap_sid_for_root libraries host cwd root w

abbrev first_world : CapWorld
first_world = (sid_of (codes "/W") (codes "/w") start).1

abbrev second_world : CapWorld
second_world = (sid_of (codes "/w") (codes "/cache") first_world).1

first_test : sid_of (codes "/W") (codes "/w") start ≡ (ok (codes "S-1-5-21-8-9-10-11"), first_world)
unfolding granting host
first_test = refl

second_test :
    sid_of (codes "/w") (codes "/cache") first_world
    ≡ (ok (codes "S-1-5-21-12-13-14-15"), second_world)
unfolding granting host
second_test = refl

migrate_test :
    (load_or_create_cap_sids libraries
      (record start { file = holds (codes " S-1-5-21-9 ") })).1.drawn
    ≡ 4
unfolding granting
migrate_test = refl

same_key : canonical_path_key host (codes "/W") ≡ canonical_path_key host (codes "/w")
unfolding granting host
same_key = refl

root_sid-spelling_example :
    sid_of (codes "/w") (codes "/W") first_world ≡ (ok (codes "S-1-5-21-8-9-10-11"), first_world)
root_sid-spelling_example =
    root_sid-spelling libraries libraries-IsSerde host (codes "/W") (codes "/w") (codes "/w")
      (codes "/W") (codes "S-1-5-21-8-9-10-11") start first_world same_key (sym same_key) first_test

root_sid-keeps_example :
    sid_of (codes "/W") (codes "/w") second_world ≡ (ok (codes "S-1-5-21-8-9-10-11"), second_world)
root_sid-keeps_example =
    root_sid-keeps libraries libraries-IsSerde host (codes "/W") (codes "/w") (codes "/w")
      (codes "/cache") (codes "S-1-5-21-8-9-10-11") (codes "S-1-5-21-12-13-14-15") start first_world
      second_world first_test second_test

w_contains : workspace_write_root_contains_path host (codes "/w") (codes "/w/a/b") ≡ true
unfolding granting host
w_contains = refl

a_contains : workspace_write_root_contains_path host (codes "/w/a") (codes "/w/a/b") ≡ true
unfolding granting host
a_contains = refl

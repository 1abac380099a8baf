-- ===== src/Env/Proxies.antt =====
-- The variables that keep a child off the network: `apply_no_network_to_env` of src/env.rs.
use yj_sandbox.Base.{Bool, ◌≡◌, ◌∙◌, [], ◌∷◌, Option, some, if◌then◌else◌, arith}
use yj_sandbox.Base.Text.{Text, codes, text_eq}
use yj_sandbox.Base.Maps.{
  map_get, map_insert, map_insert_missing, map_get-insert_at, map_get-insert_missing,
}
use yj_sandbox.Paths.{or_other}
use yj_sandbox.Env.{EnvMap, offline_defaults, insert_defaults, set_offline}

insert_defaults-get :
    (defaults env : EnvMap) (key : Text)
    → map_get (insert_defaults defaults env) key ≡ or_other (map_get env key) (map_get defaults key)
unfolding insert_defaults map_get
insert_defaults-get [] env key = ground arith
insert_defaults-get ((k, v) ∷ defaults) env key = ground (
  arith,
  insert_defaults-get defaults (map_insert_missing k v env) key,
  map_get-insert_missing env k v key,
)

marked :
    (b : Bool) (o p d : Option Text) (v : Text)
    → o ≡ (if b then some v else p)
    → or_other o d ≡ (if b then some v else or_other p d)
marked b o p d v e = ground arith

-- Every variable: the marker is set, a variable that is there keeps its value, one that is missing
-- has its default, and no other variable appears.
pub set_offline-get :
    (env : EnvMap) (key : Text)
    → map_get (set_offline env) key ≡ (
        if text_eq (codes "SBX_NONET_ACTIVE") key
        then some (codes "1")
        else or_other (map_get env key) (map_get offline_defaults key))
unfolding set_offline
set_offline-get env key =
    insert_defaults-get offline_defaults (map_insert (codes "SBX_NONET_ACTIVE") (codes "1") env) key
    ∙ marked _ _ _ _ _ (map_get-insert_at env (codes "SBX_NONET_ACTIVE") (codes "1") key)

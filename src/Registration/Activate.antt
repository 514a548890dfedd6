-- ===== src/Registration/Activate.antt =====
-- The rest of `handle_register_provider`: ghosts and duplicates, the registration itself, and what
-- the user interfaces are told. A ghost's socket is closed by the server library; its own
-- disconnect is a step of its own.
use elab_core.Prelude.{
  String, Bool, not, Option, none, some, List, [], ◌∷◌, ◌++◌, ◌==◌, ◌&&◌, ◌||◌, truthy, any, opt_eq,
  if◌then◌else◌,
}
use elab_core.Prelude.Dict.{Dict, get}
use elab_core.Manifest.{compute_manifest_hash, Task, Manifest, resolve_device_id}
use elab_core.ConfigStore.{ConfigStore}
use elab_core.Registry.{
  Registry, manifests, registered, same_id, pop_manifest, add_provider, find_id_conflicts, is_nil,
}
use elab_core.Pairing.{Pairing, register_approved_secret, mark_ui_internal}
use elab_core.State.{
  ui_clients, session, provider_registered, available_providers, registration_error,
  registration_approved, State, emit, remove_provider, change_registered, apply_stored_config,
  apply_stored_device_config,
}
use elab_core.PluginUrls.{sanitize_plugin_urls}
use elab_core.Registration.Request.{Env, Paired, Verdict, authenticate, parked, cleared}

pub is_reregistration : String → String → Registry → Bool
is_reregistration sid manifest_id r = any (same_id manifest_id) (registered r sid)

-- an old session of the same device, known by its address or by its device id
pub is_ghost : String → Option String → Manifest → Bool
is_ghost device_id ip existing =
    opt_eq existing.client_ip ip || resolve_device_id existing == device_id

pub ghosts_in : String → String → String → Option String → List Manifest → List String
ghosts_in sid manifest_id device_id ip [] = []
ghosts_in sid manifest_id device_id ip (m ∷ ms) =
    let rest = ghosts_in sid manifest_id device_id ip ms in
    if same_id manifest_id m && is_ghost device_id ip m then sid ∷ rest else rest

pub ghost_sids : String → String → String → Option String → Dict (List Manifest) → List String
ghost_sids own manifest_id device_id ip [] = []
ghost_sids own manifest_id device_id ip ((sid, ms) ∷ d) =
    let rest = ghost_sids own manifest_id device_id ip d in
    if sid == own then rest else ghosts_in sid manifest_id device_id ip ms ++ rest

unfoldable pub remove_all : List String → State → State
remove_all [] s = s
remove_all (sid ∷ sids) s = remove_all sids (remove_provider sid s)

-- the refreshed registration of a manifest and the end of its ghosts
unfoldable pub clear_duplicates : String → String → String → Option String → State → State
clear_duplicates sid manifest_id device_id ip s =
    let ghosts = ghost_sids sid manifest_id device_id ip s.registry.providers in
    let dropped =
      if is_reregistration sid manifest_id s.registry
      then record s { registry = (pop_manifest sid manifest_id s.registry).0 }
      else s in
    remove_all ghosts dropped

unfoldable pub mark_tasks : List Task → Pairing → Pairing
mark_tasks [] p = p
mark_tasks (t ∷ ts) p = mark_tasks ts (mark_ui_internal t.id p)

unfoldable pub mark_sources : Bool → Manifest → Pairing → Pairing
mark_sources is_ui_internal m p =
    if is_ui_internal then mark_tasks m.tasks (mark_ui_internal m.id p) else p

unfoldable pub cache_secret : Bool → String → String → Option Paired → Pairing → Pairing
cache_secret auth_required sid device_id none p = p
cache_secret auth_required sid device_id (some c) p =
    if auth_required then register_approved_secret sid device_id c.secret_hex p else p

unfoldable pub apply_stored : Option ConfigStore → Manifest → Manifest
apply_stored store m = apply_stored_device_config store (apply_stored_config m store)

-- The manifest as it stands in the registry then: stamped, and with the stored configuration.
pub shown : Env → String → Option ConfigStore → Manifest → Manifest
shown env sid store m =
    apply_stored store (record m { sid = some sid; connected_at = some env.now })

unfoldable pub announce : Manifest → State → State
announce m s =
    let told = emit ui_clients (provider_registered m) s in
    emit ui_clients (available_providers (manifests told.registry.providers)) told

unfoldable pub hand_out : String → String → String → Option String → State → State
hand_out sid device_id hash none s = s
hand_out sid device_id hash (some secret) s =
    emit (session sid) (registration_approved device_id secret hash) s

-- the part of the handler after the authentication
unfoldable pub activate :
    Env
    → String
    → Manifest
    → String
    → Option String
    → Bool
    → Bool
    → Option Paired
    → Option String
    → State
    → State
activate env sid m hash ip auth_required is_ui_internal credential issued s =
    let device_id = resolve_device_id m in
    let unique = clear_duplicates sid m.id device_id ip s in
    let conflicts = find_id_conflicts sid m unique.registry in
    if not (is_nil conflicts)
    then emit (session sid) (registration_error conflicts) unique
    else (let (r, accepted) = add_provider env.schema_ok sid env.now m unique.registry in
        if not accepted
        then emit (session sid) (registration_error []) unique
        else (let stored = record unique {
          registry = change_registered sid m.id (apply_stored unique.config_store) r;
          pairing =
              mark_sources is_ui_internal m
                (cache_secret auth_required sid device_id credential unique.pairing);
        } in
            announce (shown env sid unique.config_store m)
              (hand_out sid device_id hash issued stored)))

unfoldable pub proceed :
    Env → String → Manifest → String → Option String → Bool → Bool → State × Verdict → State
proceed env sid m hash ip auth_required is_ui_internal (s, parked) = s
proceed env sid m hash ip auth_required is_ui_internal (s, cleared credential issued) =
    activate env sid m hash ip auth_required is_ui_internal credential issued s

-- the handler from the point where the device is known
unfoldable pub register_known : Env → String → String → Manifest → Option String → State → State
register_known env sid ip m token s =
    let hash = compute_manifest_hash env.hashing m in
    let is_ui_internal = m.is_ui_instance && opt_eq (get s.clients sid) (some "ui") in
    let auth_required = env.is_auth_required && not is_ui_internal in
    proceed env sid m hash (some ip) auth_required is_ui_internal
      (authenticate env sid m hash (some ip) auth_required token s)

-- the handler from the point where the plugin URLs are sanitized
unfoldable pub register_clean : Env → String → String → Manifest → State → State
register_clean env sid ip m s =
    if not (env.schema_ok m)
    then emit (session sid) (registration_error []) s
    else (let bare = record m { auto_approve_token = none } in
        if not (truthy (resolve_device_id bare))
        then emit (session sid) (registration_error []) s
        else register_known env sid ip bare m.auto_approve_token s)

-- `none` is an exception that leaves the handler, from the check of the plugin URLs.
unfoldable pub register_sanitized : Env → String → String → Option Manifest → State → Option State
register_sanitized env sid ip none s = none
register_sanitized env sid ip (some m) s = some (register_clean env sid ip m s)

unfoldable pub handle_register_provider : Env → String → String → Manifest → State → Option State
handle_register_provider env sid ip m s =
    if not (truthy m.id)
    then some (emit (session sid) (registration_error []) s)
    else register_sanitized env sid ip
        (sanitize_plugin_urls env.web ip (record m { client_ip = some ip })) s

-- ===== src/TaskMeta.antt =====
-- `TaskMetaStore` of elab_server/state_stores/task_meta.py and `set_device_name` of
-- elab_server/state.py: changes of the metadata of registered tasks and devices, kept by the device
-- itself or by the configuration store; with the handlers of
-- elab_server/socket_handlers/provider_handlers.py that make them.
pub mod Lookup
pub mod Persist
use elab_core.Prelude.{
  ℕ, String, Bool, true, false, not, Option, none, some, List, [], ◌∷◌, ◌++◌, ◌==◌, truthy, any,
  or_else, if◌then◌else◌,
}
use elab_core.Prelude.Dict.{Dict, set}
use elab_core.Manifest.{Task, Manifest, resolve_device_id, is_persist_capable}
use elab_core.ConfigStore
use elab_core.ConfigStore.{ConfigStore, Field, alias, color, decimals, set_task_field}
use elab_core.Registry.{Registry, manifests, get_task}
use elab_core.State.{
  State, emit, ui_clients, session, persist_config, persist_device_name, task_config_changed,
  device_config_changed, available_providers, first_with_task, name_device,
}

-- Has the manifest a task with this id?
abbrev pub has_task_id : String → Manifest → Bool
has_task_id k m = any (λ t. t.id == k) m.tasks

-- Loops that stop at the first task with the id, and change it in place.
pub change_in_tasks : String → (Task → Task) → List Task → List Task
change_in_tasks k f [] = []
change_in_tasks k f (t ∷ ts) =
    let rest = change_in_tasks k f ts in if t.id == k then f t ∷ ts else t ∷ rest

pub change_in_manifests : String → (Task → Task) → List Manifest → List Manifest
change_in_manifests k f [] = []
change_in_manifests k f (m ∷ ms) =
    let rest = change_in_manifests k f ms in
    if has_task_id k m then record m { tasks = change_in_tasks k f m.tasks } ∷ ms else m ∷ rest

pub change_in_providers : String → (Task → Task) → Dict (List Manifest) → Dict (List Manifest)
change_in_providers k f [] = []
change_in_providers k f ((sid, ms) ∷ d) =
    let rest = change_in_providers k f d in
    if any (has_task_id k) ms then (sid, change_in_manifests k f ms) ∷ d else (sid, ms) ∷ rest

pub change_task : String → (Task → Task) → Registry → Registry
change_task k f r = record r { providers = change_in_providers k f r.providers }

-- `changes`: a key that is absent is `none`; the values of `config` are texts.
pub record Changes : Type 0 where
  pub color : Option (Option String)
  pub name : Option String
  pub config : Dict String

-- `dict.update`
pub update : Dict String → Dict String → Dict String
update [] d = d
update ((k, v) ∷ changes) d = update changes (set d k v)

pub new_color : Option (Option String) → Option String → Option String
new_color none old = old
new_color (some c) old = c

pub new_name : Option String → String → String
new_name none old = old
new_name (some n) old = n

pub apply_changes : Changes → Task → Task
apply_changes c t = record t {
  color = new_color c.color t.color;
  name = new_name c.name t.name;
  config = update c.config t.config;
}

pub update_task_meta : String → Changes → State → State × Bool
update_task_meta task_id changes s =
    elim (first_with_task task_id (manifests s.registry.providers)) [
      | none ↦ (s, false)
      | some m ↦
          (record s { registry = change_task task_id (apply_changes changes) s.registry }, true)
    ]

-- `task[field] = value`
pub write_task : Field → Task → Task
write_task (alias v) t = record t { alias = v }
write_task (color v) t = record t { color = v }
write_task (decimals v) t = record t { decimals = v }

pub push_config : Option String → String → Field → State → State
push_config none task_id f s = s
push_config (some sid) task_id f s =
    if truthy sid then emit (session sid) (persist_config task_id f) s else s

pub store_config : String → Option String → Field → State → State
store_config task_id device_id f s = elim s.config_store [
  | none ↦ s
  | some c ↦ record s { config_store = some (set_task_field f task_id device_id c) }
]

-- The device that can keep its settings is told; for the others the dispatcher keeps them.
pub set_meta_field : Field → String → State → State × Bool
set_meta_field f task_id s = elim (first_with_task task_id (manifests s.registry.providers)) [
  | none ↦ (s, false)
  | some m ↦
      let changed = record s { registry = change_task task_id (write_task f) s.registry } in
      (
        if is_persist_capable m
            then push_config m.sid task_id f changed
            else store_config task_id (some (resolve_device_id m)) f changed,
        true,
      )
]

-- what the handlers of `set_task_alias`, `set_task_color` and `set_task_decimals` share
pub handle_set_task_field : Field → String → State → State
handle_set_task_field f task_id s =
    if not (truthy task_id)
    then s
    else (let (changed, done) = set_meta_field f task_id s in
        if done then emit ui_clients (task_config_changed task_id f) changed else changed)

pub handle_set_task_alias : String → Option String → State → State
handle_set_task_alias task_id v = handle_set_task_field (alias v) task_id

-- The flag `propagate`, which is only passed on to the user interfaces, is left out.
pub handle_set_task_color : String → Option String → State → State
handle_set_task_color task_id v = handle_set_task_field (color v) task_id

-- from the point where the value is a number, which is not negative, or `None`
pub handle_set_task_decimals : String → Option ℕ → State → State
handle_set_task_decimals task_id v = handle_set_task_field (decimals v) task_id

pub first_of_device : String → List Manifest → Option Manifest
first_of_device d [] = none
first_of_device d (m ∷ ms) = if resolve_device_id m == d then some m else first_of_device d ms

pub name_in_manifests : String → Option String → List Manifest → List Manifest
name_in_manifests d name [] = []
name_in_manifests d name (m ∷ ms) =
    let rest = name_in_manifests d name ms in
    if resolve_device_id m == d
    then record m { device = name_device name m.device } ∷ ms
    else m ∷ rest

pub name_in_providers : String → Option String → Dict (List Manifest) → Dict (List Manifest)
name_in_providers d name [] = []
name_in_providers d name ((sid, ms) ∷ rest) =
    let tail = name_in_providers d name rest in
    if any (λ m. resolve_device_id m == d) ms
    then (sid, name_in_manifests d name ms) ∷ rest
    else (sid, ms) ∷ tail

pub push_name : Option String → Option String → State → State
push_name none name s = s
push_name (some sid) name s =
    if truthy sid then emit (session sid) (persist_device_name name) s else s

pub store_name : String → Option String → State → State
store_name d name s = elim s.config_store [
  | none ↦ s
  | some c ↦ record s { config_store = some (ConfigStore.set_device_name d name c) }
]

-- The first registered provider of the device takes the name.
pub set_device_name : String → Option String → State → State × Bool
set_device_name d name s = elim (first_of_device d (manifests s.registry.providers)) [
  | none ↦ (s, false)
  | some m ↦
      let named = record s {
        registry = record (s.registry) {
          providers = name_in_providers d name s.registry.providers;
        };
      } in
      (if is_persist_capable m then push_name m.sid name named else store_name d name named, true)
]

pub handle_set_device_name : String → Option String → State → State
handle_set_device_name d name s =
    if not (truthy d)
    then s
    else (let (named, done) = set_device_name d name s in
        if done
        then emit ui_clients (available_providers (manifests named.registry.providers))
            (emit ui_clients (device_config_changed d name) named)
        else named)

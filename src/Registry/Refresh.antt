-- ===== src/Registry/Refresh.antt =====
-- `update_provider_manifest` of elab_server/state_stores/provider_registry.py, and the stored
-- overrides of elab_server/state_stores/task_meta.py.
use elab_core.Prelude.{
  ℕ, String, Bool, true, false, Option, none, some, List, [], ◌∷◌, truthy, or_else, if◌then◌else◌,
}
use elab_core.Prelude.Dict.{set}
use elab_core.Manifest.{Task, Manifest, is_persist_capable}
use elab_core.ConfigStore.{ConfigStore, TaskConfig, no_config, get_task_config}
use elab_core.Registry.{Registry, registered, index_manifest, unindex_manifest, same_id}

-- The overrides that a config store, where there is one, holds for a task.
abbrev pub stored_config : Option ConfigStore → String → TaskConfig
stored_config none task_id = no_config
stored_config (some c) task_id = get_task_config c task_id

-- `if 'alias' in stored: task['alias'] = stored['alias']`, and so for the other two
abbrev pub override_task : TaskConfig → Task → Task
override_task c t = record t {
  alias = or_else c.alias t.alias;
  color = or_else c.color t.color;
  decimals = or_else c.decimals t.decimals;
}

-- the loop that applies the stored overrides to the tasks of a manifest
unfoldable pub override_tasks : Option ConfigStore → List Task → List Task
override_tasks store [] = []
override_tasks store (t ∷ ts) =
    (if truthy t.id then override_task (stored_config store t.id) t else t)
    ∷ override_tasks store ts

-- A device that persists its own configuration ships the values that count.
unfoldable pub override_manifest : Option ConfigStore → Manifest → Manifest
override_manifest store m =
    if is_persist_capable m then m else record m { tasks = override_tasks store m.tasks }

unfoldable pub find_same : String → List Manifest → Option Manifest
find_same k [] = none
find_same k (m ∷ ms) = if same_id k m then some m else find_same k ms

-- `old_list[idx] = manifest` at the first manifest with that id
unfoldable pub replace_same : String → Manifest → List Manifest → List Manifest
replace_same k new [] = []
replace_same k new (m ∷ ms) =
    let rest = replace_same k new ms in if same_id k m then new ∷ ms else m ∷ rest

-- the manifest that takes the place of `old`
unfoldable pub refreshed : Option ConfigStore → String → ℕ → Manifest → Manifest → Manifest
refreshed store sid now m old =
    override_manifest store
      (record m { sid = some sid; connected_at = or_else old.connected_at (some now) })

unfoldable pub update_provider_manifest :
    Option ConfigStore → String → ℕ → Manifest → Registry → Registry × Bool
update_provider_manifest store sid now m r = elim (find_same m.id (registered r sid)) [
  | none ↦ (r, false)
  | some old ↦
      let new = refreshed store sid now m old in
      let indexed = index_manifest sid new (unindex_manifest old r) in
      (
        record indexed {
          providers = set indexed.providers sid (replace_same m.id new (registered r sid));
        },
        true,
      )
]

-- ===== src/TaskMeta/Persist.antt =====
-- Where a changed setting of a task is kept.
use elab_core.Prelude.{
  String, ◌≡◌, refl, true, false, Option, none, some, ◌==◌, if◌then◌else◌, arith, eq_iff,
  Bool-cases, Option-cases, inl, inr,
}
use elab_core.Manifest.{Task, Manifest, is_persist_capable, resolve_device_id}
use elab_core.ConfigStore.{
  ConfigStore, Field, alias, color, decimals, write_field, get_task_config, set_task_field,
}
use elab_core.ConfigStore.Tasks.{get_task_config-set_task_field}
use elab_core.Registry.{manifests, get_task}
use elab_core.State.{State, first_with_task, emit}
use elab_core.TaskMeta.{set_meta_field, change_task, write_task, push_config, store_config}
use elab_core.TaskMeta.Lookup.{on_found, get_task-change_task}

write_task-id : (f : Field) (t : Task) → (write_task f t).id ≡ t.id
unfolding write_task
write_task-id (alias v) t = refl
write_task-id (color v) t = refl
write_task-id (decimals v) t = refl

push_config_lem :
    (o : Option String) (task_id : String) (f : Field) (s : State)
    → let t = push_config o task_id f s in
      (t.registry ≡ s.registry) × (t.config_store ≡ s.config_store)
unfolding push_config emit
push_config_lem none k f s = (refl, refl)
push_config_lem (some sid) k f s = (ground arith, ground arith)

store_config_lem :
    (task_id : String) (device_id : Option String) (f : Field) (s : State)
    → let t = store_config task_id device_id f s in
      (t.registry ≡ s.registry)
      × ((c : ConfigStore)
          → s.config_store ≡ some c
          → t.config_store ≡ some (set_task_field f task_id device_id c))
unfolding store_config
store_config_lem k d f s = elim (Option-cases s.config_store) [
  | inl e ↦ (ground (arith, e), λ c h. ground (arith, e, h))
  | inr (c, e) ↦ (ground (arith, e), λ b h. ground (arith, e, h))
]

-- Setting a field of a registered task changes what a lookup of the task finds, and nothing else
-- that a lookup finds. The configuration store is left alone if the device keeps its settings
-- itself; otherwise it holds the new value for the task, next to the other fields it had.
pub set_meta_field_lem :
    (f : Field) (task_id : String) (s : State) (m : Manifest)
    → first_with_task task_id (manifests s.registry.providers) ≡ some m
    → let s' = (set_meta_field f task_id s).0 in
      ((q : String)
        → get_task s'.registry q ≡ (
            if task_id == q
            then on_found (write_task f) (get_task s.registry q)
            else get_task s.registry q))
      × (is_persist_capable m ≡ true → s'.config_store ≡ s.config_store)
      × ((c : ConfigStore)
          → is_persist_capable m ≡ false
          → s.config_store ≡ some c
          → (c' : ConfigStore) × (s'.config_store ≡ some c')
            × (get_task_config c' task_id ≡ write_field f (get_task_config c task_id)))
unfolding set_meta_field
set_meta_field_lem f k s m found =
    let changed = record s { registry = change_task k (write_task f) s.registry } in
    let look = get_task-change_task k (write_task f) (write_task-id f) s.registry in
    let pushed = push_config_lem m.sid k f changed in
    let stored = store_config_lem k (some (resolve_device_id m)) f changed in
    elim (Bool-cases (is_persist_capable m)) [
      | inl keeps ↦ (
        λ q. rw (found, keeps, set_meta_field) (rw (pushed.0) (look q)),
        λ h. rw (found, keeps, set_meta_field) (pushed.1),
        λ c h e. absurd (cc (h, keeps)),
      )
      | inr lacks ↦ (
        λ q. rw (found, lacks, set_meta_field) (rw (stored.0) (look q)),
        λ h. absurd (cc (h, lacks)),
        λ c h e. (
          set_task_field f k (some (resolve_device_id m)) c,
          rw (found, lacks, set_meta_field) (stored.1 c e),
          ground (
            arith,
            get_task_config-set_task_field f k (some (resolve_device_id m)) c k,
            eq_iff k k,
          ),
        ),
      )
    ]

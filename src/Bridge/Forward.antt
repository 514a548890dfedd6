-- ===== src/Bridge/Forward.antt =====
-- What the dispatcher sends to the nodes: `_forward_config_update`, `_forward_execute_command` and
-- `_forward_stream_data` of elab_bridge/bridge_daemon.py. Sending is taken to succeed.
use elab_core.Prelude.{
  String, not, Option, none, some, List, [], ◌∷◌, ◌==◌, ◌||◌, truthy, if◌then◌else◌,
}
use elab_core.Bridge.{
  Note, config_update, config_items, input_update, meta_update, stream_values, Bridge, publish,
}
use elab_core.Bridge.Handlers.{find_node_for_task}

abbrev to_task : String → Note → Bridge → Bridge
to_task task_id note b = elim (find_node_for_task task_id b.nodes) [
  | none ↦ b
  | some node_id ↦ if truthy node_id then publish node_id note b else b
]

-- `_forward_config_update`: the task is under one of two keys
pub forward_config_update : (target_task_id task_id key value : String) → Bridge → Bridge
forward_config_update target_task_id task_id key value b =
    let task = if truthy target_task_id then target_task_id else task_id in
    if truthy task then to_task task (config_update task key value) b else b

-- `command['payload']` as text, and its source
pub record NodeCommand : Type 0 where
  pub action : String
  pub source : String
  pub payload : String

pub note_of : String → NodeCommand → Option Note
note_of task_id c =
    if c.action == "update_input"
    then some (input_update task_id c.source)
    else if c.action == "update_config"
    then some (config_items task_id c.payload)
    else if c.action == "update_meta"
    then some (meta_update task_id c.payload)
    else none

-- `_forward_execute_command`; `remove_prefix` takes "prov_" off, if it is there
pub forward_execute_command :
    (remove_prefix : String → String) → (provider_id : String) → NodeCommand → Bridge → Bridge
forward_execute_command remove_prefix provider_id c b =
    if not (truthy provider_id) || not (truthy c.action)
    then b
    else let task_id = remove_prefix provider_id in
      elim (note_of task_id c) [ none ↦ b | some note ↦ to_task task_id note b ]

-- `_forward_stream_data`
pub forward_stream_data : (source_id : String) → List String → Option String → Bridge → Bridge
forward_stream_data source_id [] none b = b
forward_stream_data source_id [] (some value) b =
    if truthy source_id then publish "broadcast" (stream_values source_id (value ∷ [])) b else b
forward_stream_data source_id (v ∷ vs) value b =
    if truthy source_id then publish "broadcast" (stream_values source_id (v ∷ vs)) b else b

-- ===== src/Dispatch.antt =====
-- The workbench's handlers of elab_server/socket_handlers/provider_handlers.py that dispatch tasks
-- and commands: task requests and assignments, control commands, source links, deregistration and
-- metadata changes. A payload of another shape than the code accepts changes nothing and is left
-- out.
pub mod Exclusive
pub mod Control
use Prim.Native.String.{slice, len}
use Prim.Native.String.{◌++◌ as append}
use text.Mathlib.Text.{starts_with}
use elab_core.Prelude.{
  ℕ, String, Bool, true, false, not, Option, none, some, List, [], ◌∷◌, ◌++◌, ◌==◌, ◌&&◌, ◌||◌,
  truthy, any, opt_eq, or_else, is_some, if◌then◌else◌,
}
use elab_core.Prelude.Dict.{get, set, pop}
use elab_core.Prelude.TextSet.{TextSet, add}
use elab_core.Manifest.{Manifest}
use elab_core.ConfigStore.{ConfigStore}
use elab_core.Registry.{manifests, find_provider_sid, get_provider_manifest}
use elab_core.Links.{add_actuator_link, remove_actuator_link}
use elab_core.State.{
  State, Command, RecorderCall, write_control, add_manifest, ui_clients, session,
  available_providers, provider_disconnected, provider_meta_changed, task_rejected, execute_task,
  execute_command, emit, emit_disconnected, remove_manifest_from_sid, check_group_exclusivity,
}
use elab_core.TaskMeta.{Changes, update_task_meta}
use elab_core.Registry.Refresh.{update_provider_manifest}

abbrev pub prov_prefix : String
prov_prefix = "prov_"

-- The prefix is stripped at the front only.
pub strip_prov_prefix : String → String
strip_prov_prefix value =
    if starts_with value prov_prefix then slice value (len prov_prefix) (len value) else value

pub record_call : RecorderCall → State → State
record_call c s = record s { recorder_calls = s.recorder_calls ++ (c ∷ []) }

pub handle_task_request : String → String → State → State
handle_task_request provider_id body s = elim (find_provider_sid s.registry provider_id) [
  | none ↦ s
  | some sid ↦ emit (session sid) (execute_task provider_id body) s
]

-- the command that starts an assigned task
abbrev pub start_command : String → Command
start_command task_id = record { action = some "execute_task"; routing = none; payload = task_id }

pub send_start : String → Manifest → Option String → State → State
send_start task_id m none s = s
send_start task_id m (some sid) s =
    emit (session sid) (execute_command (append prov_prefix m.id) (start_command task_id)) s

pub forward_start : String → Option Manifest → State → State
forward_start task_id none s = s
forward_start task_id (some m) s = send_start task_id m (find_provider_sid s.registry m.id) s

-- `ui` is the session that asks.
pub handle_task_assigned : String → String → String → State → State
handle_task_assigned ui slot task_id s =
    if not (truthy task_id)
    then s
    else if not (check_group_exclusivity task_id s)
    then emit (session ui) (task_rejected task_id slot) s
    else (let assigned = record s {
      active_tasks_by_slot = set s.active_tasks_by_slot slot task_id;
    } in
        let noted = record_call (add_manifest task_id) assigned in
        forward_start task_id (get_provider_manifest noted.registry task_id) noted)

pub handle_task_unassigned : String → State → State
handle_task_unassigned slot s = record s { active_tasks_by_slot = pop s.active_tasks_by_slot slot }

pub supports_action : Option String → Manifest → Bool
supports_action none m = false
supports_action (some a) m =
    any (λ b. b == a) m.actions || any (λ t. any (λ b. b == a) t.actions) m.tasks

pub add_target : Option String → TextSet → TextSet
add_target none t = t
add_target (some sid) t = if truthy sid then add t sid else t

-- the sessions of the providers that declare the action
pub target_sids : Option String → List Manifest → TextSet
target_sids a [] = []
target_sids a (m ∷ ms) =
    let rest = target_sids a ms in if supports_action a m then add_target m.sid rest else rest

pub emit_to_all : List String → String → Command → State → State
emit_to_all [] provider_id c s = s
emit_to_all (sid ∷ sids) provider_id c s =
    emit_to_all sids provider_id c (emit (session sid) (execute_command provider_id c) s)

pub emit_direct : Option String → String → Command → State → State
emit_direct none provider_id c s = s
emit_direct (some sid) provider_id c s = emit (session sid) (execute_command provider_id c) s

-- `command.get('routing', 'direct')`
unfoldable pub routing_of : Command → String
routing_of c = elim c.routing [ none ↦ "direct" | some r ↦ r ]

-- the provider itself, else one that is registered under the prefixed id
pub direct_target : State → String → Option String
direct_target s provider_id =
    or_else (find_provider_sid s.registry (strip_prov_prefix provider_id))
      (find_provider_sid s.registry provider_id)

pub route_command : String → Command → State → State
route_command provider_id c s =
    if routing_of c == "broadcast"
    then emit_to_all (target_sids c.action (manifests s.registry.providers)) provider_id c s
    else if not (routing_of c == "direct")
    then s
    else emit_direct (direct_target s provider_id) provider_id c s

pub handle_control_command : String → Command → State → State
handle_control_command provider_id c s =
    if not (truthy provider_id)
    then s
    else route_command provider_id c
        (if s.recording then record_call (write_control provider_id c) s else s)

pub handle_link_source : String → String → State → State
handle_link_source source_id actuator_id s =
    let target = strip_prov_prefix actuator_id in
    if truthy source_id && truthy target
    then record s { links = add_actuator_link source_id target s.links }
    else s

pub handle_unlink_source : String → String → State → State
handle_unlink_source source_id actuator_id s =
    let target = strip_prov_prefix actuator_id in
    if truthy source_id && truthy target
    then record s { links = remove_actuator_link source_id target s.links }
    else s

pub tell_list : State → State
tell_list s = emit ui_clients (available_providers (manifests s.registry.providers)) s

-- A session may deregister only what it owns.
pub handle_deregister_provider : String → String → State → State
handle_deregister_provider sender provider_id s =
    let id = strip_prov_prefix provider_id in
    if not (truthy id)
    then s
    else if not (opt_eq (find_provider_sid s.registry id) (some sender))
    then s
    else (let (removed, gone) = remove_manifest_from_sid sender id s in
        tell_list (emit_disconnected gone removed))

pub change_task_meta : String → String → Option Changes → State → State
change_task_meta sender task_id none s = emit ui_clients (provider_meta_changed task_id) s
change_task_meta sender task_id (some changes) s =
    if not (truthy task_id)
    then emit ui_clients (provider_meta_changed task_id) s
    else if not (opt_eq (find_provider_sid s.registry task_id) (some sender))
    then s
    else emit ui_clients (provider_meta_changed task_id) (update_task_meta task_id changes s).0

-- `now` stamps a manifest that had no time of connection.
pub handle_provider_meta_changed :
    ℕ → String → Option Manifest → String → Option Changes → State → State
handle_provider_meta_changed now sender none task_id changes s =
    change_task_meta sender task_id changes s
handle_provider_meta_changed now sender (some m) task_id changes s =
    let (r, done) = update_provider_manifest s.config_store sender now m s.registry in
    if done then tell_list (record s { registry = r }) else s

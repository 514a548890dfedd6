-- ===== src/State.antt =====
-- `SystemState` of elab_server/state.py: the stores under one lock, the clients, the recording
-- flag and the slots of the user interface; with the messages that the server has sent and its calls of the recorder. A method
-- that emits appends to `sent`. Slots are texts.
pub mod Removal
pub mod Groups
pub mod Shared
use elab_core.Prelude.{
  ℕ, String, Bool, true, false, not, Option, none, some, List, [], ◌∷◌, ◌++◌, map, ◌==◌, ◌&&◌, ◌||◌,
  truthy, any, is_some, if◌then◌else◌,
}
use elab_core.Prelude.Dict.{Dict, get, set, pop}
use elab_core.Manifest.{Task, Device, Manifest, resolve_device_id, is_persist_capable}
use elab_core.ConfigStore
use elab_core.ConfigStore.{ConfigStore, Field, write_field, get_device_config}
use elab_core.Registry.{
  Registry, registered, manifests, same_id, find_task, pop_provider, pop_manifest,
}
use elab_core.Offsets.{Offsets}
use elab_core.Links.{Links, purge_for}
use elab_core.Pairing.{Pairing, forget_sources}
use elab_core.Registry.Refresh.{override_manifest, override_tasks, replace_same}

pub data Room : Type 0 where
  ui_clients : Room
  session : String → Room

-- `data['command']`; `payload` is what the dispatcher only passes on.
pub record Command : Type 0 where
  pub action : Option String
  pub routing : Option String
  pub payload : String

-- Time stamps and texts for humans are left out of the messages.
pub data Event : Type 0 where
  provider_disconnected provider_offline : String → Event
  provider_registered : Manifest → Event
  available_providers : List Manifest → Event
  pending_devices : List String → Event
  registration_error : List String → Event
  registration_pending : String → Event
  registration_revoked : String → Event
  registration_approved : (device_id secret manifest_hash : String) → Event
  approval_error : Event
  persist_config : (task_id : String) → Field → Event
  persist_device_name : Option String → Event
  task_config_changed : (task_id : String) → Field → Event
  device_config_changed : (device_id : String) → Option String → Event
  provider_meta_changed : (task_id : String) → Event
  task_rejected : (task_id slot : String) → Event
  execute_task : (provider_id body : String) → Event
  execute_command : (provider_id : String) → Command → Event
  session_status : (recording : Bool) → (session_id : Option String) → Event
  session_list : Event
  data_stream : (source_id : String) → (values : List String) → (timestamp : Option ℕ) → Event

-- what the recorder is asked to do
pub data RecorderCall : Type 0 where
  write_control : (provider_id : String) → Command → RecorderCall
  add_manifest : (task_id : String) → RecorderCall

pub record Message : Type 0 where
  pub room : Room
  pub event : Event

pub record State : Type 0 where
  pub registry : Registry
  pub links : Links
  pub pairing : Pairing
  pub config_store : Option ConfigStore
  -- session id to the type of the client
  pub clients : Dict String
  pub recording : Bool
  pub current_session_id : Option String
  pub active_tasks_by_slot : Dict String
  pub sent : List Message
  pub recorder_calls : List RecorderCall
  -- the module-wide cache of clock offsets
  pub time_offsets : Offsets

unfoldable pub emit : Room → Event → State → State
emit room event s = record s { sent = s.sent ++ (record { room = room; event = event } ∷ []) }

unfoldable pub emit_disconnected : List Manifest → State → State
emit_disconnected [] s = s
emit_disconnected (m ∷ ms) s = emit_disconnected ms (emit ui_clients (provider_disconnected m.id) s)

-- what `remove_provider` and `remove_manifest_from_sid` do under the lock
unfoldable pub forget_manifests : List Manifest → Registry → State → State
forget_manifests gone r s = record s {
  registry = r;
  pairing = forget_sources gone s.pairing;
  links = purge_for gone s.links;
}

pub remove_provider : String → State → State
remove_provider sid s =
    let (r, gone) = pop_provider sid s.registry in
    emit_disconnected gone (forget_manifests gone r s)

unfoldable pub remove_manifest_from_sid : String → String → State → State × List Manifest
remove_manifest_from_sid sid manifest_id s =
    let (r, gone) = pop_manifest sid manifest_id s.registry in (forget_manifests gone r s, gone)

-- A manifest object is shared by the registry and its callers: a change of its fields shows in the
-- registry. `f` is applied to the manifests of the session with that id.
pub change_registered : String → String → (Manifest → Manifest) → Registry → Registry
change_registered sid manifest_id f r = record r {
  providers =
      set r.providers sid (map (λ m. if same_id manifest_id m then f m else m) (registered r sid));
}

pub apply_stored_config : Manifest → Option ConfigStore → Manifest
apply_stored_config m store = override_manifest store m

pub name_device : Option String → Option Device → Option Device
name_device name none = some (record { id = ""; anchor = ""; name = name; persist_capable = none })
name_device name (some d) = some (record d { name = name })

-- the dispatcher's name for a device that does not keep one itself
pub apply_stored_device_config : Option ConfigStore → Manifest → Manifest
apply_stored_device_config none m = m
apply_stored_device_config (some c) m =
    if is_persist_capable m then m else elim (get_device_config c (resolve_device_id m)) [
      | none ↦ m
      | some name ↦
          if truthy name then record m { device = name_device (some name) m.device } else m
    ]

-- The group of a task; tasks without one share a default group.
abbrev pub default_group : String
default_group = "__default__"

unfoldable pub group_text : Option String → String
group_text none = ""
group_text (some g) = g

pub group_of : Task → String
group_of t = if truthy (group_text t.group) then group_text t.group else default_group

unfoldable pub first_with_task : String → List Manifest → Option Manifest
first_with_task task_id [] = none
first_with_task task_id (m ∷ ms) =
    if any (λ t. t.id == task_id) m.tasks then some m else first_with_task task_id ms

-- Does an active task of the same provider belong to another group?
pub clashes : List Task → String → List String → Bool
clashes tasks group [] = false
clashes tasks group (active ∷ rest) = elim (find_task active tasks) [
  | none ↦ clashes tasks group rest
  | some t ↦ not (group_of t == group) || clashes tasks group rest
]

unfoldable pub slot_tasks : Dict String → List String
slot_tasks = map (λ e. e.1)

-- `true` is "allowed"; the text of the reason is left out.
pub exclusive : Option Task → List Task → List String → Bool
exclusive none tasks active = true
exclusive (some requested) tasks active =
    if any (λ t. truthy (group_text t.group)) tasks
    then not (clashes tasks (group_of requested) active)
    else true

pub check_group_exclusivity : String → State → Bool
check_group_exclusivity task_id s =
    elim (first_with_task task_id (manifests s.registry.providers)) [
      | none ↦ true
      | some m ↦ exclusive (find_task task_id m.tasks) m.tasks (slot_tasks s.active_tasks_by_slot)
    ]

-- ===== src/Tests/Dispatches.antt =====
-- Runs of task assignment, control commands and metadata changes.
use elab_core.Prelude.{String, ◌≡◌, refl, true, Option, none, some, [], ◌∷◌, ◌++◌, ◌||◌, ◌⊎◌, inr}
use elab_core.Prelude.Dict.{get, set}
use elab_core.Prelude.TextSet.{has, add}
use elab_core.Manifest.{Manifest, has_provider, has_task}
use elab_core.ConfigStore.{Field, alias}
use elab_core.Registry.{
  manifests, find_task, registered, add_provider, find_id_conflicts, owner_of, is_foreign,
  store_manifest, index_manifest, index_tasks, unregister_all, same_id,
}
use elab_core.State.{State, Command, first_with_task, slot_tasks}
use elab_core.Dispatch.{handle_task_assigned, handle_control_command, strip_prov_prefix, routing_of}
use elab_core.Dispatch.Exclusive.{IsUnique, IsExclusiveState, handle_task_assigned-IsExclusive}
use elab_core.Dispatch.Control.{addressed, direct_lem}
use elab_core.Tests.{meter, with_both-IsConsistent}
use elab_core.Tests.Handlers.{busy, measuring}

abbrev free : State
free = record measuring { active_tasks_by_slot = [] }

ohms-IsUnique : IsUnique "ohms" (manifests free.registry.providers)
unfolding manifests find_task
ohms-IsUnique = inr (refl, tt)

free-IsExclusiveState : IsExclusiveState free
unfolding manifests slot_tasks
free-IsExclusiveState = (λ g a b t u p q f h. cc, tt)

handle_task_assigned-IsExclusive_example :
    IsExclusiveState (handle_task_assigned "ui" "slot1" "ohms" free)
handle_task_assigned-IsExclusive_example =
    handle_task_assigned-IsExclusive "ui" "slot1" "ohms" free ohms-IsUnique free-IsExclusiveState

abbrev stop : Option String → Command
stop routing = record { action = some "stop"; routing = routing; payload = "" }

broadcast_routing : routing_of (stop (some "broadcast")) ≡ "broadcast"
unfolding routing_of
broadcast_routing = refl

direct_routing : routing_of (stop none) ≡ "direct"
unfolding routing_of
direct_routing = refl

direct_lem_example :
    let s' = handle_control_command "prov_meter" (stop none) busy in
    let holds = λ (k sid : String).
      has_provider k (registered busy.registry sid) || has_task k (registered busy.registry sid) in
    (s'.sent ≡ busy.sent)
    ⊎ ((sid : String) × (s'.sent ≡ busy.sent ++ addressed "prov_meter" (stop none) (sid ∷ []))
        × ((holds (strip_prov_prefix "prov_meter") sid || holds "prov_meter" sid) ≡ true))
direct_lem_example =
    direct_lem "prov_meter" (stop none) busy with_both-IsConsistent refl direct_routing

abbrev renamed : Field
renamed = alias (some "battery")

abbrev meter_found : Manifest
meter_found = record meter { sid = some "s1"; connected_at = some 1 }

found : first_with_task "volts" (manifests busy.registry.providers) ≡ some meter_found
unfolding first_with_task manifests add_provider find_id_conflicts owner_of is_foreign
    store_manifest index_manifest index_tasks unregister_all same_id get set has add
found = refl

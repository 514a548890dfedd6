-- ===== src/Registration/Disconnect.antt =====
-- `handle_disconnect`. The time stamps of actuator routes, which it also drops, and the locks of the
-- socket library are left out.
use elab_core.Prelude.{String, List, [], ◌∷◌, ◌==◌, ◌&&◌, truthy, is_some, if◌then◌else◌}
use elab_core.Prelude.Dict.{Dict, get, pop}
use elab_core.Manifest.{Task, Manifest}
use elab_core.Registry.{registered, is_nil, find_provider_sid, has_sid}
use elab_core.Pairing.{remove_pending_provider, drop_session_auth}
use elab_core.Offsets.{drop_time_offsets_for}
use elab_core.State.{ui_clients, provider_offline, State, emit, remove_provider}
use elab_core.Registration.Operator.{tell_pending, tell_providers}

-- Who is told that a disconnected provider is offline: nobody, if a live session owns its id.
unfoldable pub tell_offline : List Manifest → State → State
tell_offline [] s = s
tell_offline (m ∷ ms) s =
    let owned = truthy m.id && is_some (find_provider_sid s.registry m.id) in
    tell_offline ms (if owned then s else emit ui_clients (provider_offline m.id) s)

unfoldable pub stale_tasks : List Task → List String → List String
stale_tasks [] rest = rest
stale_tasks (t ∷ ts) rest =
    let more = stale_tasks ts rest in if truthy t.id then t.id ∷ more else more

-- every source id that belonged to the session
unfoldable pub stale_source_ids : List Manifest → List String
stale_source_ids [] = []
stale_source_ids (m ∷ ms) =
    let more = stale_tasks m.tasks (stale_source_ids ms) in
    if truthy m.id then m.id ∷ more else more

unfoldable pub disconnect_provider : String → State → State
disconnect_provider sid s =
    if has_sid s.registry sid
    then (let gone = registered s.registry sid in
        let removed = remove_provider sid s in
        let dropped = record removed {
          pairing = (drop_session_auth sid removed.pairing).0;
          time_offsets = drop_time_offsets_for (stale_source_ids gone) removed.time_offsets;
        } in
        tell_providers (tell_offline gone dropped))
    else s

unfoldable pub disconnect_pending : String → State → State
disconnect_pending sid s =
    let (pairing, entry) = remove_pending_provider sid s.pairing in
    if is_some entry
    then tell_pending (record s { pairing = pairing })
    else record s { pairing = pairing }

pub count_ui : Dict String → List String
count_ui [] = []
count_ui ((sid, type) ∷ d) = let rest = count_ui d in if type == "ui" then sid ∷ rest else rest

-- With the last user interface the slots go too.
unfoldable pub disconnect_client : String → State → State
disconnect_client sid s =
    if is_some (get s.clients sid)
    then (let left = pop s.clients sid in
        if is_nil (count_ui left)
        then record s { clients = left; active_tasks_by_slot = [] }
        else record s { clients = left })
    else s

unfoldable pub handle_disconnect : String → State → State
handle_disconnect sid s = disconnect_client sid (disconnect_pending sid (disconnect_provider sid s))

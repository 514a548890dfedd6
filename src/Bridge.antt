-- ===== src/Bridge.antt =====
-- The bridge daemon of elab_bridge/bridge_daemon.py: local nodes register over a control socket, share
-- their samples through shared memory, and are forwarded to the dispatcher. A handler is one step on the
-- state. The blocks that exist in the system are `shm`; a time is a natural number of milliseconds.
pub mod Handlers
pub mod Forward
pub mod Leaks
pub mod NoLeak
pub mod Life
pub mod Stop
pub mod Approvals
use Prim.Native.String.{◌++◌ as append}
use elab_core.Prelude.{
  ℕ, String, ◌+◌, Bool, true, false, not, Option, none, some, List, [], ◌∷◌, ◌++◌, ◌==◌, ◌&&◌, ◌||◌,
  is_some, leb, ltb, any, truthy, if◌then◌else◌,
}
use elab_core.Prelude.Dict.{Dict, get, set, pop}
use elab_core.Manifest.{Manifest, Task, Device}
use elab_core.SharedMemory.{Channel, create}
use elab_core.Stream.{Payload}
use elab_core.ProviderAuth.{ProviderAuth, Machine, Files, init}

-- `ConnectedNode`; a channel is the name of its block
pub record Node : Type 0 where
  pub node_id : String
  pub manifest : Manifest
  pub last_seen : ℕ
  pub shm_channels : Dict String

-- what goes to the dispatcher
pub data Out : Type 0 where
  register_provider : Manifest → (auto_approve_token : Option String) → Out
  deregister_provider : (provider_id : String) → Out
  data_stream : Payload → Out
  update_config : (target action payload : String) → Out

-- what goes to the nodes; a body is passed on as it came
pub data Note : Type 0 where
  heartbeat : Note
  config_update : (task_id : String) → (key value : String) → Note
  config_items input_update meta_update : (task_id body : String) → Note
  stream_values : (source_id : String) → List String → Note

pub record Bridge : Type 0 where
  pub nodes : Dict Node
  pub node_auths : Dict ProviderAuth
  pub is_connected : Bool
  pub sent : List Out
  -- notes with their topics
  pub published : List (String × Note)
  pub shm : Dict (Channel String)
  -- the credentials directory, and the one-shot token of the environment
  pub files : Files
  pub auto_approve_token : Option String

-- What a handler takes from outside: the clock, the client's file system, the random part of a block's
-- name, which blocks the system refuses, and what a new block holds.
pub record Env : Type 0 where
  pub now : ℕ
  pub machine : Machine
  pub hex : ℕ → String
  pub refuses : String → Bool
  pub blank : List String

pub data Response : Type 0 where
  ok dropped : Response
  registered : Dict String → Response
  history : List String → Response
  invalid_manifest missing_id missing_node_id node_not_found task_not_found no_channel : Response
  missing_target missing_session session_not_found database_error not_sent unknown_type : Response

-- `CLIENT_TIMEOUT`
abbrev pub client_timeout : ℕ
client_timeout = 15000

pub is_alive : ℕ → Node → Bool
is_alive now n = ltb now (n.last_seen + client_timeout)

pub touch : ℕ → Node → Node
touch now n = record n { last_seen = now }

pub send : Out → Bridge → Bridge
send o b = record b { sent = b.sent ++ (o ∷ []) }

pub publish : String → Note → Bridge → Bridge
publish topic note b = record b { published = b.published ++ ((topic, note) ∷ []) }

-- `close` and `unlink` of the channels
pub release : Dict String → Dict (Channel String) → Dict (Channel String)
release [] shm = shm
release ((task_id, name) ∷ channels) shm = release channels (pop shm name)

-- `_deregister_node`
pub deregister_node : Node → Bridge → Bridge
deregister_node n b =
    let b' = record b { shm = release n.shm_channels b.shm } in
    if b.is_connected then send (deregister_provider n.node_id) b' else b'

pub with_device : Manifest → Manifest
with_device m = elim m.device [
  | none ↦ record m {
    device =
        some
          (record { id = m.id; anchor = "ephemeral"; name = none; persist_capable = some false });
  }
  | some d ↦ m
]

pub shm_name : Env → ℕ → String → String → String
shm_name e i node_id task_id =
    append "elab_shm_" (append node_id (append "_" (append task_id (append "_" (e.hex i)))))

-- One channel for each task with an id. The system refuses a name that is taken. `i` counts the tasks.
pub create_channels :
    Env
    → String
    → ℕ
    → List Task
    → Dict String
    → Dict (Channel String)
    → Dict String × Dict (Channel String)
create_channels e node_id i [] channels shm = (channels, shm)
create_channels e node_id i (t ∷ ts) channels shm =
    let name = shm_name e i node_id t.id in
    if not (truthy t.id) || e.refuses name || is_some (get shm name)
    then create_channels e node_id (i + 1) ts channels shm
    else create_channels e node_id (i + 1) ts (set channels t.id name)
        (set shm name (create e.blank))

-- the instance that a registration replaces
pub drop_node : String → Bridge → Bridge
drop_node node_id b = elim (get b.nodes node_id) [
  | none ↦ b
  | some n ↦ deregister_node n (record b { nodes = pop b.nodes node_id })
]

pub auth_for : Env → String → Bridge → ProviderAuth
auth_for e node_id b = elim (get b.node_auths node_id) [
  | none ↦ init e.machine b.files node_id true
  | some a ↦ a
]

pub store_node : Env → Manifest → Bridge → Bridge × Dict String
store_node e m b =
    let (channels, shm) = create_channels e m.id 0 m.tasks [] b.shm in
    let node : Node = record {
      node_id = m.id;
      manifest = m;
      last_seen = e.now;
      shm_channels = channels;
    } in
    (
      record b {
        nodes = set b.nodes m.id node;
        node_auths = set b.node_auths m.id (auth_for e m.id b);
        shm = shm;
      },
      channels,
    )

-- `send_register`, which takes the token out of the environment
pub forward_registration : Manifest → Dict String → Bridge → Bridge × Response
forward_registration m channels b =
    let b' = record b { auto_approve_token = none } in
    if b.is_connected
    then (send (register_provider m b.auto_approve_token) b', registered channels)
    else (b', not_sent)

-- `_handle_register`; the manifest is none if the message has none
pub handle_register : Env → Option Manifest → Bridge → Bridge × Response
handle_register e none b = (b, invalid_manifest)
handle_register e (some m) b =
    if not (truthy m.id)
    then (b, missing_id)
    else let (b', channels) = store_node e (with_device m) (drop_node m.id b) in
      forward_registration (with_device m) channels b'

-- `_handle_deregister`
pub handle_deregister : Option String → Bridge → Bridge × Response
handle_deregister none b = (b, missing_node_id)
handle_deregister (some node_id) b =
    if not (truthy node_id) then (b, missing_node_id) else elim (get b.nodes node_id) [
      | none ↦ (b, node_not_found)
      | some n ↦ (deregister_node n (record b { nodes = pop b.nodes node_id }), ok)
    ]

-- `stop`, before the sockets are closed
pub deregister_all : Dict Node → Bridge → Bridge
deregister_all [] b = b
deregister_all ((k, n) ∷ ns) b = deregister_all ns (deregister_node n b)

pub stop : Bridge → Bridge
stop b = record (deregister_all b.nodes b) { nodes = []; is_connected = false }

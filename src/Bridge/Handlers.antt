-- ===== src/Bridge/Handlers.antt =====
-- The control messages of the nodes and the pairing messages of the dispatcher:
-- `_handle_control_message` and what it calls in elab_bridge/bridge_daemon.py, one pass of
-- `_heartbeat_loop`, and the handlers of `_connect_dispatcher`.
use elab_core.Prelude.{
  ℕ, String, Bool, not, Option, none, some, List, [], ◌∷◌, ◌==◌, ◌||◌, any, truthy, if◌then◌else◌,
}
use elab_core.Prelude.Dict.{Dict, get, set, pop}
use elab_core.Manifest.{Manifest}
use elab_core.SharedMemory.{Channel, read_latest}
use elab_core.Stream.{Payload}
use elab_core.ProviderAuth.{ProviderAuth, Signer, sign, has_secret, on_approved, forget}
use elab_core.Bridge.{
  Node, data_stream, update_config, heartbeat, Bridge, Env, Response, ok, dropped, history,
  node_not_found, task_not_found, no_channel, missing_target, missing_session, session_not_found,
  database_error, unknown_type, is_alive, touch, send, publish, deregister_node, handle_register,
  handle_deregister,
}

-- `_find_node_for_task`
pub find_node_for_task : String → Dict Node → Option String
find_node_for_task task_id [] = none
find_node_for_task task_id ((node_id, n) ∷ ns) =
    if any (λ t. t.id == task_id) n.manifest.tasks
    then some node_id
    else find_node_for_task task_id ns

-- A message about new samples; `body` gives the packet's text for the samples and the time.
pub record DataAvailable : Type 0 where
  pub task_id : String
  pub count : ℕ
  pub source_node : Option String
  pub body : List String → String

pub sender_of : DataAvailable → Bridge → Option String
sender_of x b = elim x.source_node [
  | none ↦ find_node_for_task x.task_id b.nodes
  | some id ↦ if truthy id then some id else find_node_for_task x.task_id b.nodes
]

abbrev pub packet : DataAvailable → List String → Payload
packet x samples = record { source_id = x.task_id; auth = none; body = x.body samples }

unfoldable pub forward_signed : Signer → ProviderAuth → ℕ → Payload → Bridge → Bridge × Response
forward_signed k a now x b = elim (sign k a now x) [
  | none ↦ (b, dropped)
  | some signed ↦ (send (data_stream signed) b, ok)
]

unfoldable pub forward_samples :
    Signer → ℕ → String → DataAvailable → List String → Bridge → Bridge × Response
forward_samples k now node_id x [] b = (b, ok)
forward_samples k now node_id x (v ∷ vs) b = elim (get b.node_auths node_id) [
  | none ↦ (b, dropped)
  | some a ↦ if has_secret a then forward_signed k a now (packet x (v ∷ vs)) b else (b, dropped)
]

pub samples_of : Option (Channel String) → ℕ → List String
samples_of none count = []
samples_of (some c) count = read_latest count c

unfoldable pub read_node :
    Signer → Env → ℕ → DataAvailable → String → Node → Bridge → Bridge × Response
read_node k e now x node_id n b = elim (get n.shm_channels x.task_id) [
  | none ↦ (b, no_channel)
  | some name ↦
      let b' = record b { nodes = set b.nodes node_id (touch e.now n) } in
      forward_samples k now node_id x (samples_of (get b.shm name) x.count) b'
]

-- `_handle_data_available`; `now` is the clock of the signature
unfoldable pub handle_data_available : Signer → Env → ℕ → DataAvailable → Bridge → Bridge × Response
handle_data_available k e now x b = elim (sender_of x b) [
  | none ↦ (b, task_not_found)
  | some node_id ↦ elim (get b.nodes node_id) [
    | none ↦ (b, node_not_found)
    | some n ↦ read_node k e now x node_id n b
  ]
]

-- `_handle_actor_command`
unfoldable pub handle_actor_command : (target action payload : String) → Bridge → Bridge × Response
handle_actor_command target action payload b =
    if not (truthy target) || not (truthy action)
    then (b, missing_target)
    else (send (update_config target action payload) b, ok)

-- What `_handle_fetch_history` takes from outside: is there such a session, and the result of the query
-- on its database, none if SQLite fails.
pub record History : Type 0 where
  pub is_file : String → Bool
  pub query : (session_id source_id : String) → Option (List (Option String))

pub present : List (Option String) → List String
present [] = []
present (none ∷ vs) = present vs
present (some v ∷ vs) = v ∷ present vs

pub handle_fetch_history : History → (session_id source_id : String) → Response
handle_fetch_history h session_id source_id =
    if not (truthy session_id) || not (truthy source_id)
    then missing_session
    else if not (h.is_file session_id)
    then session_not_found
    else elim (h.query session_id source_id) [
      | none ↦ database_error
      | some values ↦ history (present values)
    ]

-- `_handle_heartbeat_ack`
unfoldable pub handle_heartbeat_ack : Env → String → Bridge → Bridge × Response
handle_heartbeat_ack e node_id b = elim (get b.nodes node_id) [
  | none ↦ (b, ok)
  | some n ↦ (record b { nodes = set b.nodes node_id (touch e.now n) }, ok)
]

pub data Message : Type 0 where
  register : Option Manifest → Message
  deregister : Option String → Message
  data_available : DataAvailable → Message
  actor_command : (target action payload : String) → Message
  fetch_history : (session_id source_id : String) → Message
  heartbeat_ack : (node_id : String) → Message
  other : (type : String) → Message

-- `_handle_control_message`
unfoldable pub handle_control_message :
    Signer → Env → History → ℕ → Message → Bridge → Bridge × Response
handle_control_message k e h now (register m) b = handle_register e m b
handle_control_message k e h now (deregister id) b = handle_deregister id b
handle_control_message k e h now (data_available x) b = handle_data_available k e now x b
handle_control_message k e h now (actor_command t a p) b = handle_actor_command t a p b
handle_control_message k e h now (fetch_history s i) b = (b, handle_fetch_history h s i)
handle_control_message k e h now (heartbeat_ack id) b = handle_heartbeat_ack e id b
handle_control_message k e h now (other t) b = (b, unknown_type)

-- One pass of `_heartbeat_loop`: who is alive is asked, who is not is dropped.
unfoldable pub probe : ℕ → Dict Node → Bridge → Bridge
probe now [] b = b
probe now ((id, n) ∷ ns) b = probe now ns (if is_alive now n then publish id heartbeat b else b)

pub dead_nodes : ℕ → Dict Node → List String
dead_nodes now [] = []
dead_nodes now ((id, n) ∷ ns) =
    let rest = dead_nodes now ns in if is_alive now n then rest else id ∷ rest

unfoldable pub drop_nodes : List String → Bridge → Bridge
drop_nodes [] b = b
drop_nodes (id ∷ ids) b = drop_nodes ids (elim (get b.nodes id) [
  | none ↦ b
  | some n ↦ deregister_node n (record b { nodes = pop b.nodes id })
])

unfoldable pub heartbeat_pass : ℕ → Bridge → Bridge
heartbeat_pass now b = drop_nodes (dead_nodes now b.nodes) (probe now b.nodes b)

-- "registration_approved", with a device id and a secret that are texts
unfoldable pub on_registration_approved : Env → (device_id secret : String) → Bridge → Bridge
on_registration_approved e device_id secret b = elim (get b.node_auths device_id) [
  | none ↦ b
  | some a ↦
      let (a', files) = on_approved e.machine (some secret) a b.files in
      record b { node_auths = set b.node_auths device_id a'; files = files }
]

-- "registration_revoked"
unfoldable pub on_registration_revoked : Env → (device_id : String) → Bridge → Bridge
on_registration_revoked e device_id b = elim (get b.node_auths device_id) [
  | none ↦ b
  | some a ↦ record b {
    node_auths = pop b.node_auths device_id;
    files = (forget e.machine a b.files).1;
  }
]

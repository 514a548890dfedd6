-- ===== src/Lib.antt =====
-- The dispatcher of the ELAB laboratory platform (elab_server): devices connect over sockets, send
-- a manifest of their tasks, are paired by an operator, and are routed to by the ids of their
-- manifests.
--
-- The parts and their modules, with the files of the repository that they model:
--   Manifest: the manifest records; device identity (elab_server/auth.py).
--   Registry: `ProviderRegistry`, the manifests of each session with two lookup indices
--     (elab_server/state_stores/provider_registry.py), and `apply_stored_config` of
--     elab_server/state_stores/task_meta.py.
--   ConfigStore: the SQLite tables as dictionaries, a method as one transaction
--     (elab_server/config_store.py).
--   Links: actuator links (elab_server/state_stores/actuator_links.py).
--   Pairing: pending devices, secrets and one-shot tokens
--     (elab_server/state_stores/pairing_store.py).
--   State: `SystemState`, the stores under one lock (elab_server/state.py).
--   PluginUrls: the allow-list of plugin URLs (elab_server/socket_handlers/_helpers.py).
--   Registration: the pairing handlers (elab_server/socket_handlers/auth_handlers.py), a handler
--     as one step on the state, with the messages that it sends.
--   Stream: the authentication gate of `data_stream` (elab_server/socket_handlers/provider_handlers.py,
--     `verify_payload` of elab_server/auth.py).
--   DataStream: `handle_data_stream` (elab_server/socket_handlers/provider_handlers.py), from the gate to
--     the recorder, the user interface and the actuators.
--   Offsets: the cache of clock offsets (elab_server/socket_handlers/_helpers.py).
--   TaskMeta: `TaskMetaStore` (elab_server/state_stores/task_meta.py) and the handlers that set names,
--     aliases, colours and decimals.
--   Dispatch: task assignment, control commands, links, deregistration
--     (elab_server/socket_handlers/provider_handlers.py).
--   Recorder: `SessionRecorder`, its buffer and the tables of a session's database
--     (elab_server/recorder.py).
--   Replayer: `SessionReplayer`, loading a session and one round of its loop
--     (elab_server/replayer.py), on the tables of the recorder.
--   SharedMemory: `SharedMemoryChannel`, a ring of samples (elab_api/shared_memory_channel.py).
--   ProviderAuth: the client's side of the pairing and of the signatures
--     (elab_clients_core/python/shared/auth.py).
--   Bridge: `BridgeDaemon`, local nodes with their channels, forwarded to the dispatcher
--     (elab_bridge/bridge_daemon.py); it uses SharedMemory and ProviderAuth.
--   ProcessManager: `ClientProcessManager`, client scripts as processes
--     (elab_server/process_manager.py).
--   Routing: the route from a source to linked actuators
--     (elab_server/socket_handlers/provider_handlers.py).
--   Prelude: dictionaries, sets, slices, tests and lists. Tests: concrete runs.
--
-- How they interact: a handler calls `SystemState`, which calls the stores; every store works under
-- the one lock of the context, so a call is one step. A dictionary is a list of entries in
-- insertion order, as Python keeps it. A method that changes a manifest object in place is written
-- as a change of the registered manifest (`State.change_registered`).
--
-- Parameters: the clock, fresh secrets and the schema check (`Registration.Request.Env`),
-- `json.dumps`, SHA-256 and the JSON object behind a manifest (`Manifest.Hashing`), HMAC-SHA256 (`Stream.Keys`), `urlparse` and
-- `str.lower` (`PluginUrls.Web`). Nothing is assumed of them. All loops run over lists that the state holds, so there is no fuel; the loop of the replayer is a step, `Replayer.run_round`, and its runs are lists of steps.
-- How the statements of SQLite end is a parameter too (`Recorder.Disk`), as are the sessions on disk
-- (`Replayer.Load.Sessions`) and what a round of the replayer reads (`Replayer.Round`), and the
-- decoders, base64 and the clocks of the data path (`DataStream.Env`).
--
-- Not modelled: sockets, threads and SQLite themselves, time stamps and texts in messages, the
-- measurement uncertainty, decoders, local nodes, the device clients and the workbench.
pub mod Prelude
pub mod Manifest
pub mod Registry
pub mod ConfigStore
pub mod Links
pub mod Pairing
pub mod State
pub mod PluginUrls
pub mod Registration
pub mod Bridge
pub mod DataStream
pub mod Dispatch
pub mod Offsets
pub mod ProcessManager
pub mod ProviderAuth
pub mod Recorder
pub mod Replayer
pub mod Routing
pub mod SharedMemory
pub mod Stream
pub mod TaskMeta
pub mod Tests

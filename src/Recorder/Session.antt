-- ===== src/Recorder/Session.antt =====
-- The start and the end of a recording, and the manifests that it keeps: `start`, `stop`,
-- `_write_time_bounds` and `add_manifest_if_recording` of elab_server/recorder.py.
use Prim.Native.String.{◌++◌ as append}
use elab_core.Prelude.{
  ℕ, String, true, false, not, Option, none, some, List, [], ◌∷◌, ◌==◌, min, max, is_some,
  if◌then◌else◌,
}
use elab_core.Prelude.Dict.{Dict, get, set}
use elab_core.Manifest.{Manifest}
use elab_core.Registry.{get_provider_manifest}
use elab_core.State.{State, emit, ui_clients, session_status, session_list}
use elab_core.Recorder.{
  Row, Tables, no_tables, Connection, Fault, Recorder, LogEvent, Payload, Disk, Clock, execute_many,
  commit, flush_locked, write, default,
}

-- What a session takes from outside: `str.strip`, `json.dumps` of a manifest, and `str` of a time.
pub record Formats : Type 0 where
  pub strip : String → String
  pub dumps : Manifest → String
  pub show : ℕ → String

-- The clock at the start: the text of the time, and the readings that follow.
pub record StartClock : Type 0 where
  pub time_str : String
  pub created_at : ℕ
  pub last_flush : ℕ
  pub event : ℕ
  pub write : Clock

pub data Started : Type 0 where
  already_recording : Started
  started : (session_id : String) → Started

pub data Stopped : Type 0 where
  not_recording : Stopped
  stopped : (session_id : Option String) → Stopped

abbrev no_payload : Payload
no_payload = record { distribution = none; start_time = none; timestamp = none; source_id = none }

-- an event of the recorder's own; its text is not modelled
abbrev pub marker : String → ℕ → LogEvent
marker kind timestamp = record {
  kind = some kind;
  timestamp = some timestamp;
  payload = no_payload;
  text = kind;
}

pub session_name : Formats → String → Option String → String
session_name f time_str none = time_str
session_name f time_str (some name) =
    if f.strip name == "" then time_str else append time_str (append "_" (f.strip name))

-- "INSERT OR IGNORE"
unfoldable pub insert_manifest : String × String → Tables → Tables
insert_manifest (pid, text) t =
    if is_some (get t.manifests pid) then t else record t { manifests = set t.manifests pid text }

unfoldable pub insert_manifests : List (String × String) → Tables → Tables
insert_manifests [] t = t
insert_manifests (m ∷ ms) t = insert_manifests ms (insert_manifest m t)

unfoldable pub insert_meta : String × String → Tables → Tables
insert_meta (key, value) t = record t { session_meta = set t.session_meta key value }

-- the manifests of the providers that own the active tasks, once each
pub manifests_to_store : Formats → List (String × String) → State → Dict String → Dict String
manifests_to_store f [] s found = found
manifests_to_store f ((slot, task_id) ∷ slots) s found =
    manifests_to_store f slots s (elim (get_provider_manifest s.registry task_id) [
      | none ↦ found
      | some m ↦ set found m.id (f.dumps m)
    ])

-- the tables of a session's file after `start`
unfoldable pub prepared : Formats → StartClock → State → Tables → Tables
prepared f k s t = insert_manifests (manifests_to_store f s.active_tasks_by_slot s []) (
    insert_meta ("created_at_ms", f.show k.created_at)
      (insert_meta ("origin", "recorded") (insert_meta ("schema_version", "1") t)))

pub open_file : Dict Tables → String → Tables
open_file files path = default (get files path) no_tables

unfoldable pub start_session :
    Formats → Disk → StartClock → String → Recorder → State → Recorder × State × Started
start_session f d k session_id r s =
    let tables = prepared f k s (open_file r.files session_id) in
    let s' = record s { recording = true; current_session_id = some session_id } in
    let r' = record r {
      conn = some (record { committed = tables; working = tables });
      db_path = session_id;
      buffer = [];
      pending_sources = [];
      known_sources = [];
      last_flush = k.last_flush;
    } in
    (
      write true d k.write (marker "SESSION_START" k.event) none none r',
      emit ui_clients (session_status true (some session_id)) s',
      started session_id,
    )

-- The statements of `start` are taken to succeed.
unfoldable pub start :
    Formats → Disk → StartClock → Option String → Recorder → State → Recorder × State × Started
start f d k name r s =
    if s.recording
    then (r, s, already_recording)
    else start_session f d k (session_name f k.time_str name) r s

-- MIN and MAX of the times of the rows of type "DATA_STREAM"
unfoldable pub time_bounds : List Row → Option (ℕ × ℕ)
time_bounds [] = none
time_bounds (row ∷ rows) =
    let rest = time_bounds rows in
    if row.kind == "DATA_STREAM"
    then elim rest [
      | none ↦ some (row.event_time, row.event_time)
      | some (a, b) ↦ some (min row.event_time a, max row.event_time b)
    ]
    else rest

-- How the statements that write the bounds end.
pub record BoundsFaults : Type 0 where
  pub insert_fault : Fault
  pub commit_fault : Fault

unfoldable pub store_bounds : Formats → BoundsFaults → ℕ × ℕ → Connection → Connection
store_bounds f b (first, last) c =
    let rows = ("session_start_ms", f.show first) ∷ ("session_end_ms", f.show last) ∷ [] in
    let (c', ok) = execute_many b.insert_fault insert_meta rows c in
    if ok then (commit b.commit_fault c').0 else c'

unfoldable pub bound_session : Formats → BoundsFaults → Connection → Connection
bound_session f b c = elim (time_bounds c.working.session_log) [
  | none ↦ c
  | some bounds ↦ store_bounds f b bounds c
]

unfoldable pub write_time_bounds : Formats → BoundsFaults → Recorder → Recorder
write_time_bounds f b r = elim r.conn [
  | none ↦ r
  | some c ↦ record r { conn = some (bound_session f b c) }
]

-- What was not committed is gone.
unfoldable pub close : Recorder → Recorder
close r = elim r.conn [
  | none ↦ r
  | some c ↦ record r { conn = none; files = set r.files r.db_path c.committed }
]

-- `at_write` and `at_flush` are how the disk behaves in the last write and in the flush after it.
unfoldable pub stop :
    Formats → Disk → Disk → BoundsFaults → ℕ → Clock → Recorder → State → Recorder × State × Stopped
stop f at_write at_flush b event k r s =
    if not s.recording
    then (r, s, not_recording)
    else let written = write true at_write k (marker "SESSION_END" event) none none r in
      let r' = close (write_time_bounds f b (flush_locked at_flush written)) in
      let s' = record s { recording = false; current_session_id = none } in
      (
        r',
        emit ui_clients session_list (emit ui_clients (session_status false none) s'),
        stopped s.current_session_id,
      )

unfoldable pub add_manifest : Formats → BoundsFaults → Manifest → Connection → Connection
add_manifest f b m c =
    let (c', ok) = execute_many b.insert_fault insert_manifest ((m.id, f.dumps m) ∷ []) c in
    if ok then (commit b.commit_fault c').0 else c'

unfoldable pub add_manifest_if_recording :
    Formats → BoundsFaults → String → Recorder → State → Recorder
add_manifest_if_recording f b task_id r s = if not s.recording then r else elim r.conn [
  | none ↦ r
  | some c ↦ elim (get_provider_manifest s.registry task_id) [
    | none ↦ r
    | some m ↦ record r { conn = some (add_manifest f b m c) }
  ]
]

-- ===== src/Recorder.antt =====
-- `SessionRecorder` of elab_server/recorder.py: the buffer of events and the tables of the session's
-- database. A time is a natural number of milliseconds. SQLite is a pair of tables: as they are on
-- disk, and as the open transaction sees them. Which of its statements fail, and how, is a parameter.
pub mod Session
pub mod Flush
pub mod Lossless
pub mod Settled
pub mod Path
pub mod Lifecycle
pub mod Refine
pub mod Retry
use elab_core.Prelude.{
  ℕ, String, ◌+◌, Bool, true, false, not, Option, none, some, List, [], ◌∷◌, ◌++◌, ◌==◌, ◌&&◌, ◌||◌,
  opt_eq, is_some, length, leb, take, if◌then◌else◌, or_else,
}
use elab_core.Prelude.Dict.{Dict, get, set}

-- A row of `session_log`; `seq` is the position in the table.
pub record Row : Type 0 where
  pub event_time : ℕ
  pub source_id : String
  pub distribution : String
  pub kind : String
  pub payload : String
  pub binary_data : Option String
  pub ingest_ts : ℕ

pub record Tables : Type 0 where
  pub session_log : List Row
  -- the provider's id to its manifest
  pub manifests : Dict String
  pub session_meta : Dict String
  -- the source's id to its time source and the time of its first event
  pub session_sources : Dict (String × ℕ)

abbrev pub no_tables : Tables
no_tables = record { session_log = []; manifests = []; session_meta = []; session_sources = [] }

-- An open connection: what is committed, and what the transaction has changed.
pub record Connection : Type 0 where
  pub committed : Tables
  pub working : Tables

-- How a statement ends: it succeeds, or it fails after some of its rows, or it fails and SQLite
-- rolls the transaction back.
pub data Fault : Type 0 where
  fine : Fault
  fails_after : ℕ → Fault
  rolls_back : Fault

-- `buffer_size` and `flush_interval` are 200 and 0.5 seconds
pub record Recorder : Type 0 where
  pub conn : Option Connection
  -- the file of the last session, by the session's id
  pub db_path : String
  pub buffer : List Row
  pub pending_sources : Dict (String × ℕ)
  pub known_sources : Dict String
  pub last_flush : ℕ
  -- the database files, as they were left by the last close
  pub files : Dict Tables

-- The fields of an event's payload that `write` reads. A missing payload is one without fields.
pub record Payload : Type 0 where
  pub distribution : Option String
  pub start_time : Option ℕ
  pub timestamp : Option ℕ
  pub source_id : Option String

pub record LogEvent : Type 0 where
  pub kind : Option String
  pub timestamp : Option ℕ
  pub payload : Payload
  -- the result of `json.dumps`
  pub text : String

-- What a flush takes from outside: how its three statements end, and the clock after them.
pub record Disk : Type 0 where
  pub sources_fault : Fault
  pub log_fault : Fault
  pub commit_fault : Fault
  pub clock : ℕ

-- `executemany` of a statement whose effect for one value is `insert`
unfoldable pub insert_all {ℓ} : {A : Type ℓ} → (A → Tables → Tables) → List A → Tables → Tables
insert_all insert [] t = t
insert_all insert (x ∷ xs) t = insert_all insert xs (insert x t)

-- the connection after the statement, and whether it has succeeded
unfoldable pub execute_many {ℓ} :
    {A : Type ℓ} → Fault → (A → Tables → Tables) → List A → Connection → Connection × Bool
execute_many fine insert xs c = (record c { working = insert_all insert xs c.working }, true)
execute_many (fails_after n) insert xs c =
    (record c { working = insert_all insert (take n xs) c.working }, false)
execute_many rolls_back insert xs c = (record c { working = c.committed }, false)

unfoldable pub commit : Fault → Connection → Connection × Bool
commit fine c = (record c { committed = c.working }, true)
commit (fails_after n) c = (c, false)
commit rolls_back c = (record c { working = c.committed }, false)

pub insert_source : String × (String × ℕ) → Tables → Tables
insert_source (sid, entry) t = record t { session_sources = set t.session_sources sid entry }

pub insert_row : Row → Tables → Tables
insert_row row t = record t { session_log = t.session_log ++ (row ∷ []) }

pub commit_rows : Disk → Connection → Recorder → Recorder
commit_rows d c r =
    let (c', ok) = commit d.commit_fault c in
    let r' = record r { conn = some c'; buffer = [] } in
    if ok then record r' { last_flush = d.clock } else r'

unfoldable pub is_empty {ℓ} : {A : Type ℓ} → List A → Bool
is_empty [] = true
is_empty (x ∷ xs) = false

-- A statement without rows is not run.
pub flush_rows : Disk → Connection → Recorder → Recorder
flush_rows d c r =
    if is_empty r.buffer
    then commit_rows d c r
    else let (c', ok) = execute_many d.log_fault insert_row r.buffer c in
      if ok then commit_rows d c' r else record r { conn = some c' }

pub flush_sources : Disk → Connection → Recorder → Recorder
flush_sources d c r =
    if is_empty r.pending_sources
    then flush_rows d c r
    else let (c', ok) = execute_many d.sources_fault insert_source r.pending_sources c in
      if ok
      then flush_rows d c' (record r { pending_sources = [] })
      else record r { conn = some c' }

pub flush_locked : Disk → Recorder → Recorder
flush_locked d r = elim r.conn [
  | none ↦ r
  | some c ↦ if is_empty r.buffer && is_empty r.pending_sources then r else flush_sources d c r
]

abbrev pub default {ℓ} : {A : Type ℓ} → Option A → A → A
default none a = a
default (some b) a = b

-- `fallback` is the clock at the look-up
pub event_time : LogEvent → ℕ → ℕ
event_time e fallback =
    if opt_eq e.kind (some "DATA_STREAM")
    then if default e.payload.distribution "discrete" == "linear"
      then default e.payload.start_time fallback
      else default e.payload.timestamp fallback
    else default e.timestamp fallback

pub row_of : LogEvent → Option String → ℕ → ℕ → Row
row_of e blob fallback now = record {
  event_time = event_time e fallback;
  source_id = default e.payload.source_id "system";
  distribution = default e.payload.distribution "discrete";
  kind = default e.kind "UNKNOWN";
  payload = e.text;
  binary_data = blob;
  ingest_ts = now;
}

pub note_source : Option String → Row → Recorder → Recorder
note_source none row r = r
note_source (some time_source) row r =
    if not (time_source == "")
      && not (opt_eq (get r.known_sources row.source_id) (some time_source))
    then record r {
      known_sources = set r.known_sources row.source_id time_source;
      pending_sources = set r.pending_sources row.source_id (time_source, row.event_time);
    }
    else r

pub buffered : Row → Recorder → Recorder
buffered row r = record r { buffer = r.buffer ++ (row ∷ []) }

-- The buffer is not empty here.
pub flush_if_due : Disk → ℕ → Recorder → Recorder
flush_if_due d now r =
    if leb 200 (length r.buffer) || leb (r.last_flush + 500) now then flush_locked d r else r

-- What `write` reads of the clock: for a missing time, and for the row.
pub record Clock : Type 0 where
  pub fallback : ℕ
  pub now : ℕ

-- `recording` is the flag of the system state
pub write : Bool → Disk → Clock → LogEvent → Option String → Option String → Recorder → Recorder
write recording d k e blob time_source r =
    if not recording || not (is_some r.conn)
    then r
    else let row = row_of e blob k.fallback k.now in
      flush_if_due d k.now (buffered row (note_source time_source row r))

-- ===== src/Tests/Replays.antt =====
-- Runs of the replayer.
use elab_core.Prelude.{
  ℕ, String, ◌≡◌, ◌≢◌, ◌≤◌, ◌++◌, ◌⊎◌, refl, true, false, none, some, List, [], ◌∷◌, ◌==◌, arith,
  leb, if◌then◌else◌,
}
use elab_core.Prelude.Dict.{get}
use elab_core.Recorder.{Row, no_tables, Connection, Recorder}
use elab_core.Recorder.Session.{Formats, time_bounds, write_time_bounds, close}
use elab_core.Replayer.{Replayer, Recorded, Round, run_round, is_loaded}
use elab_core.Replayer.Load.{
  Sessions, loaded, load_session, load_tables, load_bounds, clean, read_time_bounds, meta_bounds,
  log_bounds,
}
use elab_core.Replayer.Load.Branches.{IsLoaded, IsUntouched, load_session_lem, spanning}
use elab_core.Replayer.Load.Roundtrip.{recorded_loads, no_faults}
use elab_core.Replayer.Playback.{IsPlaying, originals, data_of, playing_rows}
use elab_core.Replayer.Refine.{Tick, Reached, play_rounds, played_once}
use elab_core.Replayer.Ending.{playing_ends, no_duration_never_ends, Passes}
use elab_core.Replayer.Ending.Connection.{load_keeps_connection}

abbrev row : ℕ → String → Row
row t text = record {
  event_time = t;
  source_id = "volts";
  distribution = "discrete";
  kind = "DATA_STREAM";
  payload = text;
  binary_data = none;
  ingest_ts = t;
}

abbrev rows : List Row
rows = row 1600000000300 "b" ∷ row 1600000000000 "a" ∷ []

abbrev sample : String → Recorded
sample text = record {
  kind = "DATA_STREAM";
  source_id = some "volts";
  start_time = none;
  end_time = none;
  timestamp = none;
  timestamps = [];
  body = text;
}

abbrev now : ℕ
now = 1800000000000

abbrev live : Round
live = record {
  rows = λ id. rows;
  loads = sample;
  base64 = λ b. b;
  can_connect = true;
  can_read = true;
  now = now;
  dt = 100;
}

abbrev session : ℕ → Replayer
session duration = record {
  active_session_path = some "run";
  running = true;
  paused = false;
  session_start_ms = 1600000000000;
  session_duration_ms = duration;
  current_replay_ms = 0;
  command_queue = [];
  conn = some "run";
  sent = [];
}

session-IsPlaying : (duration : ℕ) → IsPlaying (session duration)
unfolding is_loaded
session-IsPlaying duration = record {
  loaded = refl;
  connected = refl;
  not_paused = refl;
  no_commands = refl;
}

abbrev ticks : List Tick
ticks = (200, now) ∷ (200, now) ∷ (1, now) ∷ []

played_once_example :
    let r' = play_rounds live ticks (session 300) in
    (p : ℕ) × (0 ≤ p)
    × (originals r'.sent ≡ [] ++ data_of sample (playing_rows live (session 300) p))
    × Reached (session 300) r' ticks p
played_once_example = played_once live ticks (session 300) refl (session-IsPlaying 300)

ticks-Passes : Passes ticks
ticks-Passes = (omega arith, (omega arith, (omega arith, tt)))

playing_ends_example :
    let r' = play_rounds live ticks (session 2) in (r'.paused ≡ true) × (r'.current_replay_ms ≡ 2)
playing_ends_example =
    playing_ends live ticks (session 2) refl (session-IsPlaying 2) (omega arith) ticks-Passes
      (omega arith)

no_duration_never_ends_example : IsPlaying (play_rounds live ticks (session 0))
no_duration_never_ends_example =
    no_duration_never_ends live ticks (session 0) refl (session-IsPlaying 0) refl

abbrev formats : Formats
formats = record {
  strip = λ s. s;
  dumps = λ m. m.id;
  show = λ t. if leb t 1600000000000 then "first" else "last";
}

abbrev disk : Sessions
disk = record {
  is_valid_id = λ id. true;
  is_contained = λ id. true;
  is_file = λ id. true;
  tables = λ id. some (record no_tables { session_log = rows });
  parse = λ text. if text == "first" then some 1600000000000 else some 1600000000300;
}

load_session_lem_example :
    let (r', result) = load_session disk "run" (session 0) in
    ((result ≡ loaded) × IsLoaded "run" r') ⊎ ((result ≢ loaded) × IsUntouched (session 0) r')
load_session_lem_example = load_session_lem disk "run" (session 0)

loads : (load_session disk "other" (session 300)).1 ≡ loaded
unfolding load_session load_tables load_bounds clean read_time_bounds meta_bounds log_bounds
    time_bounds get
loads = refl

load_keeps_connection_example :
    let r' = run_round live (load_session disk "other" (session 300)).0 in
    (r'.conn ≡ some "run") × (r'.active_session_path ≡ some "other")
load_keeps_connection_example =
    load_keeps_connection disk live "other" "run" (session 300) refl refl loads

abbrev connection : Connection
connection = record { committed = no_tables; working = record no_tables { session_log = rows } }

abbrev recorder : Recorder
recorder = record {
  conn = some connection;
  db_path = "run";
  buffer = [];
  pending_sources = [];
  known_sources = [];
  last_flush = 0;
  files = [];
}

-- the file system that the recorder leaves
abbrev left : Sessions
left = record disk {
  tables = λ id. get (close (write_time_bounds formats no_faults recorder)).files id;
}

span : time_bounds connection.working.session_log ≡ some (1600000000000, 1600000000300)
unfolding time_bounds
span = refl

recorded_loads_example :
    load_session left "run" (session 0)
    ≡ (spanning "run" 1600000000000 1600000000300 (session 0), loaded)
recorded_loads_example =
    recorded_loads formats left recorder connection 1600000000000 1600000000300 (session 0) refl
      refl refl span (omega arith) (omega arith) refl refl refl refl

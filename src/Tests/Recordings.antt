-- ===== src/Tests/Recordings.antt =====
-- Runs of the recorder.
use elab_core.Prelude.{ℕ, ◌≡◌, refl, true, false, none, some, List, [], ◌∷◌, ◌++◌}
use elab_core.Prelude.Dict.{get}
use elab_core.Recorder.{
  Row, Tables, no_tables, Connection, fine, fails_after, Recorder, Clock, LogEvent, flush_locked,
  row_of, is_empty,
}
use elab_core.Recorder.Session.{Formats, StartClock, BoundsFaults, session_name, open_file, marker}
use elab_core.Recorder.Lossless.{Call, write_event, flush, events, all_gentle}
use elab_core.Recorder.Flush.{is_gentle, is_kept, is_atomic}
use elab_core.Recorder.Settled.{Settled, healthy}
use elab_core.Recorder.Refine.{record_session, recording_refines}
use elab_core.Recorder.Retry.{retry_duplicates, breaks_after}
use elab_core.Tests.Handlers.{idle}

abbrev formats : Formats
formats = record { strip = λ s. s; dumps = λ m. m.id; show = λ t. "t" }

abbrev at : ℕ → Clock
at t = record { fallback = t; now = t }

abbrev start_clock : StartClock
start_clock = record {
  time_str = "2026-01-01_10-00-00";
  created_at = 1;
  last_flush = 1;
  event = 1;
  write = at 1;
}

abbrev no_recorder : Recorder
no_recorder = record {
  conn = none;
  db_path = "";
  buffer = [];
  pending_sources = [];
  known_sources = [];
  last_flush = 0;
  files = [];
}

abbrev sample : LogEvent
sample = record {
  kind = some "DATA_STREAM";
  timestamp = none;
  payload = record {
    distribution = none;
    start_time = none;
    timestamp = some 5;
    source_id = some "volts";
  };
  text = "{}";
}

-- The insertion is refused at first, and the commit later.
abbrev calls : List Call
calls =
    write_event
      (record { sources_fault = fine; log_fault = fails_after 0; commit_fault = fine; clock = 9 })
      (at 900) sample none (some "device")
    ∷ flush
        (record { sources_fault = fine; log_fault = fine; commit_fault = fails_after 0; clock = 9 })
    ∷ write_event (healthy 10) (at 1000) sample none none
    ∷ []

abbrev bounds_faults : BoundsFaults
bounds_faults = record { insert_fault = fine; commit_fault = fine }

works : (clock : ℕ) → is_gentle (healthy clock) ≡ true
unfolding is_kept is_atomic
works clock = refl

mild : all_gentle calls ≡ true
unfolding is_kept is_atomic
mild = refl

recording_refines_example :
    let (r', s') =
      record_session formats start_clock
        (some "run")
        (healthy 2)
        calls
        (healthy 3)
        4
        bounds_faults
        11
        (at 11)
        no_recorder
        idle in
    let id = session_name formats start_clock.time_str (some "run") in
    ((t : Tables) × (get r'.files id ≡ some t)
      × (t.session_log
          ≡ (open_file no_recorder.files id).session_log
            ++ (row_of (marker "SESSION_START" 1) none 1 1 ∷ events calls)
            ++ (row_of (marker "SESSION_END" 11) none 11 11 ∷ [])))
    × (s'.recording ≡ false)
recording_refines_example =
    recording_refines formats start_clock (some "run") (healthy 2) calls (healthy 3) 4 bounds_faults
      11 (at 11) no_recorder idle refl (works 2) mild (works 3) refl

abbrev connection : Connection
connection = record { committed = no_tables; working = no_tables }

abbrev row : ℕ → Row
row t = row_of sample none t t

abbrev holding : Recorder
holding = record no_recorder { conn = some connection; buffer = row 1 ∷ row 2 ∷ [] }

quiet : is_empty holding.pending_sources ≡ true
unfolding is_empty
quiet = refl

busy : is_empty holding.buffer ≡ false
unfolding is_empty
busy = refl

retry_duplicates_example :
    Settled
      (flush_locked (healthy 3) (flush_locked (breaks_after 1) holding))
      ([] ++ (row 1 ∷ []) ++ (row 1 ∷ row 2 ∷ []))
retry_duplicates_example = retry_duplicates 1 3 holding connection refl quiet busy

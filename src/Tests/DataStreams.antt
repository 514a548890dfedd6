-- ===== src/Tests/DataStreams.antt =====
-- Runs of the data path.
use elab_core.Prelude.{ℕ, ◌≡◌, ◌≤◌, ◌<◌, refl, true, none, some, [], ◌⊎◌, length, distance, arith}
use elab_core.Offsets.{Offsets}
use elab_core.Recorder.{fine, Recorder}
use elab_core.Routing.{Router}
use elab_core.Stream.Gate.{IsAuthentic}
use elab_core.DataStream.{
  Bytes, bytes, raw_number, raw_bytes, octets, no_binary, Packet, Env, System, within, binary_data,
  epoch_limit, normalize_times, handle_data_stream,
}
use elab_core.DataStream.Effects.{handle_data_stream-IsAuthentic, binary_data_bounded}
use elab_core.DataStream.Times.{normalize_times_near}
use elab_core.DataStream.Recording.{Recorded, handle_data_stream-Recorded}
use elab_core.Tests.Streams.{live, keys, packet, not_internal}

abbrev env : Env
env = record {
  keys = keys;
  now_ms = 9000;
  max_offsets = 500;
  max_binary_payload = 4;
  decoder = λ source_id. none;
  decode_base64 = λ text. none;
  decode_image = λ text. none;
  log_text = λ x. "{}";
  disk = record { sources_fault = fine; log_fault = fine; commit_fault = fine; clock = 9 };
  clock = record { fallback = 9; now = 9 };
  monotonic = 9;
  config = λ task. none;
}

-- a sample with a time of the device's own
abbrev measured : Packet
measured = record {
  signed = packet;
  distribution = none;
  start_time = none;
  end_time = none;
  timestamp = some 20;
  timestamps = [];
  binary = no_binary;
  value = some "3.3";
  values = [];
  image = none;
}

abbrev recorder : Recorder
recorder = record {
  conn = none;
  db_path = "";
  buffer = [];
  pending_sources = [];
  known_sources = [];
  last_flush = 0;
  files = [];
}

abbrev router : Router
router = record { route_ts = []; buffers = []; delivered = [] }

abbrev system : System
system = record { state = live; recorder = recorder; router = router }

handle_data_stream-IsAuthentic_example :
    (handle_data_stream env "s1" measured system ≡ system) ⊎ IsAuthentic keys "s1" packet live
handle_data_stream-IsAuthentic_example =
    handle_data_stream-IsAuthentic env "s1" measured system refl not_internal

abbrev frame : Bytes
frame = record { size = 3; content = "abc" }

kept : binary_data env (bytes frame) ≡ some (some (octets frame))
unfolding binary_data within
kept = refl

binary_data_bounded_example :
    (3 ≤ 4) ⊎ ((bytes frame ≡ raw_number 3) ⊎ (bytes frame ≡ raw_bytes frame))
binary_data_bounded_example = binary_data_bounded env (bytes frame) frame tt kept

abbrev offsets : Offsets
offsets = []

room : 0 < 500
room = omega arith

small : 0 ≤ 500
small = omega arith

own : 20 < epoch_limit
own = omega arith

normalize_times_near_example :
    let (x', (server, d')) = normalize_times env measured offsets in
    (t' : ℕ) × (x'.timestamp ≡ some t')
    × (distance t' 9000 ≤ 2000)
    × (server ≡ true)
    × (length d' ≤ 500)
normalize_times_near_example =
    normalize_times_near env measured 20 offsets room small refl refl refl own

handle_data_stream-Recorded_example :
    Recorded measured system (handle_data_stream env "s1" measured system)
handle_data_stream-Recorded_example = handle_data_stream-Recorded env "s1" measured system

-- ===== src/DataStream.antt =====
-- `handle_data_stream` of elab_server/socket_handlers/provider_handlers.py: the gate, the times, the binary
-- forms, the recording, the user interface and the actuators. A sample is the text of a finite number, a
-- time is a whole number of milliseconds.
-- Decoders, base64 and the measurement uncertainty are parameters; the latter is not followed.
pub mod Times
pub mod Effects
pub mod Recording
use elab_core.Prelude.{
  ℕ, String, ◌+◌, ◌-◌, ◌*◌, Bool, true, false, not, Option, none, some, List, [], ◌∷◌, ◌==◌, ◌&&◌,
  ◌||◌, any, is_some, leb, ltb, opt_eq, truthy, map, length, if◌then◌else◌, or_else,
}
use elab_core.Prelude.Dict.{Dict}
use elab_core.Manifest.{Task}
use elab_core.Offsets.{Offset, Offsets, get_offset}
use elab_core.State.{State, emit, ui_clients, data_stream}
use elab_core.Stream.{Keys, accepts}
use elab_core.Stream
use elab_core.Recorder.{Recorder, Disk, Clock, LogEvent, write}
use elab_core.Routing.{Sample, DeliveryConfig, Router, route_to_actuators, last_of}

pub record Bytes : Type 0 where
  pub size : ℕ
  pub content : String

-- What `binary_data` can be: bytes, or a value of JSON that is none, by its text.
pub data Data : Type 0 where
  octets : Bytes → Data
  other : String → Data

-- The binary field of a packet. `raw_bytes` is a list of some length (with the bytes, if its members are
-- bytes), a bare number, or bytes; `binary_payload` is bytes or any other value; `binary_payload_b64` is a
-- text of some length, or bytes. A field that is absent, is empty or has a type that raises is none.
pub data Binary : Type 0 where
  no_binary : Binary
  raw_list : (length : ℕ) → Option Bytes → Binary
  raw_number : ℕ → Binary
  raw_bytes : Bytes → Binary
  bytes : Bytes → Binary
  other_value : String → Binary
  base64 : (length : ℕ) → String → Binary
  base64_bytes : String → Binary

pub record Packet : Type 0 where
  pub signed : Stream.Payload
  pub distribution : Option String
  pub start_time : Option ℕ
  pub end_time : Option ℕ
  pub timestamp : Option ℕ
  -- a member that is no finite number is none
  pub timestamps : List (Option ℕ)
  pub binary : Binary
  pub value : Option String
  pub values : List String
  pub image : Option String

-- What the handler takes from outside. `decode_image` is none if the image cannot be decoded.
pub record Env : Type 0 where
  pub keys : Keys
  pub now_ms : ℕ
  pub max_offsets : ℕ
  -- `_MAX_BINARY_PAYLOAD`
  pub max_binary_payload : ℕ
  pub decoder : String → Option (Data → Option (List String))
  pub decode_base64 : String → Option Bytes
  pub decode_image : String → Option String
  pub log_text : Packet → String
  pub disk : Disk
  pub clock : Clock
  pub monotonic : ℕ
  pub config : Option Task → Option DeliveryConfig

-- times below this are a device's own, not epoch milliseconds
abbrev pub epoch_limit : ℕ
epoch_limit = 100000000000

abbrev pub shifted : Offset → ℕ → ℕ
shifted o t = t + o.plus - o.minus

-- the packet with the server's times, whether they are the server's, and the cache of offsets
abbrev pub Normalized : Type 0
Normalized = Packet × (Bool × Offsets)

pub normalize_linear : Env → Packet → Option ℕ → Option ℕ → Offsets → Normalized
normalize_linear e x (some start) (some end) d =
    if leb epoch_limit end
    then (x, (false, d))
    else let (d', o) = get_offset e.max_offsets x.signed.source_id end e.now_ms d in
      (
        record x { start_time = some (shifted o start); end_time = some (shifted o end) },
        (true, d'),
      )
normalize_linear e x (some start) none d = (x, (false, d))
normalize_linear e x none end d = (x, (false, d))

pub normalize_timestamp : Env → Packet → Option ℕ → Offsets → Normalized
normalize_timestamp e x none d = (x, (false, d))
normalize_timestamp e x (some t) d =
    if leb epoch_limit t
    then (x, (false, d))
    else let (d', o) = get_offset e.max_offsets x.signed.source_id t e.now_ms d in
      (record x { timestamp = some (shifted o t) }, (true, d'))

pub all_numbers : List (Option ℕ) → Option (List ℕ)
all_numbers [] = some []
all_numbers (none ∷ ts) = none
all_numbers (some t ∷ ts) = elim (all_numbers ts) [ none ↦ none | some us ↦ some (t ∷ us) ]

pub shift_array : Env → List ℕ → Normalized → Normalized
shift_array e [] n = n
shift_array e (t ∷ ts) (x, (server, d)) =
    if leb epoch_limit t
    then (x, (server, d))
    else let (d', o) = get_offset e.max_offsets x.signed.source_id t e.now_ms d in
      (
        record x {
          timestamps = map (λ u. some (shifted o u)) (t ∷ ts);
          timestamp = some (shifted o t);
        },
        (true, d'),
      )

pub normalize_array : Env → Normalized → Normalized
normalize_array e (x, rest) = elim (all_numbers x.timestamps) [
  | none ↦ (x, rest)
  | some ts ↦ shift_array e ts (x, rest)
]

pub normalize_times : Env → Packet → Offsets → Normalized
normalize_times e x d =
    if opt_eq x.distribution (some "linear")
    then normalize_linear e x x.start_time x.end_time d
    else normalize_array e (normalize_timestamp e x x.timestamp d)

-- What the packet brings to decode; none is a frame that is dropped.
unfoldable pub within : ℕ → Option Bytes → Option (Option Data)
within limit none = some none
within limit (some b) = if ltb limit b.size then none else some (some (octets b))

pub decoded_base64 : ℕ → Option Bytes → String → Option (Option Data)
decoded_base64 limit o text = if text == "" then some none else within limit o

unfoldable pub binary_data : Env → Binary → Option (Option Data)
binary_data e no_binary = some none
binary_data e (raw_list n none) = if ltb e.max_binary_payload n then none else some none
binary_data e (raw_list n (some b)) =
    if ltb e.max_binary_payload n then none else some (some (octets b))
binary_data e (raw_number n) = some (some (octets (record { size = n; content = "" })))
binary_data e (raw_bytes b) = some (some (octets b))
binary_data e (bytes b) = within e.max_binary_payload (some b)
binary_data e (other_value text) = some (some (other text))
binary_data e (base64 n text) =
    if ltb (e.max_binary_payload * 2) n
    then none
    else decoded_base64 e.max_binary_payload (e.decode_base64 text) text
binary_data e (base64_bytes text) = decoded_base64 e.max_binary_payload (e.decode_base64 text) text

pub is_empty : Data → Bool
is_empty (octets b) = leb b.size 0
is_empty (other text) = false

pub decoded : Packet → List String → Packet
decoded x vs = record x {
  values = vs;
  value = some (elim (last_of vs) [ none ↦ "0" | some v ↦ v ]);
}

-- none if the decoder raises
pub decode_with : Env → Packet → Option Data → Option Packet
decode_with e x none = some x
decode_with e x (some b) = if is_empty b then some x else elim (e.decoder x.signed.source_id) [
  | none ↦ some x
  | some decode ↦ elim (decode b) [ none ↦ none | some vs ↦ some (decoded x vs) ]
]

pub decode : Env → Packet → Option Packet
decode e x = elim (binary_data e x.binary) [ none ↦ none | some b ↦ decode_with e x b ]

pub record System : Type 0 where
  pub state : State
  pub recorder : Recorder
  pub router : Router

pub log_event : Env → Packet → LogEvent
log_event e x = record {
  kind = some "DATA_STREAM";
  timestamp = none;
  payload = record {
    distribution = x.distribution;
    start_time = x.start_time;
    timestamp = x.timestamp;
    source_id = some x.signed.source_id;
  };
  text = e.log_text x;
}

abbrev pub is_active : String → State → Bool
is_active source_id s = any (λ (slot, task_id). task_id == source_id) s.active_tasks_by_slot

abbrev pub image_blob : Env → Packet → Option String
image_blob e x = elim x.image [ none ↦ none | some image ↦ e.decode_image image ]

pub record_packet : Env → Bool → Packet → State → Recorder → Recorder
record_packet e server x s r =
    if s.recording && is_active x.signed.source_id s
    then write s.recording e.disk e.clock (log_event e x) (image_blob e x)
        (some (if server then "server" else "device")) r
    else r

abbrev pub sample_of : Packet → Sample
sample_of x = record {
  value = x.value;
  values = x.values;
  start_time = x.start_time;
  end_time = x.end_time;
  timestamp = x.timestamp;
}

-- The packet is recorded, shown and routed.
pub distribute : Env → Bool → Packet → System → System
distribute e server x y = record {
  state = emit ui_clients (data_stream x.signed.source_id x.values x.timestamp) y.state;
  recorder = record_packet e server x y.state y.recorder;
  router =
      route_to_actuators e.config e.monotonic x.signed.source_id (sample_of x) y.state.links
        y.state.registry y.router;
}

pub process : Env → Packet → System → System
process e x y =
    let (x', (server, offsets)) = normalize_times e x y.state.time_offsets in
    let y' = record y { state = record y.state { time_offsets = offsets } } in
    elim (decode e x') [ none ↦ y' | some x'' ↦ distribute e server x'' y' ]

pub handle_data_stream : Env → String → Packet → System → System
handle_data_stream e sid x y =
    if not (truthy x.signed.source_id)
    then y
    else if accepts e.keys sid x.signed y.state
    then process e x y
    else y

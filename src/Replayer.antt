-- ===== src/Replayer.antt =====
-- `SessionReplayer` of elab_server/replayer.py: loading a session, the queue of commands, and one round
-- of the loop in `run`. A time is a natural number of milliseconds; a clock before the epoch, or one
-- that goes back, is left out. What a round takes from outside is `Round`.
pub mod Load
pub mod Windows
pub mod Playback
pub mod Refine
pub mod Ending
use Prim.Native.String.{◌++◌ as append}
use elab_core.Prelude.{
  ℕ, String, ◌+◌, ◌-◌, min, max, Bool, true, false, not, Option, none, some, List, [], ◌∷◌, ◌++◌,
  ◌==◌, ◌&&◌, ◌||◌, is_some, leb, ltb, map, keep, if◌then◌else◌, truthy,
}
use elab_core.Recorder.{Row}

-- `event_data`, of which `body` is what a replay does not look at
pub record Recorded : Type 0 where
  pub kind : String
  pub source_id : Option String
  pub start_time : Option ℕ
  pub end_time : Option ℕ
  pub timestamp : Option ℕ
  pub timestamps : List ℕ
  pub body : String

-- the payload that is sent, which is marked as a replay's
pub record Replayed : Type 0 where
  pub source_id : Option String
  pub original_source_id : Option String
  pub start_time : Option ℕ
  pub end_time : Option ℕ
  pub timestamp : Option ℕ
  pub timestamps : List ℕ
  pub image : Option String
  pub body : String

pub data Status : Type 0 where
  stopped paused playing : Status

-- the messages to the user interface
pub data Out : Type 0 where
  replay_status : Status → Out
  replay_progress replay_reset : (time_ms duration : ℕ) → Out
  data_stream : Replayed → Out

-- `seek` has no value if it has none, or one that is no finite number; a negative one counts as 0.
pub data Command : Type 0 where
  unload stop pause play : Command
  seek : Option ℕ → Command
  other : String → Command

pub record Replayer : Type 0 where
  pub active_session_path : Option String
  pub running : Bool
  pub paused : Bool
  pub session_start_ms : ℕ
  pub session_duration_ms : ℕ
  pub current_replay_ms : ℕ
  pub command_queue : List Command
  -- the session that the loop's connection reads
  pub conn : Option String
  pub sent : List Out

-- What one round takes from outside. `rows` is the table of a session, `loads` is `json.loads`.
pub record Round : Type 0 where
  pub rows : String → List Row
  pub loads : String → Recorded
  pub base64 : String → String
  pub can_connect : Bool
  pub can_read : Bool
  pub now : ℕ
  -- the time since the last reading, times the speed
  pub dt : ℕ

pub emit : Out → Replayer → Replayer
emit o r = record r { sent = r.sent ++ (o ∷ []) }

-- "ORDER BY event_time_ms ASC, seq ASC"
pub insert_row : Row → List Row → List Row
insert_row row [] = row ∷ []
insert_row row (x ∷ xs) =
    let rest = insert_row row xs in
    if leb row.event_time x.event_time then row ∷ x ∷ xs else x ∷ rest

pub order_rows : List Row → List Row
order_rows [] = []
order_rows (row ∷ rows) = insert_row row (order_rows rows)

abbrev pub in_window : ℕ → ℕ → Row → Bool
in_window first last row = leb first row.event_time && ltb row.event_time last

-- the rows of the query
pub select : ℕ → ℕ → List Row → List Row
select first last rows = keep (in_window first last) (order_rows rows)

-- `float(t) + offset`, where `now` stands for `rel_end` after the session's start
abbrev pub shift : ℕ → ℕ → ℕ → ℕ
shift now end t = t + now - end

pub shift_time : ℕ → ℕ → Option ℕ → Option ℕ
shift_time now end none = none
shift_time now end (some t) = some (shift now end t)

pub image_of : (String → String) → Option String → Option String
image_of base64 none = none
image_of base64 (some blob) =
    if blob == "" then none else some (append "data:image/jpeg;base64," (base64 blob))

pub replayed_source : Option String → Option String
replayed_source none = none
replayed_source (some source) = if source == "" then some source else some (append "rec_" source)

pub original_source : Option String → Option String
original_source none = none
original_source (some source) = if source == "" then none else some source

pub replayed : Round → ℕ → Option String → Recorded → Replayed
replayed k end blob e = record {
  source_id = replayed_source e.source_id;
  original_source_id = original_source e.source_id;
  start_time = shift_time k.now end e.start_time;
  end_time = shift_time k.now end e.end_time;
  timestamp = shift_time k.now end e.timestamp;
  timestamps = map (shift k.now end) e.timestamps;
  image = image_of k.base64 blob;
  body = e.body;
}

pub emit_row : Round → ℕ → Row → Replayer → Replayer
emit_row k end row r =
    let e = k.loads row.payload in
    if e.kind == "DATA_STREAM" then emit (data_stream (replayed k end row.binary_data e)) r else r

pub emit_rows : Round → ℕ → List Row → Replayer → Replayer
emit_rows k end [] r = r
emit_rows k end (row ∷ rows) r = emit_rows k end rows (emit_row k end row r)

pub connected_rows : Round → Option String → List Row
connected_rows k none = []
connected_rows k (some path) = k.rows path

pub emit_range : Round → ℕ → ℕ → Replayer → Replayer
emit_range k rel_start rel_end r =
    let start = r.session_start_ms in
    emit_rows k (start + rel_end)
      (select (start + rel_start) (start + rel_end) (connected_rows k r.conn)) r

pub emit_reset : ℕ → Replayer → Replayer
emit_reset time_ms r = emit (replay_reset time_ms r.session_duration_ms) r

pub emit_progress : Replayer → Replayer
emit_progress r = emit (replay_progress r.current_replay_ms r.session_duration_ms) r

pub is_at_end : Replayer → Bool
is_at_end r = ltb 0 r.session_duration_ms && leb r.session_duration_ms r.current_replay_ms

pub seek_target : Option ℕ → ℕ → ℕ
seek_target none duration = 0
seek_target (some value) duration = min value duration

pub handle_seek : Round → Option ℕ → Replayer → Replayer
handle_seek k value r =
    let target = seek_target value r.session_duration_ms in
    let r' = emit_reset target (record r { current_replay_ms = target }) in
    emit_progress (if k.can_read then emit_range k (target - 2000) target r' else r')

pub rewind : Replayer → Replayer
rewind r = emit_progress (emit_reset 0 (record r { current_replay_ms = 0 }))

pub handle_command : Round → Command → Replayer → Replayer
handle_command k unload r = emit (replay_status stopped) (record r {
  running = false;
  active_session_path = none;
  current_replay_ms = 0;
  session_duration_ms = 0;
})
handle_command k stop r = emit (replay_status stopped) (rewind (record r { paused = true }))
handle_command k pause r = emit (replay_status paused) (record r { paused = true })
handle_command k play r =
    emit (replay_status playing) (record (if is_at_end r then rewind r else r) { paused = false })
handle_command k (seek value) r = handle_seek k value r
handle_command k (other name) r = r

pub handle_commands : Round → List Command → Replayer → Replayer
handle_commands k [] r = r
handle_commands k (c ∷ cs) r = handle_commands k cs (handle_command k c r)

-- `control`
pub control : Command → Replayer → Replayer
control c r = record r { command_queue = r.command_queue ++ (c ∷ []) }

unfoldable pub is_loaded : Replayer → Bool
is_loaded r = r.running && is_some r.active_session_path

pub finish : Replayer → Replayer
finish r = emit_progress (
    emit (replay_status stopped)
      (record r { paused = true; current_replay_ms = r.session_duration_ms }))

-- The part of a round that plays.
pub advance : Round → Replayer → Replayer
advance k r =
    if is_at_end r
    then finish r
    else let next = r.current_replay_ms + k.dt in
      if k.can_read
      then emit_progress
          (record (emit_range k r.current_replay_ms next r) { current_replay_ms = next })
      else record r { paused = true }

-- The part of a round after the connection is there.
pub play_round : Round → Replayer → Replayer
play_round k r =
    let r' = handle_commands k r.command_queue (record r { command_queue = [] }) in
    if not (is_loaded r') then record r' { conn = none } else if r'.paused then r' else advance k r'

-- one round of the loop in `run`
pub run_round : Round → Replayer → Replayer
run_round k r =
    if not (is_loaded r)
    then record r { conn = none }
    else if is_some r.conn
    then play_round k r
    else if k.can_connect
    then play_round k (record r { conn = r.active_session_path })
    else record r { active_session_path = none }

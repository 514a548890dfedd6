-- ===== src/Replayer/Load.antt =====
-- `load_session` and `_read_time_bounds` of elab_server/replayer.py. The checks of the id and of its
-- path, the file system and `float` of a text are parameters.
pub mod Branches
pub mod Roundtrip
use elab_core.Prelude.{
  ℕ, String, ◌+◌, ◌-◌, Bool, true, false, not, Option, none, some, ◌&&◌, ◌||◌, leb, ltb,
  if◌then◌else◌,
}
use elab_core.Prelude.Dict.{get}
use elab_core.Recorder.{Tables}
use elab_core.Recorder.Session.{time_bounds}
use elab_core.Replayer.{Replayer}

-- `tables` is none if SQLite fails; `parse` is none for what is no finite number.
pub record Sessions : Type 0 where
  pub is_valid_id : String → Bool
  pub is_contained : String → Bool
  pub is_file : String → Bool
  pub tables : String → Option Tables
  pub parse : String → Option ℕ

pub data Loaded : Type 0 where
  loaded invalid_id not_found database_error no_valid_data inconsistent : Loaded

-- `_MIN_VALID_MS` and `_MAX_VALID_MS`, the years 2020 and 2100
abbrev pub min_valid_ms : ℕ
min_valid_ms = 1577836800000

abbrev pub max_valid_ms : ℕ
max_valid_ms = 4102444800000

unfoldable pub clean : Option ℕ → Option ℕ
clean none = none
clean (some t) = if ltb t min_valid_ms || ltb max_valid_ms t then none else some t

unfoldable pub log_bounds : Tables → Option ℕ × Option ℕ
log_bounds t = elim (time_bounds t.session_log) [
  | none ↦ (none, none)
  | some (first, last) ↦ (some first, some last)
]

unfoldable pub meta_bounds : Sessions → Option String → Option String → Tables → Option ℕ × Option ℕ
meta_bounds d (some first) (some last) t = (d.parse first, d.parse last)
meta_bounds d (some first) none t = log_bounds t
meta_bounds d none last t = log_bounds t

unfoldable pub read_time_bounds : Sessions → Tables → Option ℕ × Option ℕ
read_time_bounds d t =
    meta_bounds d (get t.session_meta "session_start_ms") (get t.session_meta "session_end_ms") t

unfoldable pub load_bounds : Option ℕ → Option ℕ → Replayer → Replayer × Loaded
load_bounds (some first) (some last) r = if ltb last first then (r, inconsistent) else (
  record r {
    session_start_ms = first;
    session_duration_ms = last - first;
    current_replay_ms = 0;
    paused = true;
    running = true;
  },
  loaded,
)
load_bounds (some first) none r = (r, no_valid_data)
load_bounds none last r = (r, no_valid_data)

unfoldable pub load_tables : Sessions → Option Tables → Replayer → Replayer × Loaded
load_tables d none r = (r, database_error)
load_tables d (some t) r =
    let (first, last) = read_time_bounds d t in load_bounds (clean first) (clean last) r

unfoldable pub load_session : Sessions → String → Replayer → Replayer × Loaded
load_session d id r =
    if not (d.is_valid_id id)
    then (r, invalid_id)
    else if not (d.is_contained id)
    then (r, invalid_id)
    else if not (d.is_file id)
    then (r, not_found)
    else load_tables d (d.tables id) (record r { active_session_path = some id })

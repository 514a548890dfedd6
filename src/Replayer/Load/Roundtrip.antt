-- ===== src/Replayer/Load/Roundtrip.antt =====
-- The recorder writes the span of a session, and the replayer reads it.
use elab_core.Prelude.{
  ℕ, ◌≤◌, ◌≡◌, true, some, inl, inr, arith, List, [], ◌∷◌, Option-cases, eq_iff,
}
use elab_core.Prelude.Dict.{get, set, get-set}
use elab_core.Recorder.{Row, Tables, Connection, Recorder, fine, execute_many, insert_all, commit}
use elab_core.Recorder.Session.{
  Formats, BoundsFaults, time_bounds, bound_session, store_bounds, write_time_bounds, close,
  insert_meta,
}
use elab_core.Replayer.{Replayer}
use elab_core.Replayer.Load.{
  Sessions, loaded, clean, load_bounds, load_tables, load_session, read_time_bounds, meta_bounds,
  min_valid_ms, max_valid_ms,
}
use elab_core.Replayer.Load.Branches.{spanning}

time_bounds_ordered : (rows : List Row) (a b : ℕ) → time_bounds rows ≡ some (a, b) → a ≤ b
unfolding time_bounds
time_bounds_ordered [] a b h = ground (arith, h)
time_bounds_ordered (row ∷ rows) a b h = elim (Option-cases (time_bounds rows)) [
  | inl e ↦ ground (arith, h, e)
  | inr ((a', b'), e) ↦
      let ordered = time_bounds_ordered rows a' b' e in ground (arith, h, e, ordered)
]

abbrev pub no_faults : BoundsFaults
no_faults = record { insert_fault = fine; commit_fault = fine }

abbrev spanned : Formats → ℕ → ℕ → Tables → Tables
spanned f a b t = record t {
  session_meta = set (set t.session_meta "session_start_ms" (f.show a)) "session_end_ms" (f.show b);
}

written_file :
    (f : Formats) (r : Recorder) (c : Connection) (a b : ℕ)
    → r.conn ≡ some c
    → time_bounds c.working.session_log ≡ some (a, b)
    → get (close (write_time_bounds f no_faults r)).files r.db_path ≡ some (spanned f a b c.working)
unfolding close write_time_bounds bound_session store_bounds execute_many insert_all insert_meta
    commit
written_file f r c a b conn bounds = ground (
  arith,
  conn,
  bounds,
  get-set r.files r.db_path (spanned f a b c.working) r.db_path,
  eq_iff r.db_path r.db_path,
)

spanned_bounds :
    (f : Formats) (d : Sessions) (a b : ℕ) (t : Tables)
    → d.parse (f.show a) ≡ some a
    → d.parse (f.show b) ≡ some b
    → read_time_bounds d (spanned f a b t) ≡ (some a, some b)
unfolding read_time_bounds meta_bounds
spanned_bounds f d a b t reads_a reads_b =
    let m = set t.session_meta "session_start_ms" (f.show a) in
    ground (
      arith,
      reads_a,
      reads_b,
      get-set m "session_end_ms" (f.show b) "session_end_ms",
      get-set m "session_end_ms" (f.show b) "session_start_ms",
      get-set t.session_meta "session_start_ms" (f.show a) "session_start_ms",
    )

-- A session of which the recorder has written the span and closed the file, and whose data lies
-- between the years that the replayer allows, loads with the time of its first data as its start
-- and the time from there to the last as its duration, if these times can be read back from their
-- texts and the checks of the id and its path pass.
pub recorded_loads :
    (f : Formats) (d : Sessions) (r : Recorder) (c : Connection) (a b : ℕ) (p : Replayer)
    → d.parse (f.show a) ≡ some a
    → d.parse (f.show b) ≡ some b
    → r.conn ≡ some c
    → time_bounds c.working.session_log ≡ some (a, b)
    → min_valid_ms ≤ a
    → b ≤ max_valid_ms
    → d.is_valid_id r.db_path ≡ true
    → d.is_contained r.db_path ≡ true
    → d.is_file r.db_path ≡ true
    → d.tables r.db_path ≡ get (close (write_time_bounds f no_faults r)).files r.db_path
    → load_session d r.db_path p ≡ (spanning r.db_path a b p, loaded)
unfolding load_session load_tables load_bounds clean
recorded_loads f d r c a b p reads_a reads_b conn bounds low high valid contained file there =
    let found = written_file f r c a b conn bounds in
    let read = spanned_bounds f d a b c.working reads_a reads_b in
    let ordered = time_bounds_ordered c.working.session_log a b bounds in
    ground (arith, valid, contained, file, there, found, read, low, high, ordered)

-- ===== src/Recorder/Path.antt =====
-- No call between the start and the end of a recording changes its file.
use elab_core.Prelude.{
  String, Bool, Option, none, some, List, [], ◌∷◌, ◌≡◌, ◌∙◌, refl, arith, Option-cases, inl, inr,
}
use elab_core.Registry.{get_provider_manifest}
use elab_core.State.{State}
use elab_core.Recorder.{
  Row, Connection, Recorder, Disk, Clock, LogEvent, execute_many, insert_row, insert_source,
  commit_rows, flush_rows, flush_sources, flush_locked, row_of, note_source, buffered, flush_if_due,
  write,
}
use elab_core.Recorder.Session.{Formats, add_manifest_if_recording}
use elab_core.Recorder.Lossless.{Call, write_event, flush, store_manifest, call, run}

path-commit_rows :
    (d : Disk) (c : Connection) (r : Recorder) → (commit_rows d c r).db_path ≡ r.db_path
unfolding commit_rows
path-commit_rows d c r = ground arith

path-flush_rows :
    (d : Disk) (c : Connection) (r : Recorder) → (flush_rows d c r).db_path ≡ r.db_path
unfolding flush_rows
path-flush_rows d c r = ground (
  arith,
  path-commit_rows d c r,
  path-commit_rows d (execute_many d.log_fault insert_row r.buffer c).0 r,
)

path-flush_sources :
    (d : Disk) (c : Connection) (r : Recorder) → (flush_sources d c r).db_path ≡ r.db_path
unfolding flush_sources
path-flush_sources d c r = ground (
  arith,
  path-flush_rows d c r,
  path-flush_rows d (execute_many d.sources_fault insert_source r.pending_sources c).0
      (record r { pending_sources = [] }),
)

pub path-flush : (d : Disk) (r : Recorder) → (flush_locked d r).db_path ≡ r.db_path
unfolding flush_locked
path-flush d r = elim (Option-cases r.conn) [
  | inl e ↦ ground (arith, e)
  | inr (c, e) ↦ ground (arith, e, path-flush_sources d c r)
]

path-noted :
    (t : Option String) (row : Row) (r : Recorder) → (note_source t row r).db_path ≡ r.db_path
unfolding note_source
path-noted none row r = refl
path-noted (some t) row r = ground arith

pub path-write :
    (recording : Bool) (d : Disk) (k : Clock) (e : LogEvent) (blob t : Option String) (r : Recorder)
    → (write recording d k e blob t r).db_path ≡ r.db_path
unfolding write flush_if_due buffered
path-write recording d k e blob t r =
    let row = row_of e blob k.fallback k.now in
    ground (arith, path-noted t row r, path-flush d (buffered row (note_source t row r)))

path-call : (f : Formats) (s : State) (c : Call) (r : Recorder) → (call f s c r).db_path ≡ r.db_path
unfolding add_manifest_if_recording
path-call f s (write_event d k e blob t) r = path-write s.recording d k e blob t r
path-call f s (flush d) r = path-flush d r
path-call f s (store_manifest b task_id) r = elim (Option-cases r.conn) [
  | inl e ↦ ground (arith, e)
  | inr (c, e) ↦ elim (Option-cases (get_provider_manifest s.registry task_id)) [
    | inl n ↦ ground (arith, e, n)
    | inr (m, n) ↦ ground (arith, e, n)
  ]
]

pub path-run :
    (f : Formats) (s : State) (cs : List Call) (r : Recorder) → (run f s cs r).db_path ≡ r.db_path
path-run f s [] r = refl
path-run f s (c ∷ cs) r = path-run f s cs (call f s c r) ∙ path-call f s c r

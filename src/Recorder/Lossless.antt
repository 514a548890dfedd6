-- ===== src/Recorder/Lossless.antt =====
-- The calls of a recorder between its start and its end, and the rows that they make.
use elab_core.Prelude.{
  String, Bool, true, false, Option, none, some, List, [], ◌∷◌, ◌++◌, ◌≡◌, ◌∙◌, sym, ap, refl, ◌&&◌,
  arith, append_assoc, append-nil, if◌then◌else◌, Option-cases, inl, inr,
}
use elab_core.Registry.{get_provider_manifest}
use elab_core.State.{State}
use elab_core.Recorder.{
  Row, Tables, Connection, Fault, Recorder, Disk, Clock, LogEvent, execute_many, commit,
  flush_locked, row_of, note_source, buffered, flush_if_due, write,
}
use elab_core.Recorder.Session.{
  Formats, BoundsFaults, add_manifest, add_manifest_if_recording, insert_manifest,
}
use elab_core.Recorder.Flush.{
  log_view, view_open, is_gentle, is_kept, view_flush, seen, opened, execute-keeps, commit_step,
}

-- What happens to a recorder between its start and its end.
pub data Call : Type 0 where
  write_event : Disk → Clock → LogEvent → (blob time_source : Option String) → Call
  flush : Disk → Call
  store_manifest : BoundsFaults → (task_id : String) → Call

abbrev pub call : Formats → State → Call → Recorder → Recorder
call f s (write_event d k e blob time_source) r = write s.recording d k e blob time_source r
call f s (flush d) r = flush_locked d r
call f s (store_manifest b task_id) r = add_manifest_if_recording f b task_id r s

abbrev pub run : Formats → State → List Call → Recorder → Recorder
run f s [] r = r
run f s (c ∷ cs) r = run f s cs (call f s c r)

-- the rows of the events, in the order of the calls
abbrev pub events : List Call → List Row
events [] = []
events (write_event d k e blob time_source ∷ cs) = row_of e blob k.fallback k.now ∷ events cs
events (flush d ∷ cs) = events cs
events (store_manifest b task_id ∷ cs) = events cs

abbrev pub is_mild : BoundsFaults → Bool
is_mild b = is_kept b.insert_fault && is_kept b.commit_fault

-- Every fault leaves the transaction and, for events, no row half-way.
abbrev pub all_gentle : List Call → Bool
all_gentle [] = true
all_gentle (write_event d k e blob time_source ∷ cs) = is_gentle d && all_gentle cs
all_gentle (flush d ∷ cs) = is_gentle d && all_gentle cs
all_gentle (store_manifest b task_id ∷ cs) = is_mild b && all_gentle cs

pub noted :
    (time_source : Option String) (row : Row) (r : Recorder)
    → ((note_source time_source row r).conn ≡ r.conn)
      × ((note_source time_source row r).buffer ≡ r.buffer)
unfolding note_source
noted none row r = (refl, refl)
noted (some t) row r = ground arith

view_buffered :
    (row : Row) (r : Recorder) (time_source : Option String) (rows : List Row)
    → log_view r ≡ some rows
    → log_view (buffered row (note_source time_source row r)) ≡ some (rows ++ (row ∷ []))
unfolding buffered
view_buffered row r time_source rows h =
    let (c, e, same) = opened r rows h in
    let (conn, buffer) = noted time_source row r in
    let r' = note_source time_source row r in
    view_open (record r' { buffer = r'.buffer ++ (row ∷ []) }) c (conn ∙ e)
    ∙ ap (λ b. some (seen c (b ++ (row ∷ [])))) buffer
    ∙ ap some (sym (append_assoc c.working.session_log r.buffer (row ∷ [])))
    ∙ ap (λ b. some (b ++ (row ∷ []))) same

pub view_write :
    (d : Disk) (k : Clock) (e : LogEvent) (blob time_source : Option String) (r : Recorder)
    (rows : List Row)
    → is_gentle d ≡ true
    → log_view r ≡ some rows
    → log_view (write true d k e blob time_source r)
      ≡ some (rows ++ (row_of e blob k.fallback k.now ∷ []))
unfolding write flush_if_due
view_write d k e blob time_source r rows g h =
    let row = row_of e blob k.fallback k.now in
    let r' = buffered row (note_source time_source row r) in
    let put = view_buffered row r time_source rows h in
    let flushed = view_flush d r' (rows ++ (row ∷ [])) g put in
    let (c, there, same) = opened r rows h in ground (arith, there, put, flushed)

manifest_keeps :
    (x : String × String) (t : Tables) → (insert_manifest x t).session_log ≡ t.session_log
unfolding insert_manifest
manifest_keeps (pid, text) t = ground arith

-- A statement on another table, and a commit if it succeeds.
committed_step :
    (c : Connection) (x : Connection × Bool) (f : Fault)
    → x.0.working.session_log ≡ c.working.session_log
    → is_kept f ≡ true
    → (if x.1 then (commit f x.0).0 else x.0).working.session_log ≡ c.working.session_log
committed_step c (c', true) f h k = commit_step f c' k ∙ h
committed_step c (c', false) f h k = h

view_manifest :
    (f : Formats) (s : State) (b : BoundsFaults) (task_id : String) (r : Recorder) (rows : List Row)
    → is_mild b ≡ true
    → log_view r ≡ some rows
    → log_view (add_manifest_if_recording f b task_id r s) ≡ some rows
unfolding add_manifest_if_recording add_manifest
view_manifest f s b task_id r rows g h =
    let (c, there, same) = opened r rows h in
    elim (Option-cases (get_provider_manifest s.registry task_id)) [
      | inl e ↦ ground (arith, there, e, h)
      | inr (m, e) ↦
          let done = execute_many b.insert_fault insert_manifest ((m.id, f.dumps m) ∷ []) c in
          let log =
            committed_step c done b.commit_fault
              (execute-keeps insert_manifest manifest_keeps b.insert_fault ((m.id, f.dumps m) ∷ [])
                c (ground (arith, g)))
              (ground (arith, g)) in
          let c' = if done.1 then (commit b.commit_fault done.0).0 else done.0 in
          let view =
            view_open (record r { conn = some c' }) c' refl ∙ ap (λ b. some (b ++ r.buffer)) log in
          ground (arith, there, e, h, same, view)
    ]

events_cons : (c : Call) (cs : List Call) → events (c ∷ []) ++ events cs ≡ events (c ∷ cs)
events_cons (write_event d k e blob time_source) cs = refl
events_cons (flush d) cs = refl
events_cons (store_manifest b task_id) cs = refl

gentle_first : (c : Call) (cs : List Call) → all_gentle (c ∷ cs) ≡ true → all_gentle (c ∷ []) ≡ true
gentle_first (write_event d k e blob time_source) cs g = ground (arith, g)
gentle_first (flush d) cs g = ground (arith, g)
gentle_first (store_manifest b task_id) cs g = ground (arith, g)

gentle_rest : (c : Call) (cs : List Call) → all_gentle (c ∷ cs) ≡ true → all_gentle cs ≡ true
gentle_rest (write_event d k e blob time_source) cs g = ground (arith, g)
gentle_rest (flush d) cs g = ground (arith, g)
gentle_rest (store_manifest b task_id) cs g = ground (arith, g)

view_call :
    (f : Formats) (s : State) (c : Call) (r : Recorder) (rows : List Row)
    → s.recording ≡ true
    → all_gentle (c ∷ []) ≡ true
    → log_view r ≡ some rows
    → log_view (call f s c r) ≡ some (rows ++ events (c ∷ []))
view_call f s (write_event d k e blob time_source) r rows on g h =
    ap (λ b. log_view (write b d k e blob time_source r)) on
    ∙ view_write d k e blob time_source r rows (ground (arith, g)) h
view_call f s (flush d) r rows on g h =
    view_flush d r rows (ground (arith, g)) h ∙ ap some (sym (append-nil rows))
view_call f s (store_manifest b task_id) r rows on g h =
    view_manifest f s b task_id r rows (ground (arith, g)) h ∙ ap some (sym (append-nil rows))

pub view_run :
    (f : Formats) (s : State) (cs : List Call) (r : Recorder) (rows : List Row)
    → s.recording ≡ true
    → all_gentle cs ≡ true
    → log_view r ≡ some rows
    → log_view (run f s cs r) ≡ some (rows ++ events cs)
view_run f s [] r rows on g h = h ∙ ap some (sym (append-nil rows))
view_run f s (c ∷ cs) r rows on g h =
    view_run f s cs (call f s c r) (rows ++ events (c ∷ [])) on (gentle_rest c cs g)
      (view_call f s c r rows on (gentle_first c cs g) h)
    ∙ ap some
        (append_assoc rows (events (c ∷ [])) (events cs) ∙ ap (λ e. rows ++ e) (events_cons c cs))

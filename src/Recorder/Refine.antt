-- ===== src/Recorder/Refine.antt =====
-- The recorder against its abstract view: a session is the sequence of its events.
use elab_core.Prelude.{
  ℕ, String, true, false, Option, none, some, List, [], ◌∷◌, ◌++◌, ◌≡◌, ◌∙◌, sym, ap, refl, arith,
  subst, append-nil, append_assoc,
}
use elab_core.Prelude.Dict.{get}
use elab_core.State.{State, emit}
use elab_core.Recorder.{
  Row, Tables, Connection, fine, Recorder, Disk, Clock, flush_locked, row_of, write,
}
use elab_core.Recorder.Session.{
  Formats, StartClock, Started, BoundsFaults, start, start_session, prepared, open_file, marker,
  stop, session_name,
}
use elab_core.Recorder.Flush.{log_view, view_open, is_gentle, opened}
use elab_core.Recorder.Lossless.{Call, run, events, all_gentle, view_run, view_write}
use elab_core.Recorder.Path.{path-run, path-flush, path-write}
use elab_core.Recorder.Settled.{healthy, flush-Settled, write-IsReady}
use elab_core.Recorder.Lifecycle.{closed, prepared_keeps}

-- A recording that starts, takes the calls, and stops.
abbrev pub record_session :
    Formats
    → StartClock
    → Option String
    → Disk
    → List Call
    → Disk
    → ℕ
    → BoundsFaults
    → ℕ
    → Clock
    → Recorder
    → State
    → Recorder × State
record_session f k name at_start cs at_end flushed b event last r s =
    let (r₁, s₁, _) = start f at_start k name r s in
    let (r₂, s₂, _) = stop f at_end (healthy flushed) b event last (run f s₁ cs r₁) s₁ in (r₂, s₂)

started_view :
    (f : Formats) (d : Disk) (k : StartClock) (id : String) (r : Recorder) (s : State)
    → is_gentle d ≡ true
    → let (r₁, s₁, _) = start_session f d k id r s in
      (log_view r₁
        ≡ some (
            (open_file r.files id).session_log
            ++ (row_of (marker "SESSION_START" k.event) none k.write.fallback k.write.now ∷ [])))
      × (s₁.recording ≡ true)
      × (r₁.db_path ≡ id)
unfolding start_session emit
started_view f d k id r s g =
    let tables = prepared f k s (open_file r.files id) in
    let c : Connection = record { committed = tables; working = tables } in
    let r' : Recorder = record {
      conn = some c;
      db_path = id;
      buffer = [];
      pending_sources = [];
      known_sources = [];
      last_flush = k.last_flush;
      files = r.files;
    } in
    let e = marker "SESSION_START" k.event in
    (
      view_write d k.write e none none r' (open_file r.files id).session_log g (
          view_open r' c refl
          ∙ ap some (append-nil tables.session_log ∙ prepared_keeps f k s (open_file r.files id))),
      refl,
      path-write true d k.write e none none r',
    )

stopped_file :
    (f : Formats) (d : Disk) (flushed : ℕ) (b : BoundsFaults) (event : ℕ) (k : Clock) (r : Recorder)
    (s : State) (rows : List Row)
    → s.recording ≡ true
    → is_gentle d ≡ true
    → d.commit_fault ≡ fine
    → log_view r ≡ some rows
    → let (r', s', _) = stop f d (healthy flushed) b event k r s in
      ((t : Tables) × (get r'.files r.db_path ≡ some t)
        × (t.session_log
            ≡ rows ++ (row_of (marker "SESSION_END" event) none k.fallback k.now ∷ [])))
      × (s'.recording ≡ false)
unfolding stop emit
stopped_file f d flushed b event k r s rows on g works h =
    let e = marker "SESSION_END" event in
    let written = write true d k e none none r in
    let (c, there, _) = opened r rows h in
    let settled =
      flush-Settled flushed written (rows ++ (row_of e none k.fallback k.now ∷ []))
        (write-IsReady d works k e none none r c there) (view_write d k e none none r rows g h) in
    let (t, found, log) = closed f b (flush_locked (healthy flushed) written) _ settled in
    let path = path-flush (healthy flushed) written ∙ path-write true d k e none none r in
    ((t, ground (arith, on, found, path), log), ground (arith, on))

-- What `recording_refines` says, of the result of the start.
abbrev Complete :
    Formats
    → StartClock
    → String
    → List Call
    → Disk
    → ℕ
    → BoundsFaults
    → ℕ
    → Clock
    → Recorder
    → Recorder × State × Started
    → Type 0
Complete f k id cs at_end flushed b event last r (r₁, s₁, _) =
    let (r₂, s₂, _) = stop f at_end (healthy flushed) b event last (run f s₁ cs r₁) s₁ in
    ((t : Tables) × (get r₂.files id ≡ some t)
      × (t.session_log
          ≡ (open_file r.files id).session_log
            ++ (row_of (marker "SESSION_START" k.event) none k.write.fallback k.write.now
                ∷ events cs)
            ++ (row_of (marker "SESSION_END" event) none last.fallback last.now ∷ [])))
    × (s₂.recording ≡ false)

session-Complete :
    (f : Formats) (k : StartClock) (id : String) (at_start : Disk) (cs : List Call) (at_end : Disk)
    (flushed : ℕ) (b : BoundsFaults) (event : ℕ) (last : Clock) (r : Recorder) (s : State)
    → is_gentle at_start ≡ true
    → all_gentle cs ≡ true
    → is_gentle at_end ≡ true
    → at_end.commit_fault ≡ fine
    → Complete f k id cs at_end flushed b event last r (start_session f at_start k id r s)
session-Complete f k id at_start cs at_end flushed b event last r s g₁ g g₂ works =
    let first = row_of (marker "SESSION_START" k.event) none k.write.fallback k.write.now in
    let r₁ = (start_session f at_start k id r s).0 in
    let s₁ = (start_session f at_start k id r s).1 in
    let (view, on, path) = started_view f at_start k id r s g₁ in
    let r₂ = run f s₁ cs r₁ in
    let ran = view_run f s₁ cs r₁ _ on g view in
    let ((t, found, log), stopped) =
      stopped_file f at_end flushed b event last r₂ s₁ _ on g₂ works ran in
    let r₃ = (stop f at_end (healthy flushed) b event last r₂ s₁).0 in
    (
      (
        t,
        subst (λ p. get r₃.files p ≡ some t) (path-run f s₁ cs r₁ ∙ path) found,
        log
            ∙ ap
                (λ rows.
                  rows ++ (row_of (marker "SESSION_END" event) none last.fallback last.now ∷ []))
                (append_assoc (open_file r.files id).session_log (first ∷ []) (events cs)),
      ),
      stopped,
    )

started_lem :
    (f : Formats) (d : Disk) (k : StartClock) (name : Option String) (r : Recorder) (s : State)
    → s.recording ≡ false
    → start f d k name r s ≡ start_session f d k (session_name f k.time_str name) r s
unfolding start
started_lem f d k name r s off = ground (arith, off)

-- A recording that starts when none is running, on a disk on which every fault leaves the
-- transaction and the events of a flush whole, and that stops on a disk that works again: the file
-- of the session then has the rows that it had before, the start, every event of the calls once
-- and in order, and the end; and no recording is running.
pub recording_refines :
    (f : Formats) (k : StartClock) (name : Option String) (at_start : Disk) (cs : List Call)
    (at_end : Disk) (flushed : ℕ) (b : BoundsFaults) (event : ℕ) (last : Clock) (r : Recorder)
    (s : State)
    → s.recording ≡ false
    → is_gentle at_start ≡ true
    → all_gentle cs ≡ true
    → is_gentle at_end ≡ true
    → at_end.commit_fault ≡ fine
    → let (r', s') = record_session f k name at_start cs at_end flushed b event last r s in
      let id = session_name f k.time_str name in
      ((t : Tables) × (get r'.files id ≡ some t)
        × (t.session_log
            ≡ (open_file r.files id).session_log
              ++ (row_of (marker "SESSION_START" k.event) none k.write.fallback k.write.now
                  ∷ events cs)
              ++ (row_of (marker "SESSION_END" event) none last.fallback last.now ∷ [])))
      × (s'.recording ≡ false)
recording_refines f k name at_start cs at_end flushed b event last r s off g₁ g g₂ works =
    subst (Complete f k (session_name f k.time_str name) cs at_end flushed b event last r)
      (sym (started_lem f at_start k name r s off))
      (session-Complete f k (session_name f k.time_str name) at_start cs at_end flushed b event last
        r s g₁ g g₂ works)

-- ===== src/Recorder/Settled.antt =====
-- When a flush leaves everything on disk.
use elab_core.Prelude.{
  ℕ, String, true, false, Option, none, some, List, [], ◌∷◌, ◌++◌, ◌≡◌, ◌∙◌, sym, ap, refl, ◌&&◌,
  ◌||◌, arith, subst, if_lem, if◌then◌else◌, inl, inr, ◌⊎◌, length, ◌+◌, leb,
}
use elab_core.Recorder.{
  Row, Connection, fine, Recorder, Disk, Clock, LogEvent, execute_many, insert_all, insert_row,
  insert_source, commit, commit_rows, flush_rows, flush_sources, is_empty, flush_locked, row_of,
  note_source, buffered, flush_if_due, write,
}
use elab_core.Recorder.Lossless.{noted}
use elab_core.Recorder.Flush.{log_view, seen, rows_log, nothing_buffered, sources_log, view_open}

abbrev pub healthy : ℕ → Disk
healthy clock = record {
  sources_fault = fine;
  log_fault = fine;
  commit_fault = fine;
  clock = clock;
}

-- The rows are on disk.
pub record Settled (r : Recorder) (rows : List Row) : Type 0 where
  pub connection : Connection
  pub conn : r.conn ≡ some connection
  pub on_disk : connection.committed.session_log ≡ rows
  pub in_transaction : connection.working.session_log ≡ rows
  pub buffer : is_empty r.buffer ≡ true

-- If nothing waits in the buffer then nothing waits in the transaction.
pub record IsReady (r : Recorder) : Type 0 where
  pub connection : Connection
  pub conn : r.conn ≡ some connection
  pub caught_up :
      (is_empty r.buffer ≡ false)
      ⊎ (connection.committed.session_log ≡ connection.working.session_log)

commit-Settled :
    (clock : ℕ) (c : Connection) (r : Recorder) (rows : List Row)
    → c.working.session_log ≡ rows
    → Settled (commit_rows (healthy clock) c r) rows
unfolding commit_rows commit is_empty
commit-Settled clock c r rows h = record {
  connection = record c { committed = c.working };
  conn = refl;
  on_disk = h;
  in_transaction = h;
  buffer = refl;
}

rows-Settled :
    (clock : ℕ) (c : Connection) (r : Recorder)
    → Settled (flush_rows (healthy clock) c r) (seen c r.buffer)
unfolding flush_rows execute_many is_empty
rows-Settled clock c r =
    if_lem (λ r'. Settled r' (seen c r.buffer)) (is_empty r.buffer)
      (commit_rows (healthy clock) c r)
      (commit_rows (healthy clock) (record c { working = insert_all insert_row r.buffer c.working })
        r)
      (λ e. commit-Settled clock c r (seen c r.buffer) (sym (nothing_buffered r.buffer c e)))
      (λ e.
        commit-Settled clock (record c { working = insert_all insert_row r.buffer c.working }) r
          (seen c r.buffer) (rows_log r.buffer c.working))

sources-Settled :
    (clock : ℕ) (c : Connection) (r : Recorder)
    → Settled (flush_sources (healthy clock) c r) (seen c r.buffer)
unfolding flush_sources execute_many
sources-Settled clock c r =
    let c' = record c { working = insert_all insert_source r.pending_sources c.working } in
    if_lem (λ r'. Settled r' (seen c r.buffer)) (is_empty r.pending_sources)
      (flush_rows (healthy clock) c r)
      (flush_rows (healthy clock) c' (record r { pending_sources = [] }))
      (λ e. rows-Settled clock c r)
      (λ e.
        subst (Settled (flush_rows (healthy clock) c' (record r { pending_sources = [] })))
          (ap (λ log. log ++ r.buffer) (sources_log r.pending_sources c.working))
          (rows-Settled clock c' (record r { pending_sources = [] })))

idle-Settled :
    (c : Connection) (r : Recorder) (rows : List Row)
    → r.conn ≡ some c
    → seen c r.buffer ≡ rows
    → is_empty r.buffer ≡ true
    → (is_empty r.buffer ≡ false) ⊎ (c.committed.session_log ≡ c.working.session_log)
    → Settled r rows
idle-Settled c r rows conn there idle caught_up =
    let in_transaction : c.working.session_log ≡ rows =
      sym (nothing_buffered r.buffer c idle) ∙ there in
    record {
      connection = c;
      conn = conn;
      on_disk = elim caught_up [
        | inl busy ↦ absurd (ground (arith, idle, busy))
        | inr e ↦ e ∙ in_transaction
      ];
      in_transaction = in_transaction;
      buffer = idle;
    }

-- A flush of a healthy database.
pub flush-Settled :
    (clock : ℕ) (r : Recorder) (rows : List Row)
    → IsReady r
    → log_view r ≡ some rows
    → Settled (flush_locked (healthy clock) r) rows
unfolding flush_locked
flush-Settled clock r rows ready h =
    let c = ready.connection in
    let there : seen c r.buffer ≡ rows = ground (arith, h, view_open r c ready.conn) in
    let flushed =
      ap
        (λ o. elim o [
          | none ↦ r
          | some c ↦
              if is_empty r.buffer && is_empty r.pending_sources
              then r
              else flush_sources (healthy clock) c r
        ])
        ready.conn in
    subst (λ r'. Settled r' rows) (sym flushed)
      (if_lem (λ r'. Settled r' rows) (is_empty r.buffer && is_empty r.pending_sources) r
        (flush_sources (healthy clock) c r)
        (λ idle. idle-Settled c r rows ready.conn there (ground (arith, idle)) ready.caught_up)
        (λ busy.
          subst (Settled (flush_sources (healthy clock) c r)) there (sources-Settled clock c r)))

busy_append : (rows : List Row) (row : Row) → is_empty (rows ++ (row ∷ [])) ≡ false
unfolding is_empty
busy_append [] row = refl
busy_append (x ∷ xs) row = refl

pub buffered_busy :
    (row : Row) (t : Option String) (r : Recorder)
    → is_empty (buffered row (note_source t row r)).buffer ≡ false
unfolding buffered
buffered_busy row t r = busy_append (note_source t row r).buffer row

pub buffered_conn :
    (row : Row) (t : Option String) (r : Recorder)
    → (buffered row (note_source t row r)).conn ≡ r.conn
unfolding buffered
buffered_conn row t r = (noted t row r).0

module _ (d : Disk) (works : d.commit_fault ≡ fine) where
  commit-IsReady : (c : Connection) (r : Recorder) → IsReady (commit_rows d c r)
  unfolding commit_rows commit
  commit-IsReady c r =
      subst (λ f. IsReady (commit_rows (record d { commit_fault = f }) c r)) (sym works)
        (record {
          connection = record c { committed = c.working };
          conn = refl;
          caught_up = inr refl;
        })

  rows-IsReady :
      (c : Connection) (r : Recorder) → is_empty r.buffer ≡ false → IsReady (flush_rows d c r)
  unfolding flush_rows
  rows-IsReady c r busy =
      let done = execute_many d.log_fault insert_row r.buffer c in
      if_lem IsReady (is_empty r.buffer) (commit_rows d c r)
        (if done.1 then commit_rows d done.0 r else record r { conn = some done.0 })
        (λ e. commit-IsReady c r)
        (λ e.
          if_lem IsReady done.1 (commit_rows d done.0 r) (record r { conn = some done.0 })
            (λ _. commit-IsReady done.0 r)
            (λ _. record { connection = done.0; conn = refl; caught_up = inl busy }))

  sources-IsReady :
      (c : Connection) (r : Recorder) → is_empty r.buffer ≡ false → IsReady (flush_sources d c r)
  unfolding flush_sources
  sources-IsReady c r busy =
      let done = execute_many d.sources_fault insert_source r.pending_sources c in
      let r' = record r { pending_sources = [] } in
      if_lem IsReady (is_empty r.pending_sources) (flush_rows d c r)
        (if done.1 then flush_rows d done.0 r' else record r { conn = some done.0 })
        (λ e. rows-IsReady c r busy)
        (λ e.
          if_lem IsReady done.1 (flush_rows d done.0 r') (record r { conn = some done.0 })
            (λ _. rows-IsReady done.0 r' busy)
            (λ _. record { connection = done.0; conn = refl; caught_up = inl busy }))

  locked-IsReady :
      (c : Connection) (r : Recorder)
      → r.conn ≡ some c
      → is_empty r.buffer ≡ false
      → IsReady (flush_locked d r)
  unfolding flush_locked
  locked-IsReady c r conn busy =
      subst IsReady (sym (ground (arith, conn, busy))) (sources-IsReady c r busy)

  -- A write after which a commit would succeed.
  pub write-IsReady :
      (k : Clock) (e : LogEvent) (blob time_source : Option String) (r : Recorder) (c : Connection)
      → r.conn ≡ some c
      → IsReady (write true d k e blob time_source r)
  unfolding write flush_if_due
  write-IsReady k e blob time_source r c h =
      let row = row_of e blob k.fallback k.now in
      let r' = buffered row (note_source time_source row r) in
      let conn = buffered_conn row time_source r ∙ h in
      let busy = buffered_busy row time_source r in
      subst IsReady (sym (ground (arith, h))) (
        if_lem IsReady (leb 200 (length r'.buffer) || leb (r'.last_flush + 500) k.now)
          (flush_locked d r') r' (λ _. locked-IsReady c r' conn busy)
          (λ _. record { connection = c; conn = conn; caught_up = inl busy }))

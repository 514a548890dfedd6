-- ===== src/Recorder/Retry.antt =====
-- The buffer between flushes, and a flush that is tried again.
use elab_core.Prelude.{
  ℕ, String, true, false, Option, some, List, [], ◌∷◌, ◌++◌, ◌≡◌, ◌∙◌, sym, ap, refl, ◌||◌, arith,
  subst, if_lem, if◌then◌else◌, inl, length, leb, ◌+◌, ◌<◌, take,
}
use elab_core.Recorder.{
  Row, Connection, fine, fails_after, Recorder, Disk, Clock, LogEvent, execute_many, insert_all,
  insert_row, flush_rows, flush_sources, is_empty, flush_locked, row_of, note_source, buffered,
  flush_if_due, write,
}
use elab_core.Recorder.Flush.{view_open, rows_log}
use elab_core.Recorder.Settled.{Settled, healthy, flush-Settled, buffered_busy, buffered_conn}

-- The insertion of the events fails after `n` of them.
abbrev pub breaks_after : ℕ → Disk
breaks_after n = record {
  sources_fault = fine;
  log_fault = fails_after n;
  commit_fault = fine;
  clock = 0;
}

broken_flush :
    (n : ℕ) (r : Recorder) (c : Connection)
    → r.conn ≡ some c
    → is_empty r.pending_sources ≡ true
    → is_empty r.buffer ≡ false
    → flush_locked (breaks_after n) r ≡ record r {
      conn = some (record c { working = insert_all insert_row (take n r.buffer) c.working });
    }
unfolding flush_locked flush_sources flush_rows execute_many
broken_flush n r c conn quiet busy = ground (arith, conn, quiet, busy)

-- If the insertion of the buffered events fails after some of them and the next flush succeeds,
-- then those are in the log twice: the code keeps the buffer and does not roll back.
pub retry_duplicates :
    (n clock : ℕ) (r : Recorder) (c : Connection)
    → r.conn ≡ some c
    → is_empty r.pending_sources ≡ true
    → is_empty r.buffer ≡ false
    → Settled
        (flush_locked (healthy clock) (flush_locked (breaks_after n) r))
        (c.working.session_log ++ take n r.buffer ++ r.buffer)
retry_duplicates n clock r c conn quiet busy =
    let c' = record c { working = insert_all insert_row (take n r.buffer) c.working } in
    let r' = record r { conn = some c' } in
    subst
      (λ x.
        Settled (flush_locked (healthy clock) x)
          (c.working.session_log ++ take n r.buffer ++ r.buffer))
      (sym (broken_flush n r c conn quiet busy))
      (flush-Settled clock r' (c.working.session_log ++ take n r.buffer ++ r.buffer)
        (record { connection = c'; conn = refl; caught_up = inl busy })
        (view_open r' c' refl
          ∙ ap (λ log. some (log ++ r.buffer)) (rows_log (take n r.buffer) c.working)))

empty-length : (rows : List Row) → is_empty rows ≡ true → length rows < 200
unfolding is_empty
empty-length [] h = omega arith
empty-length (x ∷ xs) h = ground (arith, h)

flushed-bounded :
    (clock : ℕ) (r : Recorder) (c : Connection)
    → r.conn ≡ some c
    → is_empty r.buffer ≡ false
    → length (flush_locked (healthy clock) r).buffer < 200
flushed-bounded clock r c conn busy =
    let settled =
      flush-Settled clock r (c.working.session_log ++ r.buffer)
        (record { connection = c; conn = conn; caught_up = inl busy }) (view_open r c conn) in
    empty-length (flush_locked (healthy clock) r).buffer settled.buffer

-- While a database is open that works, fewer than 200 events wait in the buffer after every write, if
-- fewer waited before it.
pub write-bounded :
    (clock : ℕ) (k : Clock) (e : LogEvent) (blob t : Option String) (r : Recorder) (c : Connection)
    → r.conn ≡ some c
    → length r.buffer < 200
    → length (write true (healthy clock) k e blob t r).buffer < 200
unfolding write flush_if_due
write-bounded clock k e blob t r c conn few =
    let row = row_of e blob k.fallback k.now in
    let r' = buffered row (note_source t row r) in
    let due = leb 200 (length r'.buffer) || leb (r'.last_flush + 500) k.now in
    let chosen : write true (healthy clock) k e blob t r
        ≡ (if due then flush_locked (healthy clock) r' else r') =
      ground (arith, conn) in
    subst (λ (x : Recorder). length x.buffer < 200) (sym chosen)
      (if_lem (λ (x : Recorder). length x.buffer < 200) due (flush_locked (healthy clock) r') r'
        (λ _. flushed-bounded clock r' c (buffered_conn row t r ∙ conn) (buffered_busy row t r))
        (λ waits. ground (arith, waits)))

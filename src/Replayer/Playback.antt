-- ===== src/Replayer/Playback.antt =====
-- What a session that plays sends, round after round.
use elab_core.Prelude.{
  ℕ, String, ◌+◌, ◌≡◌, ◌∙◌, ap, sym, refl, true, false, Option, List, [], ◌∷◌, ◌++◌, arith,
  if◌then◌else◌, if_test, ◌==◌, append_assoc, append-nil, is_some,
}
use elab_core.Recorder.{Row}
use elab_core.Replayer.{
  Recorded, Out, replay_status, replay_progress, replay_reset, data_stream, Replayer, Round, emit,
  select, replayed, original_source, emit_row, emit_rows, connected_rows, emit_range, emit_progress,
  is_at_end, handle_commands, is_loaded, advance, play_round, run_round,
}

-- what a replay leaves as it was recorded: the source and the body
abbrev pub Original : Type 0
Original = Option String × String

-- the data that was sent
abbrev pub originals : List Out → List Original
originals [] = []
originals (replay_status s ∷ os) = originals os
originals (replay_progress t d ∷ os) = originals os
originals (replay_reset t d ∷ os) = originals os
originals (data_stream p ∷ os) = (p.original_source_id, p.body) ∷ originals os

abbrev pub row_data : Recorded → List Original
row_data e = if e.kind == "DATA_STREAM" then (original_source e.source_id, e.body) ∷ [] else []

-- the data of the rows
abbrev pub data_of : (String → Recorded) → List Row → List Original
data_of loads [] = []
data_of loads (row ∷ rows) = row_data (loads row.payload) ++ data_of loads rows

abbrev pub row_says : Round → ℕ → Row → List Out
row_says k end row =
    let e = k.loads row.payload in
    if e.kind == "DATA_STREAM" then data_stream (replayed k end row.binary_data e) ∷ [] else []

abbrev pub says : Round → ℕ → List Row → List Out
says k end [] = []
says k end (row ∷ rows) = row_says k end row ++ says k end rows

pub originals-append : (xs ys : List Out) → originals (xs ++ ys) ≡ originals xs ++ originals ys
originals-append [] ys = refl
originals-append (replay_status s ∷ xs) ys = originals-append xs ys
originals-append (replay_progress t d ∷ xs) ys = originals-append xs ys
originals-append (replay_reset t d ∷ xs) ys = originals-append xs ys
originals-append (data_stream p ∷ xs) ys =
    ap (λ rest. (p.original_source_id, p.body) ∷ rest) (originals-append xs ys)

originals-row_says :
    (k : Round) (end : ℕ) (row : Row)
    → originals (row_says k end row) ≡ row_data (k.loads row.payload)
unfolding original_source replayed
originals-row_says k end row =
    if_test (λ os ds. originals os ≡ ds) ((k.loads row.payload).kind == "DATA_STREAM") _ _ _ _ refl
      refl

pub originals-says :
    (k : Round) (end : ℕ) (rows : List Row) → originals (says k end rows) ≡ data_of k.loads rows
originals-says k end [] = refl
originals-says k end (row ∷ rows) =
    originals-append (row_says k end row) (says k end rows)
    ∙ ap (λ xs. xs ++ originals (says k end rows)) (originals-row_says k end row)
    ∙ ap (λ xs. row_data (k.loads row.payload) ++ xs) (originals-says k end rows)

pub data-append :
    (loads : String → Recorded) (xs ys : List Row)
    → data_of loads (xs ++ ys) ≡ data_of loads xs ++ data_of loads ys
data-append loads [] ys = refl
data-append loads (x ∷ xs) ys =
    ap (λ rest. row_data (loads x.payload) ++ rest) (data-append loads xs ys)
    ∙ sym (append_assoc (row_data (loads x.payload)) (data_of loads xs) (data_of loads ys))

abbrev saying : List Out → Replayer → Replayer
saying os r = record r { sent = r.sent ++ os }

emit_row_lem :
    (k : Round) (end : ℕ) (row : Row) (r : Replayer)
    → emit_row k end row r ≡ saying (row_says k end row) r
unfolding emit_row emit
emit_row_lem k end row r =
    let o = data_stream (replayed k end row.binary_data (k.loads row.payload)) in
    if_test (λ x os. x ≡ saying os r) ((k.loads row.payload).kind == "DATA_STREAM") (emit o r) r
      (o ∷ []) [] refl (ap (λ os. record r { sent = os }) (sym (append-nil r.sent)))

emit_rows_lem :
    (k : Round) (end : ℕ) (rows : List Row) (r : Replayer)
    → emit_rows k end rows r ≡ saying (says k end rows) r
unfolding emit_rows
emit_rows_lem k end [] r = ap (λ os. record r { sent = os }) (sym (append-nil r.sent))
emit_rows_lem k end (row ∷ rows) r =
    ap (emit_rows k end rows) (emit_row_lem k end row r)
    ∙ emit_rows_lem k end rows (saying (row_says k end row) r)
    ∙ ap (λ os. record r { sent = os }) (append_assoc r.sent (row_says k end row) (says k end rows))

-- The replayer plays a session: it is loaded, connected and not paused, and no command waits.
pub record IsPlaying (r : Replayer) : Type 0 where
  pub loaded : is_loaded r ≡ true
  pub connected : is_some r.conn ≡ true
  pub not_paused : r.paused ≡ false
  pub no_commands : r.command_queue ≡ []

abbrev pub playing_rows : Round → Replayer → ℕ → List Row
playing_rows k r last =
    select (r.session_start_ms + r.current_replay_ms) (r.session_start_ms + last)
      (connected_rows k r.conn)

-- A round that plays and does not reach the end.
abbrev pub moved : Round → Replayer → Replayer
moved k r =
    let next = r.current_replay_ms + k.dt in
    record r {
      current_replay_ms = next;
      sent =
          r.sent
          ++ says k (r.session_start_ms + next) (playing_rows k r next)
          ++ (replay_progress next r.session_duration_ms ∷ []);
    }

pub advance_lem :
    (k : Round) (r : Replayer) → k.can_read ≡ true → is_at_end r ≡ false → advance k r ≡ moved k r
unfolding advance emit_range emit_progress emit
advance_lem k r reads inside =
    let next = r.current_replay_ms + k.dt in
    let said = emit_rows_lem k (r.session_start_ms + next) (playing_rows k r next) r in
    let assoc =
      append_assoc r.sent (says k (r.session_start_ms + next) (playing_rows k r next))
        (replay_progress next r.session_duration_ms ∷ []) in
    let parts : emit_progress
          (record (emit_range k r.current_replay_ms next r) { current_replay_ms = next })
        ≡ moved k r =
      ap (λ (x : Replayer). emit_progress (record x { current_replay_ms = next })) said in
    ground (arith, reads, inside, parts)

pub no_commands_lem :
    (k : Round) (r : Replayer)
    → r.command_queue ≡ []
    → handle_commands k r.command_queue (record r { command_queue = [] }) ≡ r
unfolding handle_commands
no_commands_lem k r h =
    ap (λ q. handle_commands k q (record r { command_queue = [] })) h
    ∙ ap (λ q. record r { command_queue = q }) (sym h)

pub round_lem : (k : Round) (r : Replayer) → IsPlaying r → run_round k r ≡ advance k r
unfolding run_round play_round
round_lem k r p =
    let loaded = p.loaded in
    let connected = p.connected in
    let not_paused = p.not_paused in
    let unchanged = no_commands_lem k r p.no_commands in
    ground (arith, loaded, connected, not_paused, unchanged)

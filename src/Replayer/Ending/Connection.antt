-- ===== src/Replayer/Ending/Connection.antt =====
-- Which session the loop is connected to.
use elab_core.Prelude.{
  ℕ, ◌+◌, ◌-◌, String, ◌≡◌, ◌∙◌, ap, sym, refl, Bool, true, false, some, List, [], ◌∷◌, arith,
  if◌then◌else◌, if_lem, inl, inr, is_some, subst, ◌==◌,
}
use elab_core.Recorder.{Row}
use elab_core.Replayer.{
  Replayer, Round, Command, unload, stop, pause, play, seek, other, emit, emit_progress, emit_reset,
  emit_row, emit_rows, emit_range, is_at_end, finish, advance, play_round, run_round, rewind,
  handle_seek, seek_target, handle_command, handle_commands, is_loaded,
}
use elab_core.Replayer.Load.{Sessions, loaded, load_session}
use elab_core.Replayer.Load.Branches.{load_session_lem, load_apart}

abbrev pub keeps_session : List Command → Bool
keeps_session [] = true
keeps_session (unload ∷ cs) = false
keeps_session (stop ∷ cs) = keeps_session cs
keeps_session (pause ∷ cs) = keeps_session cs
keeps_session (play ∷ cs) = keeps_session cs
keeps_session (seek v ∷ cs) = keeps_session cs
keeps_session (other n ∷ cs) = keeps_session cs

-- The session, its flag and the connection are as before.
record IsSameSession (r r' : Replayer) : Type 0 where
  path : r'.active_session_path ≡ r.active_session_path
  running : r'.running ≡ r.running
  conn : r'.conn ≡ r.conn

same : (r : Replayer) → IsSameSession r r
same r = record { path = refl; running = refl; conn = refl }

after : (r₁ r₂ r₃ : Replayer) → IsSameSession r₁ r₂ → IsSameSession r₂ r₃ → IsSameSession r₁ r₃
after r₁ r₂ r₃ h k = record {
  path = k.path ∙ h.path;
  running = k.running ∙ h.running;
  conn = k.conn ∙ h.conn;
}

emit_rows-IsSameSession :
    (k : Round) (end : ℕ) (rows : List Row) (r : Replayer)
    → IsSameSession r (emit_rows k end rows r)
unfolding emit_rows emit_row emit
emit_rows-IsSameSession k end [] r = same r
emit_rows-IsSameSession k end (row ∷ rows) r =
    after r (emit_row k end row r) _
      (if_lem (IsSameSession r) ((k.loads row.payload).kind == "DATA_STREAM") _ r
        (λ _. record { path = refl; running = refl; conn = refl }) (λ _. same r))
      (emit_rows-IsSameSession k end rows (emit_row k end row r))

emit_range-IsSameSession :
    (k : Round) (a b : ℕ) (r : Replayer) → IsSameSession r (emit_range k a b r)
unfolding emit_range
emit_range-IsSameSession k a b r = emit_rows-IsSameSession k (r.session_start_ms + b) _ r

command-IsSameSession :
    (k : Round) (c : Command) (r : Replayer)
    → keeps_session (c ∷ []) ≡ true
    → IsSameSession r (handle_command k c r)
unfolding handle_command handle_seek rewind emit emit_reset emit_progress
command-IsSameSession k unload r h = ground (arith, h)
command-IsSameSession k stop r h = record { path = refl; running = refl; conn = refl }
command-IsSameSession k pause r h = record { path = refl; running = refl; conn = refl }
command-IsSameSession k play r h =
    let r' = if is_at_end r then rewind r else r in
    after r r' (handle_command k play r)
      (if_lem (IsSameSession r) (is_at_end r) (rewind r) r
        (λ _. record { path = refl; running = refl; conn = refl }) (λ _. same r))
      (record { path = refl; running = refl; conn = refl })
command-IsSameSession k (seek v) r h =
    let target = seek_target v r.session_duration_ms in
    let r₁ = emit_reset target (record r { current_replay_ms = target }) in
    let r₂ = if k.can_read then emit_range k (target - 2000) target r₁ else r₁ in
    let moved : IsSameSession r r₁ = record { path = refl; running = refl; conn = refl } in
    let shown =
      if_lem (IsSameSession r) k.can_read (emit_range k (target - 2000) target r₁) r₁
        (λ _. after r r₁ _ moved (emit_range-IsSameSession k (target - 2000) target r₁))
        (λ _. moved) in
    after r r₂ (handle_command k (seek v) r) shown
      (record { path = refl; running = refl; conn = refl })
command-IsSameSession k (other n) r h = same r

keeps_first :
    (c : Command) (cs : List Command)
    → keeps_session (c ∷ cs) ≡ true
    → (keeps_session (c ∷ []) ≡ true) × (keeps_session cs ≡ true)
keeps_first unload cs h = ground (arith, h)
keeps_first stop cs h = (refl, h)
keeps_first pause cs h = (refl, h)
keeps_first play cs h = (refl, h)
keeps_first (seek v) cs h = (refl, h)
keeps_first (other n) cs h = (refl, h)

commands-IsSameSession :
    (k : Round) (cs : List Command) (r : Replayer)
    → keeps_session cs ≡ true
    → IsSameSession r (handle_commands k cs r)
unfolding handle_commands
commands-IsSameSession k [] r h = same r
commands-IsSameSession k (c ∷ cs) r h =
    let (first, rest) = keeps_first c cs h in
    after r (handle_command k c r) _ (command-IsSameSession k c r first)
      (commands-IsSameSession k cs (handle_command k c r) rest)

advance-IsSameSession : (k : Round) (r : Replayer) → IsSameSession r (advance k r)
unfolding advance finish emit_progress emit
advance-IsSameSession k r =
    let next = r.current_replay_ms + k.dt in
    let range = emit_range k r.current_replay_ms next r in
    if_lem (IsSameSession r) (is_at_end r) (finish r) _
      (λ _. record { path = refl; running = refl; conn = refl })
      (λ _.
        if_lem (IsSameSession r) k.can_read
          (emit_progress (record range { current_replay_ms = next })) (record r { paused = true })
          (λ _.
            after r range _ (emit_range-IsSameSession k r.current_replay_ms next r)
              (record { path = refl; running = refl; conn = refl }))
          (λ _. record { path = refl; running = refl; conn = refl }))

round-IsSameSession :
    (k : Round) (r : Replayer)
    → is_loaded r ≡ true
    → is_some r.conn ≡ true
    → keeps_session r.command_queue ≡ true
    → IsSameSession r (run_round k r)
unfolding run_round play_round is_loaded
round-IsSameSession k r there connected keeps =
    let r₁ = record r { command_queue = [] } in
    let r₂ = handle_commands k r.command_queue r₁ in
    let kept : IsSameSession r r₂ =
      after r r₁ r₂ (record { path = refl; running = refl; conn = refl })
        (commands-IsSameSession k r.command_queue r₁ keeps) in
    let path = kept.path in
    let running = kept.running in
    let chosen : run_round k r ≡ (if r₂.paused then r₂ else advance k r₂) =
      ground (arith, there, connected, path, running) in
    subst (IsSameSession r) (sym chosen) (
      if_lem (IsSameSession r) r₂.paused r₂ (advance k r₂) (λ _. kept)
        (λ _. after r r₂ (advance k r₂) kept (advance-IsSameSession k r₂)))

-- If the loop is connected to a session and another one is loaded, without an unload in between, the
-- next round reads from the first session still, whichever session is loaded.
pub load_keeps_connection :
    (d : Sessions) (k : Round) (id old : String) (r : Replayer)
    → r.conn ≡ some old
    → keeps_session r.command_queue ≡ true
    → (load_session d id r).1 ≡ loaded
    → let r' = run_round k (load_session d id r).0 in
      (r'.conn ≡ some old) × (r'.active_session_path ≡ some id)
unfolding is_loaded
load_keeps_connection d k id old r connected keeps success = elim (load_session_lem d id r) [
  | inl (_, now) ↦
      let r₁ = (load_session d id r).0 in
      let (conn, queue) = load_apart d id r in
      let path = now.path in
      let running = now.running in
      let kept =
        round-IsSameSession k r₁ (ground (arith, path, running)) (ground (arith, conn, connected))
          (ap keeps_session queue ∙ keeps) in
      (kept.conn ∙ conn ∙ connected, kept.path ∙ path)
  | inr (failed, _) ↦ absurd (failed success)
]

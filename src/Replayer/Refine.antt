-- ===== src/Replayer/Refine.antt =====
-- Playback against its abstract view: the data of a session in the order of its times.
use elab_core.Prelude.{
  ℕ, ◌+◌, ◌≤◌, ◌≡◌, ◌∙◌, ap, sym, refl, true, false, List, [], ◌∷◌, ◌++◌, arith, Bool-cases, inl,
  inr, ◌⊎◌, append_assoc, append-nil, is_some, subst,
}
use elab_core.Replayer.{
  replay_status, replay_progress, stopped, Replayer, Round, emit, select, connected_rows,
  emit_progress, is_at_end, is_loaded, finish, advance, play_round, run_round,
}
use elab_core.Replayer.Windows.{select_split, select_empty}
use elab_core.Replayer.Playback.{
  IsPlaying, originals, data_of, originals-append, originals-says, data-append, moved, playing_rows,
  advance_lem, round_lem, no_commands_lem, says,
}

-- A tick is the time since the last one, times the speed, and the clock.
abbrev pub Tick : Type 0
Tick = ℕ × ℕ

abbrev pub round_at : Round → Tick → Round
round_at k (dt, now) = record k { dt = dt; now = now }

abbrev pub play_rounds : Round → List Tick → Replayer → Replayer
play_rounds k [] r = r
play_rounds k (t ∷ ts) r = play_rounds k ts (run_round (round_at k t) r)

abbrev pub total : List Tick → ℕ
total [] = 0
total ((dt, now) ∷ ts) = dt + total ts

-- The replayer is loaded and connected, no command waits, and it is paused.
pub record IsPaused (r : Replayer) : Type 0 where
  pub loaded : is_loaded r ≡ true
  pub connected : is_some r.conn ≡ true
  pub paused : r.paused ≡ true
  pub no_commands : r.command_queue ≡ []

paused_round : (k : Round) (r : Replayer) → IsPaused r → run_round k r ≡ r
unfolding run_round play_round
paused_round k r p =
    let loaded = p.loaded in
    let connected = p.connected in
    let paused = p.paused in
    let unchanged = no_commands_lem k r p.no_commands in
    ground (arith, loaded, connected, paused, unchanged)

pub paused_rounds :
    (k : Round) (ts : List Tick) (r : Replayer) → IsPaused r → play_rounds k ts r ≡ r
paused_rounds k [] r p = refl
paused_rounds k (t ∷ ts) r p =
    ap (play_rounds k ts) (paused_round (round_at k t) r p) ∙ paused_rounds k ts r p

pub finish-IsPaused : (r : Replayer) → IsPlaying r → IsPaused (finish r)
unfolding finish emit_progress emit is_loaded
finish-IsPaused r p = record {
  loaded = p.loaded;
  connected = p.connected;
  paused = refl;
  no_commands = p.no_commands;
}

pub moved-IsPlaying : (k : Round) (r : Replayer) → IsPlaying r → IsPlaying (moved k r)
unfolding is_loaded
moved-IsPlaying k r p = record {
  loaded = p.loaded;
  connected = p.connected;
  not_paused = p.not_paused;
  no_commands = p.no_commands;
}

pub finish_round :
    (k : Round) (r : Replayer) → IsPlaying r → is_at_end r ≡ true → run_round k r ≡ finish r
unfolding advance
finish_round k r p e = round_lem k r p ∙ ground (arith, e)

pub moved_round :
    (k : Round) (r : Replayer)
    → IsPlaying r
    → k.can_read ≡ true
    → is_at_end r ≡ false
    → run_round k r ≡ moved k r
moved_round k r p reads e = round_lem k r p ∙ advance_lem k r reads e

-- Where playing has led: on to a position, or to the end.
abbrev pub Reached : Replayer → Replayer → List Tick → ℕ → Type 0
Reached r r' ts p =
    (IsPlaying r' × (r'.current_replay_ms ≡ p) × (p ≡ r.current_replay_ms + total ts))
    ⊎ ((r'.paused ≡ true)
        × (r'.current_replay_ms ≡ r.session_duration_ms)
        × (r.session_duration_ms ≤ p))

pub finish_position : (r : Replayer) → (finish r).current_replay_ms ≡ r.session_duration_ms
unfolding finish emit_progress emit
finish_position r = refl

finish_sent : (r : Replayer) → originals (finish r).sent ≡ originals r.sent ++ []
unfolding finish emit_progress emit
finish_sent r =
    originals-append (r.sent ++ (replay_status stopped ∷ []))
      (replay_progress r.session_duration_ms r.session_duration_ms ∷ [])
    ∙ ap (λ os. os ++ []) (originals-append r.sent (replay_status stopped ∷ []))
    ∙ append-nil (originals r.sent ++ [])

moved_sent :
    (k : Round) (r : Replayer)
    → originals (moved k r).sent
      ≡ originals r.sent ++ data_of k.loads (playing_rows k r (r.current_replay_ms + k.dt))
moved_sent k r =
    let next = r.current_replay_ms + k.dt in
    let said = says k (r.session_start_ms + next) (playing_rows k r next) in
    originals-append (r.sent ++ said) (replay_progress next r.session_duration_ms ∷ [])
    ∙ append-nil (originals (r.sent ++ said))
    ∙ originals-append r.sent said
    ∙ ap (λ os. originals r.sent ++ os)
        (originals-says k (r.session_start_ms + next) (playing_rows k r next))

no_data :
    (k : Round) (r : Replayer)
    → originals r.sent ++ []
      ≡ originals r.sent ++ data_of k.loads (playing_rows k r r.current_replay_ms)
no_data k r =
    ap (λ rows. originals r.sent ++ data_of k.loads rows)
      (sym (select_empty (r.session_start_ms + r.current_replay_ms) (connected_rows k r.conn)))

-- The data of a first round and of those after it.
meet :
    (k : Round) (r : Replayer) (dt p : ℕ)
    → r.current_replay_ms + dt ≤ p
    → let start = r.session_start_ms in
      data_of k.loads (playing_rows k r (r.current_replay_ms + dt))
        ++ data_of k.loads
            (select (start + (r.current_replay_ms + dt)) (start + p) (connected_rows k r.conn))
      ≡ data_of k.loads (playing_rows k r p)
meet k r dt p h =
    let start = r.session_start_ms in
    let rows = connected_rows k r.conn in
    sym (
      data-append k.loads (playing_rows k r (r.current_replay_ms + dt))
        (select (start + (r.current_replay_ms + dt)) (start + p) rows))
    ∙ ap (data_of k.loads) (
        select_split (start + r.current_replay_ms) (start + (r.current_replay_ms + dt)) (start + p)
          rows (omega arith) (omega (arith, h)))

-- What `played_once` says of the result.
abbrev Once : Round → Replayer → List Tick → Replayer → Type 0
Once k r ts r' =
    (p : ℕ) × (r.current_replay_ms ≤ p)
    × (originals r'.sent ≡ originals r.sent ++ data_of k.loads (playing_rows k r p))
    × Reached r r' ts p

finished-Once :
    (k : Round) (t : Tick) (ts : List Tick) (r : Replayer)
    → IsPlaying r
    → is_at_end r ≡ true
    → Once k r (t ∷ ts) (play_rounds k ts (finish r))
unfolding is_at_end
finished-Once k t ts r playing e =
    let stays = paused_rounds k ts (finish r) (finish-IsPaused r playing) in
    subst (Once k r (t ∷ ts)) (sym stays) (
      r.current_replay_ms,
      omega arith,
      finish_sent r ∙ no_data k r,
      inr ((finish-IsPaused r playing).paused, finish_position r, ground (arith, e)),
    )

moved-Once :
    (k : Round) (dt now : ℕ) (ts : List Tick) (r r' : Replayer)
    → Once k (moved (round_at k (dt, now)) r) ts r'
    → Once k r ((dt, now) ∷ ts) r'
unfolding connected_rows
moved-Once k dt now ts r r' (p, past, same, reached) = (
  p,
  omega (arith, past),
  same
      ∙ ap (λ os. os ++ data_of k.loads (playing_rows k (moved (round_at k (dt, now)) r) p))
          (moved_sent (round_at k (dt, now)) r)
      ∙ append_assoc (originals r.sent)
          (data_of k.loads (playing_rows k r (r.current_replay_ms + dt)))
          (data_of k.loads (playing_rows k (moved (round_at k (dt, now)) r) p))
      ∙ ap (λ os. originals r.sent ++ os) (meet k r dt p past),
  elim reached [
    | inl (playing, here, sum) ↦ inl (playing, here, omega (arith, sum))
    | inr at_end ↦ inr at_end
  ],
)

-- While no command comes and the database can be read, the rounds of a session that plays send the
-- data recorded from the position of the first round up to some position `p`, each once, in the
-- order of their times and with their sources and bodies unchanged; either playing goes on at `p`,
-- the sum of all ticks, or `p` lies at the end or past it and the replay has stopped at the end.
pub played_once :
    (k : Round) (ts : List Tick) (r : Replayer)
    → k.can_read ≡ true
    → IsPlaying r
    → let r' = play_rounds k ts r in
      (p : ℕ) × (r.current_replay_ms ≤ p)
      × (originals r'.sent ≡ originals r.sent ++ data_of k.loads (playing_rows k r p))
      × Reached r r' ts p
played_once k [] r reads playing = (
  r.current_replay_ms,
  omega arith,
  sym (append-nil (originals r.sent)) ∙ no_data k r,
  inl (playing, refl, omega arith),
)
played_once k ((dt, now) ∷ ts) r reads playing = elim (Bool-cases (is_at_end r)) [
  | inl e ↦
      subst (λ x. Once k r ((dt, now) ∷ ts) (play_rounds k ts x))
        (sym (finish_round (round_at k (dt, now)) r playing e))
        (finished-Once k (dt, now) ts r playing e)
  | inr e ↦
      let k' = round_at k (dt, now) in
      subst (λ x. Once k r ((dt, now) ∷ ts) (play_rounds k ts x))
        (sym (moved_round k' r playing reads e))
        (moved-Once k dt now ts r (play_rounds k ts (moved k' r))
          (played_once k ts (moved k' r) reads (moved-IsPlaying k' r playing)))
]

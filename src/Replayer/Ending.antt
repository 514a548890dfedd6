-- ===== src/Replayer/Ending.antt =====
-- When playing ends, and which session the loop reads.
pub mod Connection
use elab_core.Prelude.{
  ℕ, ◌+◌, ◌-◌, ◌≤◌, ◌<◌, ◌≡◌, ◌∙◌, ap, sym, refl, Bool, true, false, not, Option, none, some, List,
  [], ◌∷◌, ◌&&◌, leb, ltb, arith, if◌then◌else◌, Bool-cases, inl, inr, is_some, subst, length,
}
use elab_core.Replayer.{Replayer, Round, emit, emit_progress, is_at_end, finish, run_round}
use elab_core.Replayer.Playback.{IsPlaying, moved}
use elab_core.Replayer.Refine.{
  Tick, round_at, play_rounds, IsPaused, paused_rounds, finish-IsPaused, moved-IsPlaying,
  finish_round, moved_round, finish_position,
}

-- Time passes in every tick.
abbrev pub Passes : List Tick → Type 0
Passes [] = Unit
Passes ((dt, now) ∷ ts) = (0 < dt) × Passes ts

-- A session of some duration that plays, the database being readable and no command coming, has
-- stopped at its end after as many rounds in which time passes as milliseconds were left, and one more.
pub playing_ends :
    (k : Round) (ts : List Tick) (r : Replayer)
    → k.can_read ≡ true
    → IsPlaying r
    → 0 < r.session_duration_ms
    → Passes ts
    → r.session_duration_ms - r.current_replay_ms < length ts
    → let r' = play_rounds k ts r in
      (r'.paused ≡ true) × (r'.current_replay_ms ≡ r.session_duration_ms)
unfolding is_at_end
playing_ends k [] r reads playing some_time passes enough = absurd (omega (arith, enough))
playing_ends k ((dt, now) ∷ ts) r reads playing some_time (passed, passes) enough =
    let k' = round_at k (dt, now) in
    elim (Bool-cases (is_at_end r)) [
      | inl e ↦
          let there = finish_round k' r playing e in
          let stays = paused_rounds k ts (finish r) (finish-IsPaused r playing) in
          let r' = ap (play_rounds k ts) there ∙ stays in
          (
            ap (λ (x : Replayer). x.paused) r' ∙ (finish-IsPaused r playing).paused,
            ap (λ (x : Replayer). x.current_replay_ms) r' ∙ finish_position r,
          )
      | inr e ↦
          let there = ap (play_rounds k ts) (moved_round k' r playing reads e) in
          let (paused, position) =
            playing_ends k ts (moved k' r) reads (moved-IsPlaying k' r playing) some_time passes
              (ground (arith, e, some_time, enough, passed)) in
          (
            ap (λ (x : Replayer). x.paused) there ∙ paused,
            ap (λ (x : Replayer). x.current_replay_ms) there ∙ position,
          )
    ]

-- A session of duration 0 that plays, the database being readable and no command coming, goes on playing
-- through any number of rounds.
pub no_duration_never_ends :
    (k : Round) (ts : List Tick) (r : Replayer)
    → k.can_read ≡ true
    → IsPlaying r
    → r.session_duration_ms ≡ 0
    → IsPlaying (play_rounds k ts r)
unfolding is_at_end
no_duration_never_ends k [] r reads playing none_left = playing
no_duration_never_ends k ((dt, now) ∷ ts) r reads playing none_left =
    let k' = round_at k (dt, now) in
    let inside : is_at_end r ≡ false = ground (arith, none_left) in
    subst (λ x. IsPlaying (play_rounds k ts x)) (sym (moved_round k' r playing reads inside))
      (no_duration_never_ends k ts (moved k' r) reads (moved-IsPlaying k' r playing) none_left)

-- ===== src/Replayer/Load/Branches.antt =====
-- What a load leaves in the replayer.
use elab_core.Prelude.{
  ℕ, String, ◌+◌, ◌-◌, ◌≤◌, ◌≡◌, ◌≢◌, refl, true, not, Option, none, some, ◌⊎◌, inl, inr, ltb,
  arith, if◌then◌else◌, if_lem,
}
use elab_core.Recorder.{Tables}
use elab_core.Replayer.{Replayer}
use elab_core.Replayer.Load.{
  Sessions, Loaded, loaded, invalid_id, not_found, database_error, no_valid_data, inconsistent,
  clean, load_bounds, load_tables, load_session, read_time_bounds, min_valid_ms, max_valid_ms,
}

-- The session is there, from a valid first time to a valid last one, and waits at its start.
pub record IsLoaded (id : String) (r : Replayer) : Type 0 where
  pub path : r.active_session_path ≡ some id
  pub running : r.running ≡ true
  pub paused : r.paused ≡ true
  pub position : r.current_replay_ms ≡ 0
  pub first : min_valid_ms ≤ r.session_start_ms
  pub last : r.session_start_ms + r.session_duration_ms ≤ max_valid_ms

-- Nothing but the path has changed.
pub record IsUntouched (before after : Replayer) : Type 0 where
  pub running : after.running ≡ before.running
  pub paused : after.paused ≡ before.paused
  pub position : after.current_replay_ms ≡ before.current_replay_ms
  pub start : after.session_start_ms ≡ before.session_start_ms
  pub duration : after.session_duration_ms ≡ before.session_duration_ms

abbrev Outcome : String → Replayer → Replayer × Loaded → Type 0
Outcome id before (after, result) =
    ((result ≡ loaded) × IsLoaded id after) ⊎ ((result ≢ loaded) × IsUntouched before after)

untouched : (r : Replayer) → IsUntouched r r
untouched r = record {
  running = refl;
  paused = refl;
  position = refl;
  start = refl;
  duration = refl;
}

clean_lem : (t : ℕ) (v : Option ℕ) → clean v ≡ some t → (min_valid_ms ≤ t) × (t ≤ max_valid_ms)
unfolding clean
clean_lem t none h = ground (arith, h)
clean_lem t (some v) h = ground (arith, h)

-- A load that fails after it has changed the path.
failed :
    (id : String) (r : Replayer) (result : Loaded)
    → result ≢ loaded
    → Outcome id r (record r { active_session_path = some id }, result)
failed id r result h =
    inr
      (h, record { running = refl; paused = refl; position = refl; start = refl; duration = refl })

abbrev pub spanning : String → ℕ → ℕ → Replayer → Replayer
spanning id a b r = record r {
  active_session_path = some id;
  session_start_ms = a;
  session_duration_ms = b - a;
  current_replay_ms = 0;
  paused = true;
  running = true;
}

abbrev InRange : Option ℕ → Type 0
InRange v = (t : ℕ) → v ≡ some t → (min_valid_ms ≤ t) × (t ≤ max_valid_ms)

bounds-Outcome :
    (id : String) (a b : Option ℕ) (r : Replayer)
    → InRange a
    → InRange b
    → Outcome id r (load_bounds a b (record r { active_session_path = some id }))
unfolding load_bounds
bounds-Outcome id (some a) (some b) r h k =
    if_lem (Outcome id r) (ltb b a) (record r { active_session_path = some id }, inconsistent)
      (spanning id a b r, loaded) (λ inverted. failed id r inconsistent (λ e. ground (arith, e)))
      (λ ordered. inl (
        refl,
        record {
          path = refl;
          running = refl;
          paused = refl;
          position = refl;
          first = (h a refl).0;
          last = ground (arith, ordered, (k b refl).1);
        },
      ))
bounds-Outcome id (some a) none r h k = failed id r no_valid_data (λ e. ground (arith, e))
bounds-Outcome id none b r h k = failed id r no_valid_data (λ e. ground (arith, e))

tables-Outcome :
    (d : Sessions) (id : String) (t : Option Tables) (r : Replayer)
    → Outcome id r (load_tables d t (record r { active_session_path = some id }))
unfolding load_tables
tables-Outcome d id none r = failed id r database_error (λ e. ground (arith, e))
tables-Outcome d id (some t) r =
    let (a, b) = read_time_bounds d t in
    bounds-Outcome id (clean a) (clean b) r (λ v. clean_lem v a) (λ v. clean_lem v b)

-- A load of a session either succeeds, and then the session waits at its start, its span between the
-- first and the last time that are valid and in that order; or it fails and leaves the flags, the
-- span and the position of the replayer as they were.
pub load_session_lem :
    (d : Sessions) (id : String) (r : Replayer)
    → let (r', result) = load_session d id r in
      ((result ≡ loaded) × IsLoaded id r') ⊎ ((result ≢ loaded) × IsUntouched r r')
unfolding load_session
load_session_lem d id r =
    let after = load_tables d (d.tables id) (record r { active_session_path = some id }) in
    let present = if not (d.is_file id) then (r, not_found) else after in
    let inside = if not (d.is_contained id) then (r, invalid_id) else present in
    if_lem (Outcome id r) (not (d.is_valid_id id)) (r, invalid_id) inside
      (λ _. inr (λ e. ground (arith, e), untouched r))
      (λ _.
        if_lem (Outcome id r) (not (d.is_contained id)) (r, invalid_id) present
          (λ _. inr (λ e. ground (arith, e), untouched r))
          (λ _.
            if_lem (Outcome id r) (not (d.is_file id)) (r, not_found) after
              (λ _. inr (λ e. ground (arith, e), untouched r))
              (λ _. tables-Outcome d id (d.tables id) r)))

-- What the loop and the handlers share with the load.
abbrev Apart : Replayer → Replayer × Loaded → Type 0
Apart r (r', result) = (r'.conn ≡ r.conn) × (r'.command_queue ≡ r.command_queue)

bounds-Apart : (a b : Option ℕ) (r : Replayer) → Apart r (load_bounds a b r)
unfolding load_bounds
bounds-Apart (some a) (some b) r =
    if_lem (Apart r) (ltb b a) (r, inconsistent) _ (λ _. (refl, refl)) (λ _. (refl, refl))
bounds-Apart (some a) none r = (refl, refl)
bounds-Apart none b r = (refl, refl)

tables-Apart : (d : Sessions) (t : Option Tables) (r : Replayer) → Apart r (load_tables d t r)
unfolding load_tables
tables-Apart d none r = (refl, refl)
tables-Apart d (some t) r = let (a, b) = read_time_bounds d t in bounds-Apart (clean a) (clean b) r

-- A load changes neither the connection nor the queue.
pub load_apart :
    (d : Sessions) (id : String) (r : Replayer)
    → ((load_session d id r).0.conn ≡ r.conn)
      × ((load_session d id r).0.command_queue ≡ r.command_queue)
unfolding load_session
load_apart d id r =
    if_lem (Apart r) (not (d.is_valid_id id)) (r, invalid_id) _ (λ _. (refl, refl))
      (λ _.
        if_lem (Apart r) (not (d.is_contained id)) (r, invalid_id) _ (λ _. (refl, refl))
          (λ _.
            if_lem (Apart r) (not (d.is_file id)) (r, not_found) _ (λ _. (refl, refl))
              (λ _. tables-Apart d (d.tables id) (record r { active_session_path = some id }))))

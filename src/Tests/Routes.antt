-- ===== src/Tests/Routes.antt =====
-- Runs of the route to the actuators.
use elab_core.Prelude.{◌≡◌, ◌≤◌, ◌+◌, ◌*◌, ◌++◌, none, some, [], ◌∷◌, length, arith}
use elab_core.Routing.{Sample, Buffer, incoming_values}
use elab_core.Routing.Chunks.{Carries, accumulate_all, all_values, accumulate_all_lem, buffer_grows}

abbrev sample : Sample
sample = record {
  value = none;
  values = "1" ∷ "2" ∷ "3" ∷ [];
  start_time = none;
  end_time = none;
  timestamp = some 5;
}

abbrev waiting : Buffer
waiting = record { values = "0" ∷ []; start_time = none; end_time = none; timestamp = none }

accumulate_all_lem_example :
    let (b', sent) = accumulate_all 2 (sample ∷ sample ∷ []) waiting in
    sent ++ b'.values ≡ waiting.values ++ all_values (sample ∷ sample ∷ [])
accumulate_all_lem_example = accumulate_all_lem 2 (sample ∷ sample ∷ []) waiting

large : Carries (2 + 1) (sample ∷ sample ∷ [])
unfolding incoming_values
large = (omega arith, (omega arith, tt))

buffer_grows_example : 1 + 2 * 1 ≤ length (accumulate_all 2 (sample ∷ sample ∷ []) waiting).0.values
buffer_grows_example = buffer_grows 2 1 (sample ∷ sample ∷ []) waiting large

-- ===== src/Tests/Channels.antt =====
-- Runs of the shared memory channel.
use elab_core.Prelude.{ℕ, ◌≡◌, ◌<◌, ◌+◌, ◌/◌, refl, List, [], ◌∷◌, length, lastn, min, arith}
use elab_core.SharedMemory.{
  Channel, create, returned, write, read_latest, write_at, write_around, publish, buf_size,
  attached_capacity,
}
use elab_core.SharedMemory.Reads.{Fits, samples, write_all, reads_latest, attached_capacity_lem}

abbrev blank : List ℕ
blank = 0 ∷ 0 ∷ 0 ∷ 0 ∷ []

-- the second chunk goes on at the start of the array
abbrev chunks : List (ℕ × List ℕ)
chunks = (7, 1 ∷ 2 ∷ 3 ∷ []) ∷ (9, 4 ∷ 5 ∷ 6 ∷ []) ∷ []

chunks_fit : Fits (length blank) chunks
chunks_fit =
    ((omega arith, omega arith, omega arith), ((omega arith, omega arith, omega arith), tt))

few : length (samples chunks) < 18446744073709551616
few = omega arith

reads_latest_example :
    (c : Channel ℕ) × (write_all chunks (create blank) ≡ returned c)
    × ((count : ℕ) → read_latest count c ≡ lastn (min count (length blank)) (samples chunks))
reads_latest_example = reads_latest blank chunks (omega arith) chunks_fit few

abbrev full : Channel ℕ
full = record {
  capacity = 4;
  array = 5 ∷ 6 ∷ 3 ∷ 4 ∷ [];
  write_index = 6;
  timestamp_ns = 9;
  chunk_size = 3;
}

written : write_all chunks (create blank) ≡ returned full
unfolding create write write_at write_around publish
written = refl

abbrev long : List ℕ
long = 1 ∷ 2 ∷ 3 ∷ 4 ∷ 5 ∷ 6 ∷ 7 ∷ []

attached_capacity_lem_example : attached_capacity (buf_size 65536 4 + 4076) 4 ≡ 65536 + 4076 / 4
attached_capacity_lem_example = attached_capacity_lem 65536 4 4076 (omega arith)

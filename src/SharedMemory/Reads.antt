-- ===== src/SharedMemory/Reads.antt =====
-- What a reader of the channel gets after any number of writes, and what a write that is too long
-- leaves behind.
use native.Mathlib.Nat.{mod-lt, mul-add-div_right}
use elab_core.Prelude.{
  ℕ, ◌+◌, ◌-◌, ◌/◌, ◌%◌, ◌≤◌, ◌<◌, ◌≡◌, ◌∙◌, sym, ap, refl, min, List, [], ◌∷◌, ◌++◌, length, take,
  lastn, arith, append_assoc, append-nil, length-append, subst,
}
use elab_core.SharedMemory.{
  Channel, Written, returned, value_error, zero_division_error, struct_error, assign, create, write,
  write_at, write_around, read_latest, buf_size, attached_capacity,
}
use elab_core.SharedMemory.Refine.{Represents, create-Represents, write-Represents, read_latest_lem}

module _ {ℓ} {A : Type ℓ} where
  abbrev pub and_then : Written A → (Channel A → Written A) → Written A
  and_then (returned c) f = f c
  and_then (zero_division_error c) f = zero_division_error c
  and_then (value_error c) f = value_error c
  and_then (struct_error xs) f = struct_error xs

  -- chunks with the clock at the end of each write, one write after the other
  abbrev pub write_all : List (ℕ × List A) → Channel A → Written A
  write_all [] c = returned c
  write_all ((ts, chunk) ∷ rest) c = and_then (write ts chunk c) (write_all rest)

  abbrev pub samples : List (ℕ × List A) → List A
  samples [] = []
  samples ((ts, chunk) ∷ rest) = chunk ++ samples rest

  -- Each chunk fits into the ring, and it and its time into the header.
  abbrev pub Fits : ℕ → List (ℕ × List A) → Type 0
  Fits capacity [] = Unit
  Fits capacity ((ts, chunk) ∷ rest) =
      ((length chunk ≤ capacity) × (length chunk < 4294967296) × (ts < 18446744073709551616))
      × Fits capacity rest

  write_all-Represents :
      (initial history : List A) (chunks : List (ℕ × List A)) (c : Channel A)
      → Represents initial c history
      → Fits (length initial) chunks
      → length history + length (samples chunks) < 18446744073709551616
      → (c' : Channel A) × (write_all chunks c ≡ returned c')
        × Represents initial c' (history ++ samples chunks)
  write_all-Represents initial history [] c r fits small =
      (c, refl, subst (Represents initial c) (sym (append-nil history)) r)
  write_all-Represents initial history ((ts, chunk) ∷ rest) c r ((a, b, t), fits) small =
      let fixed = r.fixed in
      let counted = r.count in
      let sum : length (chunk ++ samples rest) ≡ length chunk + length (samples rest) =
        length-append chunk (samples rest) in
      let (c₁, done, r₁) =
        write-Represents initial history ts chunk c r (omega (arith, a, fixed))
          (ground (arith, b, t, small, sum, counted)) in
      let (c₂, all_done, r₂) =
        write_all-Represents initial (history ++ chunk) rest c₁ r₁ fits
          (omega (arith, small, length-append history chunk, sum)) in
      (
        c₂,
        ap (λ w. and_then w (write_all rest)) done ∙ all_done,
        subst (Represents initial c₂) (append_assoc history chunk (samples rest)) r₂,
      )

  -- After any writes to a new channel with room for a sample, each of a chunk that fits into the ring
  -- and into the header's fields, fewer than 2 ^ 64 samples in all, every write has returned, and a
  -- read of the latest samples gives the last of all those written, in order: as many as it asks
  -- for, or as the ring holds, or as were written, whichever is least.
  pub reads_latest :
      (initial : List A) (chunks : List (ℕ × List A))
      → 0 < length initial
      → Fits (length initial) chunks
      → length (samples chunks) < 18446744073709551616
      → (c : Channel A) × (write_all chunks (create initial) ≡ returned c)
        × ((count : ℕ) → read_latest count c ≡ lastn (min count (length initial)) (samples chunks))
  reads_latest initial chunks room fits small =
      let (c, done, r) =
        write_all-Represents initial [] chunks (create initial) (create-Represents initial room)
          fits (omega (arith, small)) in
      (
        c,
        done,
        λ count.
            read_latest_lem initial (samples chunks) count c r
            ∙ ap (λ n. lastn (min count n) (samples chunks)) r.fixed,
      )

  -- A chunk that reaches past the write position by more than the whole ring makes `write` raise,
  -- after the samples from the write position to the end have been overwritten by the first of
  -- the chunk; the number of samples written stays as it was.
  pub write_too_long :
      (ts : ℕ) (chunk : List A) (c : Channel A)
      → 0 < c.capacity
      → c.capacity + c.capacity < c.write_index % c.capacity + length chunk
      → let idx = c.write_index % c.capacity in
        (c' : Channel A) × (write ts chunk c ≡ value_error c')
        × (c'.write_index ≡ c.write_index)
        × (c'.array ≡ assign idx (take (c.capacity - idx) chunk) c.array)
  unfolding write write_at write_around
  write_too_long ts [] c room long =
      let below : c.write_index % c.capacity < c.capacity = mod-lt c.write_index room in
      absurd (omega arith)
  write_too_long ts (x ∷ xs) c room long =
      let idx = c.write_index % c.capacity in
      let below : idx < c.capacity = mod-lt c.write_index room in
      (
        record c { array = assign idx (take (c.capacity - idx) (x ∷ xs)) c.array },
        ground (arith, room, long, below),
        refl,
        refl,
      )

-- A process that attaches to a block of the size that was asked for, or of one that the system
-- has rounded up by `slack` bytes, finds the creator's capacity, and `slack / itemsize` samples more.
pub attached_capacity_lem :
    (capacity itemsize slack : ℕ)
    → 0 < itemsize
    → attached_capacity (buf_size capacity itemsize + slack) itemsize ≡ capacity + slack / itemsize
unfolding attached_capacity
attached_capacity_lem capacity itemsize slack h =
    ap (λ n. n / itemsize) (omega arith) ∙ mul-add-div_right h capacity slack

-- ===== src/SharedMemory/Refine.antt =====
-- The channel against its abstract view, the sequence of all the samples written to it.
use native.Mathlib.Nat.{mod-lt, mod-add-mod, mod-eq-sub-mod}
use elab_core.Prelude.{
  ℕ, ◌+◌, ◌-◌, ◌%◌, ◌≤◌, ◌<◌, ◌≡◌, ◌∙◌, sym, ap, refl, min, false, List, [], ◌∷◌, ◌++◌, length, leb,
  take, drop, lastn, arith, append_assoc, append-nil, length-append, length-take, length-drop,
  lastn-lastn, lastn-append, lastn-suffix, lastn-none, subst, inl, inr, Bool-cases,
}
use elab_core.SharedMemory.{
  Channel, returned, assign, create, overflows, publish, write, write_at, write_around,
  read_between, read_latest,
}
use elab_core.SharedMemory.Window.{
  rotate, rotate-mod, rotate-assign, rotate-around, length-assign, read_between_lem,
}

module _ {ℓ} {A : Type ℓ} where
  -- The ring holds the newest samples of the history, in the order of the positions from the
  -- write position on; `initial` was there before any.
  pub record Represents (initial : List A) (c : Channel A) (history : List A) : Type ℓ where
    pub fixed : c.capacity ≡ length initial
    pub size : length c.array ≡ c.capacity
    pub room : 0 < c.capacity
    pub count : c.write_index ≡ length history
    pub held : rotate (c.write_index % c.capacity) c.array ≡ lastn c.capacity (initial ++ history)

  created :
      (initial : List A)
      → 0 < length initial
      → rotate (0 % length initial) initial ≡ lastn (length initial) (initial ++ [])
  created initial h =
      let none_lost : 0 ≡ length (initial ++ []) - length initial =
        omega (arith, length-append initial []) in
      rotate-mod 0 initial h (omega arith) ∙ ap (λ k. drop k (initial ++ [])) none_lost

  pub create-Represents :
      (initial : List A) → 0 < length initial → Represents initial (create initial) []
  unfolding create
  create-Represents initial h = record {
    fixed = refl;
    size = refl;
    room = h;
    count = refl;
    held = created initial h;
  }

  module _ (initial history chunk : List A) (c : Channel A) (r : Represents initial c history) where
    abbrev idx : ℕ
    idx = c.write_index % c.capacity

    next : (c.write_index + length chunk) % c.capacity ≡ (idx + length chunk) % c.capacity
    next = sym (mod-add-mod c.write_index c.capacity (length chunk))

    next_around :
        c.capacity ≤ idx + length chunk
        → (c.write_index + length chunk) % c.capacity
          ≡ (length chunk - (c.capacity - idx)) % c.capacity
    next_around h =
        let below : c.write_index % c.capacity < c.capacity = mod-lt c.write_index r.room in
        next ∙ mod-eq-sub-mod h ∙ ap (λ k. k % c.capacity) (omega (arith, h, below))

    -- Whatever the write puts into the array, if it is the window moved on by the chunk.
    publish-Represents :
        (ts k : ℕ) (array : List A)
        → overflows (c.write_index + length chunk) ts (length chunk) ≡ false
        → length array ≡ c.capacity
        → rotate k array ≡ lastn (length c.array) (rotate idx c.array ++ chunk)
        → k ≤ c.capacity
        → (c.write_index + length chunk) % c.capacity ≡ k % c.capacity
        → (c' : Channel A) × (publish ts (length chunk) array c ≡ returned c')
          × Represents initial c' (history ++ chunk)
    unfolding publish
    publish-Represents ts k array o l w b m =
        let turned : rotate ((c.write_index + length chunk) % c.capacity) array
            ≡ lastn c.capacity (initial ++ (history ++ chunk)) =
          ap (λ j. rotate j array) (m ∙ ap (λ n. k % n) (sym l))
          ∙ rotate-mod k array (omega (arith, l, r.room)) (omega (arith, l, b))
          ∙ w
          ∙ ap (λ n. lastn n (rotate idx c.array ++ chunk)) r.size
          ∙ ap (λ zs. lastn c.capacity (zs ++ chunk)) r.held
          ∙ lastn-append c.capacity (initial ++ history) chunk
          ∙ ap (lastn c.capacity) (append_assoc initial history chunk) in
        (
          record c {
            array = array;
            write_index = c.write_index + length chunk;
            timestamp_ns = ts;
            chunk_size = length chunk;
          },
          ground (arith, o),
          record {
            fixed = r.fixed;
            size = l;
            room = r.room;
            count = omega (arith, r.count, length-append history chunk);
            held = turned;
          },
        )

    around-Represents :
        (ts : ℕ)
        → length chunk ≤ c.capacity
        → overflows (c.write_index + length chunk) ts (length chunk) ≡ false
        → c.capacity < idx + length chunk
        → (c' : Channel A) × (write_around ts idx chunk c ≡ returned c')
          × Represents initial c' (history ++ chunk)
    unfolding write_around
    around-Represents ts fits o past =
        let below : idx < c.capacity = mod-lt c.write_index r.room in
        let size = r.size in
        let first = c.capacity - idx in
        let half = assign idx (take first chunk) c.array in
        let half_size : length half ≡ length c.array =
          length-assign idx (take first chunk) c.array (omega (arith, length-take first chunk)) in
        let (c', done, r') =
          publish-Represents ts (length chunk - first) (assign 0 (drop first chunk) half) o
            (length-assign 0 (drop first chunk) half
                (omega (arith, length-drop first chunk, half_size))
              ∙ half_size
              ∙ size)
            (subst
              (λ n.
                rotate (length chunk - (n - idx))
                  (assign 0 (drop (n - idx) chunk) (assign idx (take (n - idx) chunk) c.array))
                ≡ lastn (length c.array) (rotate idx c.array ++ chunk))
              size (rotate-around idx chunk c.array (omega arith) (omega arith) (omega arith)))
            (omega (arith, fits)) (next_around (omega (arith, past))) in
        (c', ground (arith, fits, done), r')

    write_at-Represents :
        (ts : ℕ)
        → length chunk ≤ c.capacity
        → overflows (c.write_index + length chunk) ts (length chunk) ≡ false
        → (c' : Channel A) × (write_at ts idx chunk c ≡ returned c')
          × Represents initial c' (history ++ chunk)
    unfolding write_at
    write_at-Represents ts fits o = elim (Bool-cases (leb (idx + length chunk) c.capacity)) [
      | inl within ↦
          let size = r.size in
          let b : idx + length chunk ≤ length c.array = ground (arith, within, size) in
          let (c', done, r') =
            publish-Represents ts (idx + length chunk) (assign idx chunk c.array) o
              (length-assign idx chunk c.array b ∙ size) (rotate-assign idx chunk c.array b)
              (ground (arith, within)) next in
          (c', ground (arith, within, done), r')
      | inr past ↦
          let (c', done, r') = around-Represents ts fits o (ground (arith, past)) in
          (c', ground (arith, past, done), r')
    ]

  pub write-Represents :
      (initial history : List A) (ts : ℕ) (chunk : List A) (c : Channel A)
      → Represents initial c history
      → length chunk ≤ c.capacity
      → overflows (c.write_index + length chunk) ts (length chunk) ≡ false
      → (c' : Channel A) × (write ts chunk c ≡ returned c')
        × Represents initial c' (history ++ chunk)
  unfolding write
  write-Represents initial history ts [] c r fits o =
      (c, refl, subst (Represents initial c) (sym (append-nil history)) r)
  write-Represents initial history ts (x ∷ xs) c r fits o =
      let room = r.room in
      let (c', done, r') = write_at-Represents initial history (x ∷ xs) c r ts fits o in
      (c', ground (arith, room, done), r')

  -- A read of the newest samples.
  pub read_latest_lem :
      (initial history : List A) (count : ℕ) (c : Channel A)
      → Represents initial c history
      → read_latest count c ≡ lastn (min count c.capacity) history
  unfolding read_latest
  read_latest_lem initial history count c r =
      let counted = r.count in
      elim (Bool-cases (leb c.write_index 0)) [
        | inl nothing ↦
            let empty =
              lastn-none (min count c.capacity) history (ground (arith, nothing, counted)) in
            ground (arith, nothing, empty)
        | inr something ↦
            let below : c.write_index % c.capacity < c.capacity = mod-lt c.write_index r.room in
            let m = min (min count c.write_index) c.capacity in
            let newest : read_between (c.write_index % c.capacity) m c
                ≡ lastn (min count c.capacity) history =
              read_between_lem (c.write_index % c.capacity) m c r.size (omega arith) (omega arith)
              ∙ ap (lastn m) r.held
              ∙ lastn-lastn m c.capacity (initial ++ history) (omega arith)
              ∙ lastn-suffix m initial history (omega arith)
              ∙ ap (λ k. drop k history) (omega (arith, counted)) in
            ground (arith, something, newest)
      ]

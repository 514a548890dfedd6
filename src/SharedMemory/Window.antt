-- ===== src/SharedMemory/Window.antt =====
-- The samples of the ring in the order in which they were written, before and after a write.
use native.Mathlib.Nat.{mod_self, mod-eq_of_lt, eq-or-lt_of_le}
use elab_core.Prelude.{
  ℕ, ◌+◌, ◌-◌, ◌%◌, ◌≤◌, ◌<◌, ◌≡◌, ◌∙◌, sym, ap, List, ◌++◌, length, leb, take, drop, lastn, arith,
  Bool-cases, inl, inr, append_assoc, append-nil, length-append, length-take, length-drop,
  take-drop, drop-append, drop-past, take-past, take-all, drop-all, drop-drop, take-drop_comm,
  lastn-suffix,
}
use elab_core.SharedMemory.{Channel, assign, read_between}

module _ {ℓ} {A : Type ℓ} where
  -- the members from `e` on, then those before
  abbrev pub rotate : ℕ → List A → List A
  rotate e xs = drop e xs ++ take e xs

  rotate_append : (e : ℕ) (xs ys : List A) → e ≡ length xs → rotate e (xs ++ ys) ≡ ys ++ xs
  rotate_append e xs ys h =
      let whole : length xs ≡ length xs + 0 = omega arith in
      ap (λ k. rotate k (xs ++ ys)) h
      ∙ ap (λ k. drop k (xs ++ ys) ++ take (length xs) (xs ++ ys)) whole
      ∙ ap (λ zs. zs ++ take (length xs) (xs ++ ys)) (drop-past 0 xs ys)
      ∙ ap (λ zs. ys ++ zs) (take-past xs ys)

  pub length-rotate : (e : ℕ) (xs : List A) → length (rotate e xs) ≡ length xs
  length-rotate e xs =
      omega (arith, length-append (drop e xs) (take e xs), length-drop e xs, length-take e xs)

  -- Turning by the whole length is not turning.
  rotate-length : (e : ℕ) (xs : List A) → e ≡ length xs → rotate e xs ≡ rotate 0 xs
  rotate-length e xs h =
      ap (λ zs. zs ++ take e xs) (drop-all e xs (omega (arith, h)))
      ∙ take-all e xs (omega (arith, h))
      ∙ sym (append-nil xs)

  pub rotate-mod :
      (e : ℕ) (xs : List A)
      → 0 < length xs
      → e ≤ length xs
      → rotate (e % length xs) xs ≡ rotate e xs
  rotate-mod e xs h b = elim (eq-or-lt_of_le b) [
    | inr t ↦ ap (λ k. rotate k xs) (mod-eq_of_lt t)
    | inl whole ↦
        ap (λ k. rotate (k % length xs) xs) whole
        ∙ ap (λ k. rotate k xs) (mod_self (length xs))
        ∙ sym (rotate-length e xs whole)
  ]

  pub length-assign :
      (e : ℕ) (chunk xs : List A)
      → e + length chunk ≤ length xs
      → length (assign e chunk xs) ≡ length xs
  length-assign e chunk xs h =
      let rest = drop (e + length chunk) xs in
      omega (
        arith,
        h,
        length-append (take e xs) (chunk ++ rest),
        length-append chunk rest,
        length-take e xs,
        length-drop (e + length chunk) xs,
      )

  module _ (e : ℕ) (chunk xs : List A) where
    turned-assign :
        e + length chunk ≤ length xs
        → rotate (e + length chunk) (assign e chunk xs)
          ≡ drop (e + length chunk) xs ++ (take e xs ++ chunk)
    turned-assign h =
        ap (rotate (e + length chunk))
          (sym (append_assoc (take e xs) chunk (drop (e + length chunk) xs)))
        ∙ rotate_append (e + length chunk) (take e xs ++ chunk) (drop (e + length chunk) xs)
            (omega (arith, length-append (take e xs) chunk, length-take e xs))

    -- the samples in order and the new ones, without as many of the oldest
    lastn-rotate :
        lastn (length xs) (rotate e xs ++ chunk)
        ≡ drop (length chunk) (drop e xs ++ (take e xs ++ chunk))
    lastn-rotate =
        ap (λ k. drop k (rotate e xs ++ chunk))
          (omega (arith, length-append (rotate e xs) chunk, length-rotate e xs))
        ∙ ap (drop (length chunk)) (append_assoc (drop e xs) (take e xs) chunk)

    -- A write that does not reach past the end of the array.
    pub rotate-assign :
        e + length chunk ≤ length xs
        → rotate (e + length chunk) (assign e chunk xs) ≡ lastn (length xs) (rotate e xs ++ chunk)
    rotate-assign h =
        turned-assign h
        ∙ ap (λ zs. zs ++ (take e xs ++ chunk)) (sym (drop-drop (length chunk) e xs))
        ∙ sym (
            drop-append (length chunk) (drop e xs) (take e xs ++ chunk)
              (omega (arith, length-drop e xs, h)))
        ∙ sym lastn-rotate

    module _ (b : e ≤ length xs) (h : length xs ≤ e + length chunk)
        (t : e + length chunk ≤ length xs + length xs) where
      abbrev pub first : ℕ
      first = length xs - e

      -- the array between the two slice assignments
      half : List A
      half = take e xs ++ take first chunk

      half_lem : assign e (take first chunk) xs ≡ half
      unfolding half
      half_lem =
          ap (λ zs. take e xs ++ (take first chunk ++ zs))
            (drop-all (e + length (take first chunk)) xs
              (omega (arith, length-take first chunk, h, b)))
          ∙ ap (λ zs. take e xs ++ zs) (append-nil (take first chunk))

      after :
          lastn (length xs) (rotate e xs ++ chunk)
          ≡ drop (length chunk - first) half ++ drop first chunk
      unfolding half
      after =
          let split : length chunk ≡ length (drop e xs) + (length chunk - first) =
            omega (arith, length-drop e xs, h, b) in
          lastn-rotate
          ∙ ap (λ zs. drop (length chunk) (drop e xs ++ (take e xs ++ zs)))
              (sym (take-drop first chunk))
          ∙ ap (λ zs. drop (length chunk) (drop e xs ++ zs))
              (sym (append_assoc (take e xs) (take first chunk) (drop first chunk)))
          ∙ ap (λ k. drop k (drop e xs ++ (half ++ drop first chunk))) split
          ∙ drop-past (length chunk - first) (drop e xs) (half ++ drop first chunk)
          ∙ drop-append (length chunk - first) half (drop first chunk) (
              omega (
                arith,
                length-append (take e xs) (take first chunk),
                length-take e xs,
                length-take first chunk,
                b,
                t,
              ))

      -- A write that goes on at the start of the array.
      pub rotate-around :
          rotate
            (length chunk - first)
            (assign 0 (drop first chunk) (assign e (take first chunk) xs))
          ≡ lastn (length xs) (rotate e xs ++ chunk)
      unfolding half
      rotate-around =
          let rest : 0 + length (drop first chunk) ≡ length chunk - first =
            omega (arith, length-drop first chunk) in
          ap (λ zs. rotate (length chunk - first) (assign 0 (drop first chunk) zs)) half_lem
          ∙ ap (λ k. rotate (length chunk - first) (drop first chunk ++ drop k half)) rest
          ∙ rotate_append (length chunk - first) (drop first chunk)
              (drop (length chunk - first) half) (omega (arith, length-drop first chunk))
          ∙ sym after

  straight_lem :
      (e count : ℕ) (xs : List A)
      → count ≤ e
      → e ≤ length xs
      → take count (drop (e - count) xs) ≡ lastn count (rotate e xs)
  straight_lem e count xs h b =
      take-drop_comm count (e - count) xs
      ∙ ap (λ k. drop (e - count) (take k xs)) (omega (arith, h))
      ∙ ap (λ k. drop (k - count) (take e xs)) (omega (arith, length-take e xs, b))
      ∙ sym (lastn-suffix count (drop e xs) (take e xs) (omega (arith, length-take e xs, h, b)))

  -- A read of as many samples as the array has at most, the write position being `e`.
  pub read_between_lem :
      (e count : ℕ) (c : Channel A)
      → length c.array ≡ c.capacity
      → e ≤ c.capacity
      → count ≤ c.capacity
      → read_between e count c ≡ lastn count (rotate e c.array)
  unfolding read_between
  read_between_lem e count c size b h =
      let len : length (rotate e c.array) ≡ c.capacity = length-rotate e c.array ∙ size in
      elim (Bool-cases (leb count e)) [
        | inl low ↦
            let straight : take count (drop (e - count) c.array) ≡ lastn count (rotate e c.array) =
              straight_lem e count c.array (ground (arith, low)) (omega (arith, size, b)) in
            ground (arith, low, straight)
        | inr high ↦
            let around : drop (e + c.capacity - count) c.array ++ take e c.array
                ≡ lastn count (rotate e c.array) =
              ap (λ k. drop k c.array ++ take e c.array) (ground (arith, h))
              ∙ ap (λ zs. zs ++ take e c.array) (sym (drop-drop (c.capacity - count) e c.array))
              ∙ sym (
                  drop-append (c.capacity - count) (drop e c.array) (take e c.array)
                    (ground (arith, length-drop e c.array, size, high)))
              ∙ ap (λ k. drop (k - count) (rotate e c.array)) (sym len) in
            ground (arith, high, around)
      ]

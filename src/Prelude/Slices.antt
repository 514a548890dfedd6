-- ===== src/Prelude/Slices.antt =====
-- Slices of lists: `xs[:n]`, `xs[n:]` and `xs[-n:]`.
use Prim.Native.Nat.{ℕ, zero, suc, ◌+◌, ◌-◌, ◌≤◌, min}
use mathlib.Core.Path.{◌≡◌, refl, ap, ◌∙◌, sym}
use mathlib.Core.List.{List, [], ◌∷◌, ◌++◌}
use native.Mathlib.Omega.{arith}
use elab_core.Prelude.Lists.{length, length-append}

module _ {ℓ} {A : Type ℓ} where
  abbrev pub take : ℕ → List A → List A
  take zero _ = []
  take (suc n) [] = []
  take (suc n) (x ∷ xs) = x ∷ take n xs

  abbrev pub drop : ℕ → List A → List A
  drop zero xs = xs
  drop (suc n) [] = []
  drop (suc n) (x ∷ xs) = drop n xs

  -- the last `n` members, all of them if there are fewer
  abbrev pub lastn : ℕ → List A → List A
  lastn n xs = drop (length xs - n) xs

  pub length-drop : (n : ℕ) (xs : List A) → length (drop n xs) ≡ length xs - n
  length-drop zero xs = omega arith
  length-drop (suc n) [] = omega arith
  length-drop (suc n) (x ∷ xs) = omega (arith, length-drop n xs)

  pub length-take : (n : ℕ) (xs : List A) → length (take n xs) ≡ min n (length xs)
  length-take zero xs = omega arith
  length-take (suc n) [] = omega arith
  length-take (suc n) (x ∷ xs) = omega (arith, length-take n xs)

  pub take-drop : (n : ℕ) (xs : List A) → take n xs ++ drop n xs ≡ xs
  take-drop zero xs = refl
  take-drop (suc n) [] = refl
  take-drop (suc n) (x ∷ xs) = ap (λ ys. x ∷ ys) (take-drop n xs)

  drop-step : (k n : ℕ) (x : A) (xs : List A) → k ≡ suc n → drop k (x ∷ xs) ≡ drop n xs
  drop-step k n x xs h = ap (λ j. drop j (x ∷ xs)) h

  take-step : (k n : ℕ) (x : A) (xs : List A) → k ≡ suc n → take k (x ∷ xs) ≡ x ∷ take n xs
  take-step k n x xs h = ap (λ j. take j (x ∷ xs)) h

  take-nil : (n : ℕ) → take n [] ≡ []
  take-nil zero = refl
  take-nil (suc n) = refl

  drop-nil : (n : ℕ) → drop n [] ≡ []
  drop-nil zero = refl
  drop-nil (suc n) = refl

  pub drop-append : (n : ℕ) (xs ys : List A) → n ≤ length xs → drop n (xs ++ ys) ≡ drop n xs ++ ys
  drop-append zero xs ys h = refl
  drop-append (suc n) [] ys h = absurd (omega arith)
  drop-append (suc n) (x ∷ xs) ys h = drop-append n xs ys (omega arith)

  pub drop-past : (n : ℕ) (xs ys : List A) → drop (length xs + n) (xs ++ ys) ≡ drop n ys
  drop-past n [] ys = ap (λ k. drop k ys) (omega arith)
  drop-past n (x ∷ xs) ys =
      drop-step (suc (length xs) + n) (length xs + n) x (xs ++ ys) (omega arith) ∙ drop-past n xs ys

  pub take-past : (xs ys : List A) → take (length xs) (xs ++ ys) ≡ xs
  take-past [] ys = refl
  take-past (x ∷ xs) ys = ap (λ zs. x ∷ zs) (take-past xs ys)

  pub take-all : (n : ℕ) (xs : List A) → length xs ≤ n → take n xs ≡ xs
  take-all zero [] h = refl
  take-all zero (x ∷ xs) h = absurd (omega arith)
  take-all (suc n) [] h = refl
  take-all (suc n) (x ∷ xs) h = ap (λ ys. x ∷ ys) (take-all n xs (omega arith))

  pub drop-all : (n : ℕ) (xs : List A) → length xs ≤ n → drop n xs ≡ []
  drop-all zero [] h = refl
  drop-all zero (x ∷ xs) h = absurd (omega arith)
  drop-all (suc n) [] h = refl
  drop-all (suc n) (x ∷ xs) h = drop-all n xs (omega arith)

  pub drop-drop : (m n : ℕ) (xs : List A) → drop m (drop n xs) ≡ drop (n + m) xs
  drop-drop m zero xs = ap (λ k. drop k xs) (omega arith)
  drop-drop m (suc n) [] = drop-nil m ∙ sym (drop-nil (suc n + m))
  drop-drop m (suc n) (x ∷ xs) =
      drop-drop m n xs ∙ sym (drop-step (suc n + m) (n + m) x xs (omega arith))

  pub length-lastn : (n : ℕ) (xs : List A) → length (lastn n xs) ≡ min n (length xs)
  length-lastn n xs = omega (arith, length-drop (length xs - n) xs)

  -- Of the last `n` members, the last `m`.
  pub lastn-lastn : (m n : ℕ) (xs : List A) → m ≤ n → lastn m (lastn n xs) ≡ lastn m xs
  lastn-lastn m n xs h =
      drop-drop (length (lastn n xs) - m) (length xs - n) xs
      ∙ ap (λ k. drop k xs) (omega (arith, length-lastn n xs))

  -- What was dropped before an addition does not show in the last members after it.
  pub lastn-append : (n : ℕ) (xs ys : List A) → lastn n (lastn n xs ++ ys) ≡ lastn n (xs ++ ys)
  lastn-append n xs ys =
      ap (λ k. drop k (lastn n xs ++ ys))
        (omega (arith, length-append (lastn n xs) ys, length-lastn n xs))
      ∙ ap (drop (min n (length xs) + length ys - n))
          (sym (drop-append (length xs - n) xs ys (omega arith)))
      ∙ drop-drop (min n (length xs) + length ys - n) (length xs - n) (xs ++ ys)
      ∙ ap (λ k. drop k (xs ++ ys)) (omega (arith, length-append xs ys))

  pub lastn-suffix : (n : ℕ) (xs ys : List A) → n ≤ length ys → lastn n (xs ++ ys) ≡ lastn n ys
  lastn-suffix n xs ys h =
      ap (λ k. drop k (xs ++ ys)) (omega (arith, length-append xs ys))
      ∙ drop-past (length ys - n) xs ys

  pub take-drop_comm : (n k : ℕ) (xs : List A) → take n (drop k xs) ≡ drop k (take (k + n) xs)
  take-drop_comm n zero xs = ap (λ j. take j xs) (omega arith)
  take-drop_comm n (suc k) [] =
      take-nil n ∙ sym (drop-nil (suc k)) ∙ ap (drop (suc k)) (sym (take-nil (suc k + n)))
  take-drop_comm n (suc k) (x ∷ xs) =
      take-drop_comm n k xs
      ∙ ap (drop (suc k)) (sym (take-step (suc k + n) (k + n) x xs (omega arith)))

  -- With nothing to leave out.
  pub lastn-none : (n : ℕ) (xs : List A) → length xs ≡ 0 → lastn n xs ≡ []
  lastn-none n xs h = drop-all (length xs - n) xs (omega (arith, h))

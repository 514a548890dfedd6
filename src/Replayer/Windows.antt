-- ===== src/Replayer/Windows.antt =====
-- The rows of the windows that the loop reads one after the other.
use elab_core.Prelude.{
  ℕ, ◌≤◌, ◌≡◌, ◌∙◌, ap, refl, List, [], ◌∷◌, ◌++◌, keep, leb, ltb, arith, if_lem, Bool-cases, inl,
  inr,
}
use elab_core.Recorder.{Row}
use elab_core.Replayer.{insert_row, order_rows, in_window, select}

-- No row is before `t`.
abbrev AtLeast : ℕ → List Row → Type 0
AtLeast t [] = Unit
AtLeast t (row ∷ rows) = (t ≤ row.event_time) × AtLeast t rows

abbrev IsOrdered : List Row → Type 0
IsOrdered [] = Unit
IsOrdered (row ∷ rows) = AtLeast row.event_time rows × IsOrdered rows

weaken : (t u : ℕ) (rows : List Row) → t ≤ u → AtLeast u rows → AtLeast t rows
weaken t u [] h a = tt
weaken t u (row ∷ rows) h (a, more) = (omega (arith, h, a), weaken t u rows h more)

insert-AtLeast :
    (t : ℕ) (row : Row) (rows : List Row)
    → t ≤ row.event_time
    → AtLeast t rows
    → AtLeast t (insert_row row rows)
unfolding insert_row
insert-AtLeast t row [] h a = (h, tt)
insert-AtLeast t row (x ∷ xs) h (a, more) =
    if_lem (AtLeast t) (leb row.event_time x.event_time) (row ∷ x ∷ xs) (x ∷ insert_row row xs)
      (λ _. (h, (a, more))) (λ _. (a, insert-AtLeast t row xs h more))

insert-IsOrdered : (row : Row) (rows : List Row) → IsOrdered rows → IsOrdered (insert_row row rows)
unfolding insert_row
insert-IsOrdered row [] h = (tt, tt)
insert-IsOrdered row (x ∷ xs) (a, more) =
    if_lem IsOrdered (leb row.event_time x.event_time) (row ∷ x ∷ xs) (x ∷ insert_row row xs)
      (λ e.
        let h : row.event_time ≤ x.event_time = ground (arith, e) in
        ((h, weaken row.event_time x.event_time xs h a), (a, more)))
      (λ e.
        (insert-AtLeast x.event_time row xs (ground (arith, e)) a, insert-IsOrdered row xs more))

order-IsOrdered : (rows : List Row) → IsOrdered (order_rows rows)
unfolding order_rows
order-IsOrdered [] = tt
order-IsOrdered (row ∷ rows) = insert-IsOrdered row (order_rows rows) (order-IsOrdered rows)

none_before : (a b : ℕ) (rows : List Row) → AtLeast b rows → keep (in_window a b) rows ≡ []
none_before a b [] h = refl
none_before a b (row ∷ rows) (h, hs) = ground (arith, h, none_before a b rows hs)

same_after :
    (a b c : ℕ) (rows : List Row)
    → a ≤ b
    → AtLeast b rows
    → keep (in_window b c) rows ≡ keep (in_window a c) rows
same_after a b c [] k h = refl
same_after a b c (row ∷ rows) k (h, hs) = ground (arith, k, h, same_after a b c rows k hs)

windows :
    (a b c : ℕ) (rows : List Row)
    → a ≤ b
    → b ≤ c
    → IsOrdered rows
    → keep (in_window a b) rows ++ keep (in_window b c) rows ≡ keep (in_window a c) rows
windows a b c [] h k o = refl
windows a b c (row ∷ rows) h k (o, os) = elim (Bool-cases (ltb row.event_time b)) [
  | inl early ↦ ground (arith, early, h, k, windows a b c rows h k os)
  | inr late ↦
      let from_b : AtLeast b (row ∷ rows) =
        (ground (arith, late), weaken b row.event_time rows (ground (arith, late)) o) in
      ap (λ rest. rest ++ keep (in_window b c) (row ∷ rows)) (none_before a b (row ∷ rows) from_b)
      ∙ same_after a b c (row ∷ rows) h from_b
]

-- Two windows that meet.
pub select_split :
    (a b c : ℕ) (rows : List Row)
    → a ≤ b
    → b ≤ c
    → select a b rows ++ select b c rows ≡ select a c rows
unfolding select
select_split a b c rows h k = windows a b c (order_rows rows) h k (order-IsOrdered rows)

narrow : (a : ℕ) (rows : List Row) → keep (in_window a a) rows ≡ []
narrow a [] = refl
narrow a (row ∷ rows) = ground (arith, narrow a rows)

-- A window without width.
pub select_empty : (a : ℕ) (rows : List Row) → select a a rows ≡ []
unfolding select
select_empty a rows = narrow a (order_rows rows)

-- ===== src/Routing/Chunks.antt =====
-- The chunks that come out of a route's buffer.
use elab_core.Prelude.{
  ℕ, String, ◌+◌, ◌*◌, ◌≤◌, ◌≡◌, ◌∙◌, ap, sym, refl, Option, none, some, List, [], ◌∷◌, ◌++◌,
  length, ltb, arith, append_assoc, append-nil, length-append, length-drop, take-drop, if_lem,
}
use native.Mathlib.Nat.{suc-mul}
use elab_core.Routing.{Sample, Delivery, Buffer, incoming_values, fill, accumulate}

-- the values of a delivery, if there is one
abbrev pub sent_values : Option Delivery → List String
sent_values none = []
sent_values (some d) = elim d.values [ none ↦ [] | some vs ↦ vs ]

-- the packets of a route, one after the other: the buffer after them, and all the values sent
abbrev pub accumulate_all : ℕ → List Sample → Buffer → Buffer × List String
accumulate_all size [] b = (b, [])
accumulate_all size (x ∷ xs) b =
    let after = accumulate size x b in
    let rest = accumulate_all size xs after.0 in (rest.0, sent_values after.1 ++ rest.1)

abbrev pub all_values : List Sample → List String
all_values [] = []
all_values (x ∷ xs) = incoming_values x ++ all_values xs

-- One packet: nothing is lost, and what is sent is a whole chunk.
abbrev Step : ℕ → Sample → Buffer → Buffer × Option Delivery → Type 0
Step size x b (b', d) =
    (sent_values d ++ b'.values ≡ b.values ++ incoming_values x)
    × (length b.values + length (incoming_values x) ≤ length b'.values + size)

accumulate-Step : (size : ℕ) (x : Sample) (b : Buffer) → Step size x b (accumulate size x b)
unfolding accumulate fill
accumulate-Step size x b =
    let vs = b.values ++ incoming_values x in
    let long = length-append b.values (incoming_values x) in
    if_lem (Step size x b) (ltb (length vs) size) _ _ (λ short. (refl, ground (arith, short, long)))
      (λ full. (take-drop size vs, ground (arith, long, length-drop size vs)))

-- Over any packets of a buffered route, the values that were sent and then those that wait in the buffer
-- are those that waited before and then all that came in, in order.
pub accumulate_all_lem :
    (size : ℕ) (xs : List Sample) (b : Buffer)
    → let (b', sent) = accumulate_all size xs b in sent ++ b'.values ≡ b.values ++ all_values xs
accumulate_all_lem size [] b = sym (append-nil b.values)
accumulate_all_lem size (x ∷ xs) b =
    let after = accumulate size x b in
    let rest = accumulate_all size xs after.0 in
    append_assoc (sent_values after.1) rest.1 rest.0.values
    ∙ ap (λ vs. sent_values after.1 ++ vs) (accumulate_all_lem size xs after.0)
    ∙ sym (append_assoc (sent_values after.1) after.0.values (all_values xs))
    ∙ ap (λ vs. vs ++ all_values xs) (accumulate-Step size x b).0
    ∙ append_assoc b.values (incoming_values x) (all_values xs)

-- Each packet has at least `n` values.
abbrev pub Carries : ℕ → List Sample → Type 0
Carries n [] = Unit
Carries n (x ∷ xs) = (n ≤ length (incoming_values x)) × Carries n xs

-- At most one chunk leaves with each packet: if every packet carries more values than a chunk has, then
-- the buffer grows with every packet, by the difference at least.
pub buffer_grows :
    (size extra : ℕ) (xs : List Sample) (b : Buffer)
    → Carries (size + extra) xs
    → length b.values + length xs * extra ≤ length (accumulate_all size xs b).0.values
buffer_grows size extra [] b h = omega arith
buffer_grows size extra (x ∷ xs) b (more, h) =
    let after = accumulate size x b in
    let step = (accumulate-Step size x b).1 in
    let rest = buffer_grows size extra xs after.0 h in
    let twice = suc-mul (length xs) extra in omega (arith, more, step, rest, twice)

-- ===== src/Prelude/Dict.antt =====
-- Python dictionaries with text keys: entries in insertion order, a write to a present key keeps
-- its place.
use Prim.Native.Nat.{suc, ◌≤◌, ◌<◌}
use Prim.Native.String.{String}
use mathlib.Core.Path.{◌≡◌, refl}
use mathlib.Core.Bool.{true}
use mathlib.Core.Option.{Option, none, some}
use mathlib.Core.List.{List, [], ◌∷◌}
use native.Mathlib.Omega.{arith}
use text.Mathlib.Text.{◌==◌}
use text.Mathlib.TextEquality.{eq_iff}
use elab_core.Prelude.Tests.{if◌then◌else◌, is_some}
use elab_core.Prelude.Lists.{length}

abbrev pub Dict {ℓ} : Type ℓ → Type ℓ
Dict V = List (String × V)

module _ {ℓ} {V : Type ℓ} where
  unfoldable pub get : Dict V → String → Option V
  get [] k = none
  get ((j, v) ∷ d) k = if j == k then some v else get d k

  unfoldable pub set : Dict V → String → V → Dict V
  set [] k v = (k, v) ∷ []
  set ((j, w) ∷ d) k v = let rest = set d k v in if j == k then (j, v) ∷ d else (j, w) ∷ rest

  unfoldable pub pop : Dict V → String → Dict V
  pop [] k = []
  pop ((j, w) ∷ d) k = let rest = pop d k in if j == k then rest else (j, w) ∷ rest

  pub get-empty : (k : String) → get [] k ≡ none
  unfolding get
  get-empty k = refl

  pub get-set :
      (d : Dict V) (k : String) (v : V) (q : String)
      → get (set d k v) q ≡ (if k == q then some v else get d q)
  unfolding get set
  get-set [] k v q = refl
  get-set ((j, w) ∷ d) k v q = ground (arith, eq_iff k q, eq_iff j k, eq_iff j q, get-set d k v q)

  pub get-pop : (d : Dict V) (k q : String) → get (pop d k) q ≡ (if k == q then none else get d q)
  unfolding get pop
  get-pop [] k q = ground arith
  get-pop ((j, w) ∷ d) k q = ground (arith, eq_iff k q, eq_iff j k, eq_iff j q, get-pop d k q)

  pub length-set :
      (d : Dict V) (k : String) (v : V)
      → length (set d k v) ≡ (if is_some (get d k) then length d else suc (length d))
  unfolding get set
  length-set [] k v = refl
  length-set ((j, w) ∷ d) k v = ground (arith, length-set d k v)

  pub length-pop :
      (d : Dict V) (k : String)
      → (length (pop d k) ≤ length d) × (is_some (get d k) ≡ true → length (pop d k) < length d)
  unfolding get pop
  length-pop [] k = (omega arith, λ h. cc)
  length-pop ((j, w) ∷ d) k =
      let (le, lt) = length-pop d k in (ground (arith, le), λ h. ground (arith, le, lt, h))

pub ruleset dict_laws = (get-empty, get-set, get-pop)

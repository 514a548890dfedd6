-- ===== src/Prelude/TextSet.antt =====
-- Python sets of texts.
use Prim.Native.String.{String}
use mathlib.Core.Path.{◌≡◌, refl}
use mathlib.Core.Bool.{Bool, false, not, ◌&&◌, ◌||◌}
use mathlib.Core.List.{List, [], ◌∷◌, ◌++◌}
use native.Mathlib.Omega.{arith}
use text.Mathlib.Text.{◌==◌}
use text.Mathlib.TextEquality.{eq_iff}
use elab_core.Prelude.Tests.{if◌then◌else◌}

abbrev pub TextSet : Type 0
TextSet = List String

unfoldable pub has : TextSet → String → Bool
has [] k = false
has (j ∷ s) k = j == k || has s k

unfoldable pub add : TextSet → String → TextSet
unfolding has
add s k = if has s k then s else s ++ (k ∷ [])

pub discard : TextSet → String → TextSet
discard [] k = []
discard (j ∷ s) k = let rest = discard s k in if j == k then rest else j ∷ rest

-- `s -= t`
pub minus : TextSet → TextSet → TextSet
unfolding has
minus [] t = []
minus (j ∷ s) t = let rest = minus s t in if has t j then rest else j ∷ rest

has-append : (s t : TextSet) (q : String) → has (s ++ t) q ≡ (has s q || has t q)
unfolding has
has-append [] t q = refl
has-append (j ∷ s) t q = ground (arith, has-append s t q)

pub has-add : (s : TextSet) (k q : String) → has (add s k) q ≡ (k == q || has s q)
unfolding add has
has-add s k q = ground (arith, has-append s (k ∷ []) q, eq_iff k q)

pub has-discard : (s : TextSet) (k q : String) → has (discard s k) q ≡ (not (k == q) && has s q)
unfolding discard has
has-discard [] k q = ground arith
has-discard (j ∷ s) k q = ground (arith, has-discard s k q, eq_iff j k, eq_iff j q, eq_iff k q)

pub has-minus : (s t : TextSet) (q : String) → has (minus s t) q ≡ (has s q && not (has t q))
unfolding minus has
has-minus [] t q = refl
has-minus (j ∷ s) t q = ground (arith, has-minus s t q, eq_iff j q)

pub ruleset set_laws = (has-add, has-discard, has-minus)

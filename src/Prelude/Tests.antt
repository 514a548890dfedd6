-- ===== src/Prelude/Tests.antt =====
-- Boolean tests, branching, and how a split on a computed value keeps its equation.
use Prim.Native.Nat.{ℕ, ◌+◌, ◌-◌, compare, Ordering}
use Prim.Native.String.{String}
use mathlib.Core.Path.{◌≡◌, refl}
use mathlib.Core.Logic.{◌⊎◌, inl, inr, ◌↔◌}
use mathlib.Core.Bool.{Bool, true, false, not}
use mathlib.Core.Option.{Option, none, some}
use text.Mathlib.Text.{◌==◌}
use text.Mathlib.TextEquality.{eq_iff}
use native.Mathlib.Omega.{arith}

abbrev pub ltb : ℕ → ℕ → Bool
ltb a b = elim (compare a b) [ Ordering.lt ↦ true | _ ↦ false ]

abbrev pub leb : ℕ → ℕ → Bool
leb a b = elim (compare a b) [ Ordering.gt ↦ false | _ ↦ true ]

abbrev pub nat_eq : ℕ → ℕ → Bool
nat_eq a b = elim (compare a b) [ Ordering.eq ↦ true | _ ↦ false ]

-- `abs(a - b)`
abbrev pub distance : ℕ → ℕ → ℕ
distance a b = (a - b) + (b - a)

infix 1 if◌then◌else◌
abbrev pub if◌then◌else◌ {ℓ} : {A : Type ℓ} → Bool → A → A → A
if true then x else y = x
if false then x else y = y

-- Python's truth value of a text.
abbrev pub truthy : String → Bool
truthy s = not (s == "")

-- Python's `==` on values that are a text or `None`.
abbrev pub opt_eq : Option String → Option String → Bool
opt_eq none none = true
opt_eq none (some b) = false
opt_eq (some a) none = false
opt_eq (some a) (some b) = a == b

abbrev pub is_some {ℓ} : {A : Type ℓ} → Option A → Bool
is_some none = false
is_some (some a) = true

-- Python's `a or b` on values that may be `None`.
abbrev pub or_else {ℓ} : {A : Type ℓ} → Option A → Option A → Option A
or_else none b = b
or_else (some a) b = some a

pub Bool-cases : (b : Bool) → (b ≡ true) ⊎ (b ≡ false)
Bool-cases true = inl refl
Bool-cases false = inr refl

pub Option-cases {ℓ} : {A : Type ℓ} (o : Option A) → (o ≡ none) ⊎ ((a : A) × (o ≡ some a))
Option-cases none = inl refl
Option-cases (some a) = inr (a, refl)

pub opt_eq_iff : (a b : Option String) → (opt_eq a b ≡ true) ↔ (a ≡ b)
opt_eq_iff none none = (λ _. refl, λ _. refl)
opt_eq_iff none (some b) = (λ h. cc, λ h. cc)
opt_eq_iff (some a) none = (λ h. cc, λ h. cc)
opt_eq_iff (some a) (some b) = (λ h. ground (arith, eq_iff a b), λ h. ground (arith, eq_iff a b))

-- A property of both branches of a test holds of its result.
pub if_lem {ℓ κ} :
    {A : Type ℓ} (P : A → Type κ) (b : Bool) (x y : A)
    → (b ≡ true → P x)
    → (b ≡ false → P y)
    → P (if b then x else y)
if_lem P true x y f g = f refl
if_lem P false x y f g = g refl

-- A relation that two tests on the same value keep.
pub if_test {ℓ κ λ₁} :
    {A : Type ℓ} {B : Type κ} (P : A → B → Type λ₁) (b : Bool) (x y : A) (u v : B)
    → P x u
    → P y v
    → P (if b then x else y) (if b then u else v)
if_test P true x y u v p q = p
if_test P false x y u v p q = q

-- ===== src/Base/Tests.antt =====
-- Boolean tests on the native numbers, and the conditional.
use Prim.Native.Nat.{ℕ, compare, Ordering}
use mathlib.Core.Path.{◌≡◌, refl, subst}
use native.Mathlib.Omega.{arith}
use mathlib.Core.Logic.{◌⊎◌, inl, inr}
use mathlib.Core.Bool.{Bool, true, false}
use mathlib.Core.Option.{Option, none, some}
use mathlib.Core.List.{List, [], ◌∷◌}

abbrev pub ltb : ℕ → ℕ → Bool
ltb a b = elim (compare a b) [ Ordering.lt ↦ true | _ ↦ false ]

infix 50 ◌==◌
abbrev pub ◌==◌ : ℕ → ℕ → Bool
a == b = elim (compare a b) [ Ordering.eq ↦ true | _ ↦ false ]

infix 1 if◌then◌else◌
abbrev pub if◌then◌else◌ {ℓ} : {A : Type ℓ} → Bool → A → A → A
if true then x else y = x
if false then x else y = y

-- The number of a flag.
abbrev pub bit : Bool → ℕ
bit true = 1
bit false = 0

-- To split on a computed value and keep the equation.
pub Bool-cases : (b : Bool) → (b ≡ true) ⊎ (b ≡ false)
Bool-cases true = inl refl
Bool-cases false = inr refl

pub Option-cases {ℓ} : {A : Type ℓ} (o : Option A) → (o ≡ none) ⊎ ((a : A) × (o ≡ some a))
Option-cases none = inl refl
Option-cases (some a) = inr (a, refl)

-- A predicate holds of a conditional, or of a case on an option, if it holds of each branch.
pub if_cases {ℓ κ} :
    {A : Type ℓ} (P : A → Type κ) (b : Bool) {x y : A}
    → (b ≡ true → P x)
    → (b ≡ false → P y)
    → P (if b then x else y)
if_cases P true h k = h refl
if_cases P false h k = k refl

pub option_cases {ℓ κ} :
    {A B : Type ℓ} (P : B → Type κ) (o : Option A) {x : B} {f : A → B}
    → (o ≡ none → P x)
    → ((a : A) → o ≡ some a → P (f a))
    → P (elim o [ none ↦ x | some a ↦ f a ])
option_cases P none h k = h refl
option_cases P (some a) h k = k a refl

pub list_cases {ℓ κ} :
    {A B : Type ℓ} (P : B → Type κ) (q : List A) {x : B} {f : A → List A → B}
    → (q ≡ [] → P x)
    → ((a : A) (r : List A) → q ≡ a ∷ r → P (f a r))
    → P (elim q [ [] ↦ x | a ∷ r ↦ f a r ])
list_cases P [] h k = h refl
list_cases P (a ∷ r) h k = k a r refl

pub sum_cases {ℓ κ} :
    {A B C : Type ℓ} (P : C → Type κ) (o : A ⊎ B) {f : A → C} {g : B → C}
    → ((a : A) → o ≡ inl a → P (f a))
    → ((b : B) → o ≡ inr b → P (g b))
    → P (elim o [ inl a ↦ f a | inr b ↦ g b ])
sum_cases P (inl a) h k = h a refl
sum_cases P (inr b) h k = k b refl

-- The same of two conditionals on one test.
pub if_both {ℓ κ μ} :
    {A : Type ℓ} {B : Type κ} (P : A → B → Type μ) (b : Bool) {x y : A} {u v : B}
    → (b ≡ true → P x u)
    → (b ≡ false → P y v)
    → P (if b then x else y) (if b then u else v)
if_both P true h k = h refl
if_both P false h k = k refl

-- A pointer that is null on one branch, and is not null.
pub some-if {ℓ} :
    {A : Type ℓ} (b : Bool) (x : A) {y : A}
    → (if b then none else some x) ≡ some y
    → (b ≡ false) × (x ≡ y)
some-if true x e = absurd (cc)
some-if false x e = (refl, cc)

-- A property of every number, at one number and at the others.
pub at_cases {κ} :
    (k : ℕ) (P : ℕ → Type κ) → P k → ((j : ℕ) → (j == k) ≡ false → P j) → (j : ℕ) → P j
at_cases k P here there j = elim (Bool-cases (j == k)) [
  | inl e ↦ let same : k ≡ j = ground arith in subst P same here
  | inr n ↦ there j n
]

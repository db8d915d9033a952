-- ===== src/Example/Stats/Bounds.antt =====
-- Lists of numbers between two bounds: their sum, their mean and the entries of an ascending list.
use Prim.Native.Nat.{zero, suc}
use native.Mathlib.Bridge.{le_prop}
use native.Mathlib.Nat.{
  ℕ_set, mul-suc, mul_comm, le-div_iff_mul-le, le_of_mul-le-mul_left, mul-div-le,
}
use mathlib.Core.Logic.{∥∥₁_elim}
use mathlib.Core.Logic.Or
use mathlib.Core.List.{
  Perm, Permᴰ, Mem, eq-or-mem_of_mem-cons, not-mem-nil, mem-cons_self, mem-cons_of_mem,
}
use transit_session.Base.{
  ℕ, ◌+◌, ◌*◌, ◌/◌, ◌≤◌, ◌<◌, ◌≡◌, refl, ap, ◌∙◌, some, List, [], ◌∷◌, ◌++◌, arith, length, subst,
}
use transit_session.Example.Stats.{IsSorted, get_elem?}

abbrev pub sum : List ℕ → ℕ
sum [] = 0
sum (x ∷ xs) = x + sum xs

-- All samples lie between two bounds.
abbrev pub Within : ℕ → ℕ → List ℕ → Type 0
Within a b [] = Unit {0}
Within a b (x ∷ xs) = (a ≤ x) × (x ≤ b) × Within a b xs

pub Mem-Within : {a b y : ℕ} (xs : List ℕ) → Within a b xs → Mem y xs → (a ≤ y) × (y ≤ b)
Mem-Within [] w m = absurd (not-mem-nil m)
Mem-Within (x ∷ xs) w m =
    Or.elim (hlevel (le_prop)) (eq-or-mem_of_mem-cons m) (λ e. omega arith)
      (λ m'. Mem-Within xs w.2 m')

pub get_elem?-Mem : {y : ℕ} (xs : List ℕ) (i : ℕ) → get_elem? xs i ≡ some y → Mem y xs
get_elem?-Mem [] i e = cc
get_elem?-Mem (x ∷ xs) zero e = subst (λ y. Mem y (x ∷ xs)) (ground arith) mem-cons_self
get_elem?-Mem (x ∷ xs) (suc i) e = mem-cons_of_mem x (get_elem?-Mem xs i e)

pub get_elem?-lt : (xs : List ℕ) (i : ℕ) → i < length xs → (y : ℕ) × (get_elem? xs i ≡ some y)
get_elem?-lt [] i h = absurd (omega arith)
get_elem?-lt (x ∷ xs) zero h = (x, refl)
get_elem?-lt (x ∷ xs) (suc i) h = get_elem?-lt xs i (omega arith)

-- In an ascending list a later entry is not smaller.
pub ascending_le :
    {y z : ℕ} (xs : List ℕ) (i j : ℕ)
    → IsSorted xs
    → i ≤ j
    → get_elem? xs i ≡ some y
    → get_elem? xs j ≡ some z
    → y ≤ z
ascending_le [] i j s h e f = cc
ascending_le (x ∷ []) zero zero s h e f = ground arith
ascending_le (x ∷ []) i (suc j) s h e f = cc
ascending_le (x ∷ []) (suc i) zero s h e f = cc
ascending_le (x ∷ x' ∷ r) zero zero s h e f = ground arith
ascending_le (x ∷ x' ∷ r) zero (suc j) s h e f =
    let rest : x' ≤ _ = ascending_le (x' ∷ r) zero j s.1 (omega arith) refl f in ground arith
ascending_le (x ∷ x' ∷ r) (suc i) zero s h e f = absurd (omega arith)
ascending_le (x ∷ x' ∷ r) (suc i) (suc j) s h e f = ascending_le (x' ∷ r) i j s.1 (omega arith) e f

pub Within-widen : {a b a' b' : ℕ} (xs : List ℕ) → a' ≤ a → b ≤ b' → Within a b xs → Within a' b' xs
Within-widen [] h k w = tt
Within-widen (x ∷ xs) h k w = (omega arith, omega arith, Within-widen xs h k w.2)

pub Within-snoc :
    {a b y : ℕ} (xs : List ℕ) → Within a b xs → a ≤ y → y ≤ b → Within a b (xs ++ y ∷ [])
Within-snoc [] w h k = (h, k, tt)
Within-snoc (x ∷ xs) w h k = (w.0, w.1, Within-snoc xs w.2 h k)

pub sum-snoc : (xs : List ℕ) (y : ℕ) → sum (xs ++ y ∷ []) ≡ sum xs + y
sum-snoc [] y = omega arith
sum-snoc (x ∷ xs) y = omega (arith, sum-snoc xs y)

Within-sum :
    (a b : ℕ) (xs : List ℕ) → Within a b xs → (a * length xs ≤ sum xs) × (sum xs ≤ b * length xs)
Within-sum a b [] w = omega arith
Within-sum a b (x ∷ xs) w =
    omega (arith, Within-sum a b xs w.2, mul-suc a (length xs), mul-suc b (length xs))

-- The mean lies between the bounds.
pub mean_bounds :
    (a b : ℕ) (xs : List ℕ)
    → Within a b xs
    → 0 < length xs
    → (a ≤ sum xs / length xs) × (sum xs / length xs ≤ b)
mean_bounds a b xs w h =
    let (low, high) = Within-sum a b xs w in
    (
      (le-div_iff_mul-le h).1 low,
      le_of_mul-le-mul_left
          (omega (arith, mul-div-le (sum xs) (length xs), high, mul_comm b (length xs))) h,
    )

length-Permᴰ : {a b : List ℕ} → Permᴰ a b → length a ≡ length b
length-Permᴰ Permᴰ.nil = refl
length-Permᴰ (Permᴰ.cons x p) = ap suc (length-Permᴰ p)
length-Permᴰ (Permᴰ.swap x y) = refl
length-Permᴰ (Permᴰ.trans p q) = length-Permᴰ p ∙ length-Permᴰ q

pub length-Perm : {a b : List ℕ} → Perm a b → length a ≡ length b
length-Perm p = ∥∥₁_elim p (ℕ_set _ _) length-Permᴰ

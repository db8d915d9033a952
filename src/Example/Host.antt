-- ===== src/Example/Host.antt =====
-- Concrete values of the benchmarks' parameters: a little-endian host, a sort by insertion and the
-- percentiles of exact arithmetic.
use mathlib.Core.List.{Perm}
use mathlib.Core.List.Perm
use transit_session.Base.{
  ℕ, ◌+◌, ◌*◌, ◌/◌, ◌%◌, ◌≤◌, refl, List, [], ◌∷◌, arith, ltb, if◌then◌else◌, if_cases, get_or,
}
use transit_session.Example.Stats.{Ratio, r50, r95, Standard, IsSorted, IsStandard}
use transit_session.Example.Payload.{Host, IsHost}

abbrev pub little : Host
little = record {
  word_bytes = λ w. (w % 256) ∷ (w / 256 % 256) ∷ (w / 65536 % 256) ∷ (w / 16777216 % 256) ∷ [];
  word_of =
      λ bs. get_or bs 0 0 + 256 * get_or bs 1 0 + 65536 * get_or bs 2 0 + 16777216 * get_or bs 3 0;
}

pub little-IsHost : IsHost little
little-IsHost = record {
  size = λ w. refl;
  bytes = λ w. (omega arith, (omega arith, (omega arith, (omega arith, tt))));
  back = λ w h. omega arith;
}

abbrev insert : ℕ → List ℕ → List ℕ
insert x [] = x ∷ []
insert x (y ∷ ys) = let rest = insert x ys in if ltb y x then y ∷ rest else x ∷ y ∷ ys

abbrev insertion_sort : List ℕ → List ℕ
insertion_sort [] = []
insertion_sort (x ∷ xs) = insert x (insertion_sort xs)

-- The head of a sorted list bounds it, and a bound on the head is enough to put one before it.
insert-IsSorted : (x : ℕ) (ys : List ℕ) → IsSorted ys → IsSorted (insert x ys)
insert-IsSorted x [] h = tt
insert-IsSorted x (y ∷ []) h =
    if_cases IsSorted (ltb y x) (λ e. (ground arith, tt)) (λ e. (ground arith, tt))
insert-IsSorted x (y ∷ z ∷ r) h =
    let rest = insert-IsSorted x (z ∷ r) h.1 in
    if_cases IsSorted (ltb y x)
      (λ e.
        if_cases (λ t. IsSorted t → IsSorted (y ∷ t)) (ltb z x) (λ _ w. (h.0, w))
          (λ _ w. (ground arith, w)) rest)
      (λ e. (ground arith, h))

insert-Perm : (x : ℕ) (ys : List ℕ) → Perm (insert x ys) (x ∷ ys)
insert-Perm x [] = Perm.refl (x ∷ [])
insert-Perm x (y ∷ ys) =
    if_cases (λ t. Perm t (x ∷ y ∷ ys)) (ltb y x)
      (λ _. Perm.trans (Perm.cons y (insert-Perm x ys)) (Perm.swap x y ys))
      (λ _. Perm.refl (x ∷ y ∷ ys))

insertion_sort-IsSorted : (xs : List ℕ) → IsSorted (insertion_sort xs)
insertion_sort-IsSorted [] = tt
insertion_sort-IsSorted (x ∷ xs) = insert-IsSorted x _ (insertion_sort-IsSorted xs)

insertion_sort-Perm : (xs : List ℕ) → Perm (insertion_sort xs) xs
insertion_sort-Perm [] = Perm.refl []
insertion_sort-Perm (x ∷ xs) =
    Perm.trans (insert-Perm x (insertion_sort xs)) (Perm.cons x (insertion_sort-Perm xs))

abbrev scale_exact : Ratio → ℕ → ℕ
scale_exact r50 n = n / 2
scale_exact r95 n = n * 19 / 20

abbrev pub exact : Standard
exact = record { sort = insertion_sort; scale = scale_exact }

exact-within : (r : Ratio) (n : ℕ) → scale_exact r n ≤ n
exact-within r50 n = omega arith
exact-within r95 n = omega arith

pub exact-IsStandard : IsStandard exact
exact-IsStandard = record {
  sorted = insertion_sort-IsSorted;
  perm = insertion_sort-Perm;
  within = exact-within;
  ascending = λ n. omega arith;
}

-- ===== src/Example/Stats.antt =====
-- example/latency_stats.hpp. Durations are counts of nanoseconds that do not go back. `total_` is a
-- signed 64-bit count, of which the model keeps the 64 bits: a sum of 2 ^ 63 or more overflows it.
-- `std::sort` and the arithmetic of `double` are parameters.
use transit_session.Base.{
  ℕ, zero, suc, ◌+◌, ◌-◌, ◌/◌, ◌%◌, ◌^◌, ◌≤◌, ◌<◌, ◌≡◌, Bool, Option, none, some, List, [], ◌∷◌,
  ◌++◌, ltb, if◌then◌else◌, length,
}
use mathlib.Core.List.{Perm}
pub mod Bounds
pub mod Printed

abbrev pub duration_max : ℕ
duration_max = 2 ^ 63 - 1

pub record LatencyStats : Type 0 where
  pub samples : List ℕ
  pub min : ℕ
  pub max : ℕ
  pub total : ℕ

abbrev pub no_stats : LatencyStats
no_stats = record { samples = []; min = duration_max; max = 0; total = 0 }

unfoldable pub add : ℕ → LatencyStats → LatencyStats
add sample s = record {
  samples = s.samples ++ sample ∷ [];
  min = if ltb sample s.min then sample else s.min;
  max = if ltb s.max sample then sample else s.max;
  total = (s.total + sample) % 2 ^ 64;
}

-- One sample after another.
abbrev pub add_all : List ℕ → LatencyStats → LatencyStats
add_all [] s = s
add_all (x ∷ xs) s = add_all xs (add x s)

-- The two ratios that are asked for.
pub data Ratio : Type 0 where
  r50 r95 : Ratio

-- `std::sort`, and `static_cast<std::size_t>(ratio * static_cast<double>(n))`.
pub record Standard : Type 0 where
  pub sort : List ℕ → List ℕ
  pub scale : Ratio → ℕ → ℕ

abbrev pub IsSorted : List ℕ → Type 0
IsSorted [] = Unit {0}
IsSorted (x ∷ []) = Unit {0}
IsSorted (x ∷ y ∷ r) = (x ≤ y) × IsSorted (y ∷ r)

-- A sort gives an ascending permutation; a ratio of at most 1 does not lead past the number, and a
-- greater ratio not to a smaller one.
pub record IsStandard (std : Standard) : Type 0 where
  pub sorted : (xs : List ℕ) → IsSorted (std.sort xs)
  pub perm : (xs : List ℕ) → Perm (std.sort xs) xs
  pub within : (r : Ratio) (n : ℕ) → std.scale r n ≤ n
  pub ascending : (n : ℕ) → std.scale r50 n ≤ std.scale r95 n

abbrev pub get_elem? : List ℕ → ℕ → Option ℕ
get_elem? [] i = none
get_elem? (x ∷ xs) zero = some x
get_elem? (x ∷ xs) (suc i) = get_elem? xs i

-- The numbers that `print_summary` writes, before they are scaled to microseconds. A percentile is
-- `none` where the access is past the end, which is undefined behaviour.
pub record Summary : Type 0 where
  pub count : ℕ
  pub min : ℕ
  pub avg : ℕ
  pub p50 : Option ℕ
  pub p95 : Option ℕ
  pub max : ℕ

module _ (std : Standard) where
  unfoldable pub percentile : List ℕ → Ratio → Option ℕ
  percentile sorted r = get_elem? sorted (std.scale r (length sorted - 1))

  -- `none` is the line that says that there are no samples.
  unfoldable pub print_summary : LatencyStats → Option Summary
  print_summary s = elim s.samples [
    | [] ↦ none
    | x ∷ xs ↦
        let sorted = std.sort s.samples in
        some (record {
          count = length s.samples;
          min = s.min;
          avg = s.total / length s.samples;
          p50 = percentile sorted r50;
          p95 = percentile sorted r95;
          max = s.max;
        })
  ]

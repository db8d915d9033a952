-- ===== src/Example/Stats/Printed.antt =====
-- What the printed numbers say of the samples.
use native.Mathlib.Nat.{mod-eq_of_lt}
use mathlib.Core.List.{Mem}
use mathlib.Core.List.Perm
use transit_session.Base.{
  ℕ, ◌-◌, ◌%◌, ◌^◌, ◌≤◌, ◌<◌, ◌≡◌, refl, sym, ap, ◌∙◌, some, List, [], ◌∷◌, ◌++◌, arith, length,
  subst, append-nil, append_assoc,
}
use transit_session.Example.Stats.{
  LatencyStats, no_stats, add, add_all, Ratio, r50, r95, Standard, IsStandard, Summary, percentile,
  print_summary,
}
use transit_session.Example.Stats.Bounds.{
  sum, Within, Mem-Within, get_elem?-Mem, get_elem?-lt, ascending_le, Within-widen, Within-snoc,
  sum-snoc, mean_bounds, length-Perm,
}

-- The extremes bound the samples, and the total is their sum as far as 64 bits go.
record Tracks (s : LatencyStats) : Type 0 where
  bounds : Within s.min s.max s.samples
  total : s.total ≡ sum s.samples % 2 ^ 64

add-Tracks : (x : ℕ) (s : LatencyStats) → Tracks s → Tracks (add x s)
unfolding add
add-Tracks x s v = record {
  bounds =
      Within-snoc s.samples (Within-widen s.samples (ground arith) (ground arith) v.bounds)
        (ground arith) (ground arith);
  total = omega (arith, v.total, sum-snoc s.samples x);
}

add_all-Tracks : (xs : List ℕ) (s : LatencyStats) → Tracks s → Tracks (add_all xs s)
add_all-Tracks [] s v = v
add_all-Tracks (x ∷ xs) s v = add_all-Tracks xs (add x s) (add-Tracks x s v)

add_all-samples : (xs : List ℕ) (s : LatencyStats) → (add_all xs s).samples ≡ s.samples ++ xs
unfolding add
add_all-samples [] s = sym (append-nil s.samples)
add_all-samples (x ∷ xs) s = add_all-samples xs (add x s) ∙ append_assoc s.samples (x ∷ []) xs

-- What the samples leave, when their sum is below 2 ^ 63.
add_all-no_stats :
    (xs : List ℕ)
    → sum xs < 2 ^ 63
    → (lo hi : ℕ) × Within lo hi xs
      × (add_all xs no_stats ≡ record { samples = xs; min = lo; max = hi; total = sum xs })
add_all-no_stats xs h =
    let s = add_all xs no_stats in
    let v = add_all-Tracks xs no_stats (record { bounds = tt; total = refl }) in
    let e : s.samples ≡ xs = add_all-samples xs no_stats in
    let f : s.total ≡ sum xs =
      v.total ∙ ap (λ ys. sum ys % 2 ^ 64) e ∙ mod-eq_of_lt (omega arith) in
    (
      s.min,
      s.max,
      subst (Within s.min s.max) e v.bounds,
      ap (λ ys. record { samples = ys; min = s.min; max = s.max; total = s.total }) e
          ∙ ap (λ t. record { samples = xs; min = s.min; max = s.max; total = t }) f,
    )

-- The least is at most the median, the median at most the 95th percentile, that at most the greatest,
-- and the mean is between the least and the greatest.
abbrev pub IsOrdered : Summary → Type 0
IsOrdered z =
    (p : ℕ) × (q : ℕ) × (z.p50 ≡ some p)
    × (z.p95 ≡ some q)
    × (z.min ≤ p)
    × (p ≤ q)
    × (q ≤ z.max)
    × (z.min ≤ z.avg)
    × (z.avg ≤ z.max)

module _ (std : Standard) (l : IsStandard std) where
  -- A percentile of samples is read within the sorted vector, and lies between their bounds.
  percentile_bounds :
      (a b : ℕ) (xs : List ℕ) (r : Ratio)
      → Within a b xs
      → 0 < length xs
      → (y : ℕ) × (percentile std (std.sort xs) r ≡ some y) × (a ≤ y) × (y ≤ b)
  unfolding percentile
  percentile_bounds a b xs r w h =
      let n = length (std.sort xs) - 1 in
      let (y, e) =
        get_elem?-lt (std.sort xs) (std.scale r n)
          (omega (arith, l.within r n, length-Perm (l.perm xs))) in
      let m : Mem y xs = (Perm.mem_iff (l.perm xs)).0 (get_elem?-Mem (std.sort xs) _ e) in
      let (low, high) = Mem-Within xs w m in (y, e, low, high)

  percentile_ordered :
      {p q : ℕ} (xs : List ℕ)
      → percentile std (std.sort xs) r50 ≡ some p
      → percentile std (std.sort xs) r95 ≡ some q
      → p ≤ q
  unfolding percentile
  percentile_ordered xs e f =
      ascending_le (std.sort xs) _ _ (l.sorted xs) (l.ascending (length (std.sort xs) - 1)) e f

  -- With a sort and a scaling as the standard describes them, the summary of one or more samples
  -- whose sum is below 2 ^ 63 is printed, counts the samples and reads both percentiles within the
  -- sorted vector; its least value is at most the median, the median at most the 95th percentile,
  -- that at most the greatest value, and the mean is between the least and the greatest.
  pub print_summary_lem :
      (x : ℕ) (xs : List ℕ)
      → sum (x ∷ xs) < 2 ^ 63
      → (z : Summary) × (print_summary std (add_all (x ∷ xs) no_stats) ≡ some z)
        × (z.count ≡ length (x ∷ xs))
        × IsOrdered z
  unfolding print_summary
  print_summary_lem x xs h =
      let (lo, hi, w, e) = add_all-no_stats (x ∷ xs) h in
      let (p, f, p0, p1) = percentile_bounds lo hi (x ∷ xs) r50 w (omega arith) in
      let (q, g, q0, q1) = percentile_bounds lo hi (x ∷ xs) r95 w (omega arith) in
      let (m0, m1) = mean_bounds lo hi (x ∷ xs) w (omega arith) in
      (
        _,
        ap (print_summary std) e,
        refl,
        (p, q, f, g, p0, percentile_ordered (x ∷ xs) f g, q1, m0, m1),
      )

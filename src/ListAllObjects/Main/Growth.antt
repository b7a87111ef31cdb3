-- ===== src/ListAllObjects/Main/Growth.antt =====
-- What the samples of the statistics add up to.
use s3cpp.Prelude.{ℕ, ◌+◌, ◌-◌, ◌≤◌, ◌<◌, ◌≡◌, List, [], ◌∷◌, arith}
use s3cpp.Std.SizeT.{minus}
use s3cpp.Std.Decimal.{size_max}
use s3cpp.ListAllObjects.Misc.{Metrics}
use s3cpp.ListAllObjects.Main.Statistics.{
  Readings, Samples, no_samples, take_samples, print_statistics,
}

unfoldable pub sum : List ℕ → ℕ
sum [] = 0
sum (n ∷ ns) = n + sum ns

-- A counter that only grows from `low` on, over the readings of some rounds, and stays below 2 ^
-- 64.
abbrev pub Grows : (Metrics → ℕ) → ℕ → List Readings → Type 0
Grows count low [] = Unit
Grows count low (r ∷ rs) =
    (low ≤ count r.before)
    × (count r.before ≤ count r.after)
    × (count r.after < size_max)
    × Grows count (count r.after) rs

-- What a counter grows by while no round measures: from `low` to the first reading, and between a
-- round's reading after its sleep and the next round's first.
unfoldable pub unmeasured : (Metrics → ℕ) → ℕ → List Readings → ℕ
unmeasured count low [] = 0
unmeasured count low (r ∷ rs) = (count r.before - low) + unmeasured count (count r.after) rs

-- The last reading of a counter, or `low` where there was none.
unfoldable pub last_reading : (Metrics → ℕ) → ℕ → List Readings → ℕ
last_reading count low [] = low
last_reading count low (r ∷ rs) = last_reading count (count r.after) rs

-- A sample is the growth over its second.
minus_adds_up : (a b : ℕ) → b ≤ a → a < size_max → minus a b + b ≡ a
unfolding minus
minus_adds_up a b le lt = omega arith

module _ {D : Type 0} (rolling_mean : List ℕ → D) where
  ops_adds_up :
      (low : ℕ) (rs : List Readings) (s : Samples)
      → Grows (λ m. m.total_ops) low rs
      → low
          + (sum (print_statistics rolling_mean rs s).1.ops + unmeasured (λ m. m.total_ops) low rs)
        ≡ last_reading (λ m. m.total_ops) low rs + sum s.ops
  unfolding print_statistics sum unmeasured last_reading take_samples
  ops_adds_up low [] s g = omega arith
  ops_adds_up low (r ∷ rs) s (le, grows, lt, g) = omega (
    arith,
    minus_adds_up r.after.total_ops r.before.total_ops grows lt,
    ops_adds_up r.after.total_ops rs (take_samples r s) g,
  )

  objects_adds_up :
      (low : ℕ) (rs : List Readings) (s : Samples)
      → Grows (λ m. m.total_objects_found) low rs
      → low
          + (sum (print_statistics rolling_mean rs s).1.objects
              + unmeasured (λ m. m.total_objects_found) low rs)
        ≡ last_reading (λ m. m.total_objects_found) low rs + sum s.objects
  unfolding print_statistics sum unmeasured last_reading take_samples
  objects_adds_up low [] s g = omega arith
  objects_adds_up low (r ∷ rs) s (le, grows, lt, g) = omega (
    arith,
    minus_adds_up r.after.total_objects_found r.before.total_objects_found grows lt,
    objects_adds_up r.after.total_objects_found rs (take_samples r s) g,
  )

  -- If both counters only grow and stay below 2 ^ 64, the samples of a run of the thread and what
  -- the counters grew by outside its seconds of sleep add up to the last readings.
  pub print_statistics_adds_up :
      (rs : List Readings)
      → Grows (λ m. m.total_ops) 0 rs
      → Grows (λ m. m.total_objects_found) 0 rs
      → (sum (print_statistics rolling_mean rs no_samples).1.ops
            + unmeasured (λ m. m.total_ops) 0 rs
          ≡ last_reading (λ m. m.total_ops) 0 rs)
        × (sum (print_statistics rolling_mean rs no_samples).1.objects
              + unmeasured (λ m. m.total_objects_found) 0 rs
            ≡ last_reading (λ m. m.total_objects_found) 0 rs)
  unfolding sum
  print_statistics_adds_up rs ops objects = (
    omega (arith, ops_adds_up 0 rs no_samples ops),
    omega (arith, objects_adds_up 0 rs no_samples objects),
  )

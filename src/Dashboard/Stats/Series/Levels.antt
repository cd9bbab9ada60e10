-- ===== src/Dashboard/Stats/Series/Levels.antt =====
-- Every point of a series is counted once, under its level.
use air_quality_monitoring.Base.{
  ℕ, zero, suc, ◌+◌, ◌≤◌, ◌<◌, ◌≡◌, ◌∙◌, refl, List, [], ◌∷◌, arith, length, keep, get_or, set,
  replicate, ◌==◌, if◌then◌else◌,
}
use air_quality_monitoring.Base.Averages.{sum}
use air_quality_monitoring.Dashboard.Stats.Series.{
  SeriesPoint, count_level, count_levels, level_counts,
}
use air_quality_monitoring.Dashboard.Stats.Series.Hours.{get_or-set, length-set}

sum-set :
    (counts : List ℕ) (i : ℕ)
    → i < length counts
    → sum (set counts i (get_or counts i 0 + 1)) ≡ sum counts + 1
sum-set [] i h = absurd (omega arith)
sum-set (c ∷ counts) zero h = omega arith
sum-set (c ∷ counts) (suc i) h = omega (arith, sum-set counts i (omega arith))

no_counts : (n i : ℕ) → get_or (replicate {A = ℕ} n 0) i 0 ≡ 0
no_counts zero i = refl
no_counts (suc n) zero = refl
no_counts (suc n) (suc i) = no_counts n i

-- A level from 1 to 6 is counted in its place.
count_level_lem :
    (level i : ℕ) (counts : List ℕ)
    → (1 ≤ level) × (level ≤ 6)
    → length counts ≡ 6
    → (get_or (count_level level counts) i 0
        ≡ (if suc i == level then get_or counts i 0 + 1 else get_or counts i 0))
      × (sum (count_level level counts) ≡ sum counts + 1)
      × (length (count_level level counts) ≡ 6)
unfolding count_level
count_level_lem zero i counts (l, u) n = absurd (omega arith)
count_level_lem (suc j) i counts (l, u) n = (
  get_or-set i j _ 0 counts (omega (arith, n)) ∙ ground arith,
  sum-set counts j (omega (arith, n)),
  length-set counts j _ ∙ n,
)

module _ {N : Type 0} (level_of : ℕ → ℕ)
    (levels : (aqi : ℕ) → (1 ≤ level_of aqi) × (level_of aqi ≤ 6)) where
  -- The points of a level.
  abbrev pub at_level : ℕ → List (SeriesPoint N) → List (SeriesPoint N)
  at_level level series = keep (λ point. level == level_of point.aqi) series

  count_levels_lem :
      (i : ℕ) (series : List (SeriesPoint N)) (counts : List ℕ)
      → length counts ≡ 6
      → (get_or (count_levels level_of series counts) i 0
          ≡ get_or counts i 0 + length (at_level (suc i) series))
        × (sum (count_levels level_of series counts) ≡ sum counts + length series)
        × (length (count_levels level_of series counts) ≡ 6)
  unfolding count_levels
  count_levels_lem i [] counts n = (omega arith, omega arith, n)
  count_levels_lem i (point ∷ series) counts n =
      let level = level_of point.aqi in
      let (there, total, size) = count_level_lem level i counts (levels point.aqi) n in
      let (rest, all, size') = count_levels_lem i series (count_level level counts) size in
      (ground (arith, there, rest), omega (arith, total, all), size')

  -- There are six counts; that of a level is the number of its points, and the counts add up to the
  -- length of the series, where the levels are 1 to 6.
  pub level_counts_partition :
      (series : List (SeriesPoint N)) (i : ℕ)
      → (length (level_counts series level_of) ≡ 6)
        × (get_or (level_counts series level_of) i 0 ≡ length (at_level (suc i) series))
        × (sum (level_counts series level_of) ≡ length series)
  unfolding level_counts
  level_counts_partition series i =
      let (there, total, size) = count_levels_lem i series (replicate 6 0) refl in
      (size, there ∙ omega (arith, no_counts 6 i), total ∙ omega arith)

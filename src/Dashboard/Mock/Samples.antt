-- ===== src/Dashboard/Mock/Samples.antt =====
-- Which moments the mock's histories have.
use air_quality_monitoring.Base.{
  ℕ, zero, suc, ◌+◌, ◌*◌, ◌-◌, ◌≤◌, ◌<◌, ◌≡◌, ◌↔◌, arith, Bool, true, any, ◌==◌, List, leb,
  by_cases, false≢true, sym, ◌∙◌,
}
use native.Mathlib.Nat.{suc-mul}
use air_quality_monitoring.Dashboard.Mock.{moments, moments_to}

abbrev pub has : ℕ → List ℕ → Bool
has x xs = any (λ y. y == x) xs

step_after : (k step t : ℕ) → t + suc k * step ≡ t + step + k * step
step_after k step t = omega (arith, suc-mul k step)

every_step :
    (k fuel step end t : ℕ)
    → 0 < step
    → end < fuel + t
    → t + k * step ≤ end
    → has (t + k * step) (moments fuel step end t) ≡ true
unfolding moments
every_step k zero step end t s f h = absurd (omega (arith, f, h))
every_step zero (suc fuel) step end t s f h = ground (arith)
every_step (suc k) (suc fuel) step end t s f h =
    let later =
      every_step k fuel step end (t + step) s (omega (arith, s, f))
        (rw⁻¹ (step_after k step t) h) in
    rw (step_after k step t) (ground (arith, later, h, s, f))

only_steps :
    (fuel step end t x : ℕ)
    → has x (moments fuel step end t) ≡ true
    → (k : ℕ) × (x ≡ t + k * step) × (x ≤ end)
unfolding moments
only_steps zero step end t x h = absurd (false≢true h)
only_steps (suc fuel) step end t x h =
    by_cases (leb t end)
      (λ e.
        by_cases (t == x) (λ here. (0, ground arith, ground arith))
          (λ there.
            let (k, same, before) = only_steps fuel step end (t + step) x (simp (e, there) at h) in
            (suc k, same ∙ sym (step_after k step t), before)))
      (λ e. absurd (false≢true (simp e at h)))

-- The loop of a history has the moments that lie whole steps after its start and not after its end, and no
-- others, where a step takes time.
pub moments_iff :
    (step end t x : ℕ)
    → 0 < step
    → (has x (moments_to step end t) ≡ true) ↔ ((k : ℕ) × (x ≡ t + k * step) × (x ≤ end))
moments_iff step end t x s = (
  only_steps (suc end - t) step end t x,
  λ h.
      let (k, same, before) = h in
      rw same (
        every_step k (suc end - t) step end t s (omega (arith, same, before))
          (omega (arith, same, before))),
)

-- ===== src/Dashboard/Store/Window.antt =====
-- Lists of readings in order of time, and what is left of them in a window.
use air_quality_monitoring.Base.{
  ℕ, ◌+◌, ◌≤◌, ◌<◌, List, [], ◌∷◌, ◌++◌, arith, All, All-append, by_cases, ltb,
}
use air_quality_monitoring.Dashboard.Model.{Reading}
use air_quality_monitoring.Dashboard.Store.{prune}

-- In order of time, no time twice.
abbrev pub Sorted : List Reading → Type 0
Sorted [] = Unit {0}
Sorted (r ∷ rs) = All (λ q. r.time < q.time) rs × Sorted rs

pub All-mono :
    (P Q : Reading → Type 0) (rs : List Reading) → ((r : Reading) → P r → Q r) → All P rs → All Q rs
All-mono P Q [] f h = tt
All-mono P Q (r ∷ rs) f (h, hs) = (f r h, All-mono P Q rs f hs)

pub append-Sorted :
    (r : Reading) (rs : List Reading)
    → Sorted rs
    → All (λ q. q.time < r.time) rs
    → Sorted (rs ++ r ∷ [])
append-Sorted r [] s h = (tt, tt)
append-Sorted r (q ∷ rs) (a, s) (h, hs) =
    (All-append (λ p. q.time < p.time) rs (r ∷ []) a (h, tt), append-Sorted r rs s hs)

pub All-prune :
    (P : Reading → Type 0) (newest span : ℕ) (rs : List Reading)
    → All P rs
    → All P (prune newest span rs)
unfolding prune
All-prune P newest span [] h = tt
All-prune P newest span (r ∷ rs) (h, hs) =
    by_cases (ltb (r.time + span) newest) (λ e. rw e (All-prune P newest span rs hs))
      (λ e. rw e (h, hs))

pub prune-Sorted : (newest span : ℕ) (rs : List Reading) → Sorted rs → Sorted (prune newest span rs)
unfolding prune
prune-Sorted newest span [] s = tt
prune-Sorted newest span (r ∷ rs) (a, s) =
    by_cases (ltb (r.time + span) newest) (λ e. rw e (prune-Sorted newest span rs s))
      (λ e. rw e (a, s))

-- What is left of an ordered history is in the window.
pub prune_window :
    (newest span : ℕ) (rs : List Reading)
    → Sorted rs
    → All (λ r. newest ≤ r.time + span) (prune newest span rs)
unfolding prune
prune_window newest span [] s = tt
prune_window newest span (r ∷ rs) (a, s) =
    by_cases (ltb (r.time + span) newest) (λ e. rw e (prune_window newest span rs s))
      (λ e.
        let in_window : newest ≤ r.time + span = ground arith in
        rw e (
          in_window,
          All-mono (λ q. r.time < q.time) (λ q. newest ≤ q.time + span) rs (λ q l. omega arith) a,
        ))

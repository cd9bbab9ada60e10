-- ===== src/Dashboard/Stats/MapLimit/Examples.antt =====
-- The pool at a concrete run: two workers over three items, the second item ending first.
use air_quality_monitoring.Base.{ℕ, ◌+◌, ◌≡◌, refl, some, List, [], ◌∷◌, map, arith}
use air_quality_monitoring.Dashboard.Stats.MapLimit.{
  Pool, initial, take_item, leave, finish, taken, left, finished, Reachable, start, next,
}
use air_quality_monitoring.Dashboard.Stats.MapLimit.Completion.{results_of_finished}

abbrev items : List ℕ
items = 10 ∷ 20 ∷ []

abbrev task : ℕ → ℕ
task n = n + 1

abbrev p0 : Pool ℕ
p0 = initial items 2 task

abbrev p1 : Pool ℕ
p1 = take_item items 2 task p0

abbrev p2 : Pool ℕ
p2 = take_item items 2 task p1

-- The second item ends first.
abbrev p3 : Pool ℕ
p3 = finish items 2 task [] 1 (0 ∷ []) p2

abbrev p4 : Pool ℕ
p4 = leave items 2 task p3

abbrev p5 : Pool ℕ
p5 = finish items 2 task [] 0 [] p4

abbrev p6 : Pool ℕ
p6 = leave items 2 task p5

p2-Reachable : Reachable items 2 task p2
unfolding initial take_item
p2-Reachable =
    next p1 p2 (next p0 p1 start (taken p0 (omega arith) (omega arith)))
      (taken p1 (omega arith) (omega arith))

p6-Reachable : Reachable items 2 task p6
unfolding initial take_item finish leave
p6-Reachable =
    next p5 p6
      (next p4 p5
        (next p3 p4 (next p2 p3 p2-Reachable (finished p2 [] 1 (0 ∷ []) refl))
          (left p3 (omega arith) (omega arith)))
        (finished p4 [] 0 [] refl))
      (left p5 (omega arith) (omega arith))

results_of_finished_example : p6.results ≡ map (λ item. some (task item)) items
results_of_finished_example =
    results_of_finished items 2 task p6 (omega arith) p6-Reachable
      (unfold initial take_item finish leave in refl)
      (unfold initial take_item finish leave in refl)

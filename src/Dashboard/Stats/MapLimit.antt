-- ===== src/Dashboard/Stats/MapLimit.antt =====
-- mapLimit of apps/dashboard/src/lib/stats.ts: workers that take the items in turn. Between two awaits a
-- worker runs alone, so the pool moves by the steps below, in any order that they are possible.
pub mod Completion
pub mod Examples
use air_quality_monitoring.Base.{
  ℕ, suc, ◌≤◌, ◌<◌, ◌≡◌, Option, none, some, List, [], ◌∷◌, ◌++◌, map, min, length, get_or, set,
  replicate, ◌-◌,
}

module _ {ℓ κ} {T : Type ℓ} {R : Type κ} (items : List T) (limit : ℕ) (task : T → R) where
  -- What the task gives for each item; an index without an item gives nothing.
  unfoldable pub task_of : ℕ → Option R
  task_of i = get_or (map (λ item. some (task item)) items) i none

-- `ready` workers are at the test of their loop, those of `running` await the item of their index,
-- `ended` have left the loop.
pub record Pool {κ} (R : Type κ) : Type κ where
  pub next_index : ℕ
  pub ready : ℕ
  pub running : List ℕ
  pub ended : ℕ
  pub results : List (Option R)

module _ {ℓ κ} {T : Type ℓ} {R : Type κ} (items : List T) (limit : ℕ) (task : T → R) where
  unfoldable pub initial : Pool R
  initial = record {
    next_index = 0;
    ready = min limit (length items);
    running = [];
    ended = 0;
    results = replicate (length items) none;
  }

  -- `const index = next++`, up to the await.
  unfoldable pub take_item : Pool R → Pool R
  take_item p = record p {
    next_index = suc p.next_index;
    ready = p.ready - 1;
    running = p.next_index ∷ p.running;
  }

  unfoldable pub leave : Pool R → Pool R
  leave p = record p { ready = p.ready - 1; ended = suc p.ended }

  -- `results[index] = await …`, back to the test.
  unfoldable pub finish : List ℕ → ℕ → List ℕ → Pool R → Pool R
  finish before i after p = record p {
    ready = suc p.ready;
    running = before ++ after;
    results = set p.results i (task_of items limit task i);
  }

  pub data Step : Pool R → Pool R → Type (ℓ ⊔ κ) where
    taken : (p : Pool R) → 0 < p.ready → p.next_index < length items → Step p (take_item p)
    left : (p : Pool R) → 0 < p.ready → length items ≤ p.next_index → Step p (leave p)
    finished :
        (p : Pool R) (before : List ℕ) (i : ℕ) (after : List ℕ)
        → p.running ≡ before ++ i ∷ after
        → Step p (finish before i after p)

  pub data Reachable : Pool R → Type (ℓ ⊔ κ) where
    start : Reachable initial
    next : (p q : Pool R) → Reachable p → Step p q → Reachable q

-- ===== src/Simulator/Gateway/Waiting.antt =====
-- Each promise of waitForDownlink is settled once at most, and never lost.
use air_quality_monitoring.Base.{
  ℕ, suc, ◌+◌, ◌<◌, ◌≡◌, refl, ap, true, not, List, [], ◌∷◌, ◌++◌, map, arith, ◌==◌, ==_iff, ltb,
  if◌then◌else◌, keep, any, by_cases,
}
use air_quality_monitoring.Codec.Words.{Bytes}
use air_quality_monitoring.Simulator.Gateway.{
  Gateway, PullResp, malformed, no_data, downlink, resolve_waiter, deliver, take_downlink,
  send_pull_data, uplink, on_data_downlink, wait_for_downlink, expire, on_message, Step, pulled,
  pushed, handler_set, waited, expired, received, Reachable, start, next,
}

-- How often `id` stands in a list.
unfoldable pub count : ℕ → List ℕ → ℕ
count id [] = 0
count id (w ∷ ws) = let rest = count id ws in if w == id then suc rest else rest

count-append : (id : ℕ) (xs ys : List ℕ) → count id (xs ++ ys) ≡ count id xs + count id ys
unfolding count
count-append id [] ys = omega arith
count-append id (x ∷ xs) ys = ground (arith, count-append id xs ys)

count-keep :
    (id j : ℕ) (ws : List ℕ)
    → count id (keep (λ w. not (w == j)) ws) ≡ (if j == id then 0 else count id ws)
unfolding count
count-keep id j [] = ground arith
count-keep id j (w ∷ ws) = ground (arith, count-keep id j ws)

count-any : (id : ℕ) (ws : List ℕ) → any (λ w. w == id) ws ≡ true → 0 < count id ws
unfolding count
count-any id [] h = ground (arith, h)
count-any id (w ∷ ws) h = ground (arith, h, count-any id ws)

abbrev pub resolved_ids : Gateway → List ℕ
resolved_ids g = map (λ (id, phy). id) g.resolved

-- Where a promise is: waiting, resolved or rejected.
abbrev pub places : ℕ → Gateway → ℕ
places id g = count id g.waiters + count id (resolved_ids g) + count id g.rejected

-- Every promise that was made, and no other, is in one place.
abbrev pub IsOnce : Gateway → Type 0
IsOnce g = (id : ℕ) → places id g ≡ (if ltb id g.next_waiter then 1 else 0)

wait-IsOnce : (g : Gateway) → IsOnce g → IsOnce (wait_for_downlink g)
unfolding wait_for_downlink count
wait-IsOnce g w id = ground (arith, w id, count-append id g.waiters (g.next_waiter ∷ []))

expire-IsOnce :
    (id : ℕ) (g : Gateway) → any (λ w. w == id) g.waiters ≡ true → IsOnce g → IsOnce (expire id g)
unfolding expire count
expire-IsOnce j g h w id =
    by_cases (j == id)
      (λ e.
        let same : j ≡ id = (==_iff j id).0 e in
        ground (arith, e, w id, count-keep id j g.waiters, count-any j g.waiters h))
      (λ e. ground (arith, e, w id, count-keep id j g.waiters))

resolve_waiter-IsOnce :
    (ws : List ℕ) (phy : Bytes) (g : Gateway)
    → g.waiters ≡ ws
    → IsOnce g
    → IsOnce (resolve_waiter ws phy g)
unfolding count
resolve_waiter-IsOnce [] phy g e w id = ground (arith, w id)
resolve_waiter-IsOnce (j ∷ ws) phy g e w id = ground (arith, w id, ap (count id) e)

take_downlink-IsOnce : (r : PullResp) (g : Gateway) → IsOnce g → IsOnce (take_downlink r g)
unfolding deliver
take_downlink-IsOnce malformed g w = w
take_downlink-IsOnce no_data g w = w
take_downlink-IsOnce (downlink phy) g w = resolve_waiter-IsOnce g.waiters phy g refl w

module _ (read : Bytes → PullResp) (eui : Bytes) where
  on_message-IsOnce : (msg : Bytes) (g : Gateway) → IsOnce g → IsOnce (on_message read eui msg g)
  unfolding on_message
  on_message-IsOnce msg g w id = ground (arith, w id, take_downlink-IsOnce (read msg) g w id)

  Step-IsOnce : {g g' : Gateway} → Step read eui g g' → IsOnce g → IsOnce g'
  unfolding send_pull_data uplink on_data_downlink
  Step-IsOnce (pulled g token) w = w
  Step-IsOnce (pushed g token rxpk) w = w
  Step-IsOnce (handler_set g) w = w
  Step-IsOnce (waited g) w = wait-IsOnce g w
  Step-IsOnce (expired g id h) w = expire-IsOnce id g h w
  Step-IsOnce (received g msg) w = on_message-IsOnce msg g w

  -- In every state that waits, timeouts, downlinks and any other messages reach, each promise of a
  -- downlink that was made is in exactly one place: it waits, or it was resolved once, or it was
  -- rejected once.
  pub Reachable-IsOnce : (g : Gateway) → Reachable read eui g → IsOnce g
  unfolding count
  Reachable-IsOnce _ start = λ id. ground arith
  Reachable-IsOnce _ (next r st) = Step-IsOnce st (Reachable-IsOnce _ r)

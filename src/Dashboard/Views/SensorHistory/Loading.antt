-- ===== src/Dashboard/Views/SensorHistory/Loading.antt =====
-- The loading state is that of the newest request.
use air_quality_monitoring.Base.{
  ℕ, ◌≡◌, refl, false, not, List, [], ◌∷◌, arith, keep, any, ◌==◌, if◌then◌else◌,
}
use air_quality_monitoring.Dashboard.Views.SensorHistory.{
  History, begin, end, began, ended, Reachable, start, next,
}

-- Of the requests that wait, those that differ from one that ended.
any-keep :
    (n r : ℕ) (pending : List ℕ)
    → any (λ p. p == n) (keep (λ p. not (p == r)) pending)
      ≡ (if r == n then false else any (λ p. p == n) pending)
any-keep n r [] = ground arith
any-keep n r (p ∷ pending) = ground (arith, any-keep n r pending)

end_lem :
    (h : History) (r : ℕ)
    → h.loading ≡ any (λ p. p == h.request) h.pending
    → (end r h).loading ≡ any (λ p. p == (end r h).request) (end r h).pending
unfolding end
end_lem h r e = ground (arith, e, any-keep h.request r h.pending)

-- In every state that requests and their ends reach, in any order, the page is loading exactly while
-- the newest request waits: an older one never ends the loading, and the newest always does.
pub Reachable-loading :
    (h : History) → Reachable h → h.loading ≡ any (λ r. r == h.request) h.pending
unfolding begin
Reachable-loading h start = refl
Reachable-loading h (next r (began h')) = ground arith
Reachable-loading h (next r (ended h' request)) = end_lem h' request (Reachable-loading h' r)

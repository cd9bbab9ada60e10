-- ===== src/Dashboard/Store/Clock.antt =====
-- syncClock of apps/dashboard/src/stores/air.ts: the offset of the server's clock, guessed from one
-- round trip. Clocks are integers of milliseconds; the offset is kept doubled, since it is halved.
use air_quality_monitoring.Base.{◌≡◌, Option, none, some, ap}
use air_quality_monitoring.Base.Int.{
  ℤ, ◌+ℤ◌, ◌-ℤ◌, ◌*ℤ◌, ◌≤ℤ◌, int_laws, *ℤ_parts, pos_part, neg_part,
}

-- The clock of the reader's device when the request was sent, the server's answer, and the device's
-- clock when it arrived.
pub record RoundTrip : Type 0 where
  pub sent : ℤ
  pub server : ℤ
  pub received : ℤ

-- `server - (sent + Date.now()) / 2`, doubled. A failed request keeps the offset.
unfoldable pub sync_clock : Option RoundTrip → ℤ → ℤ
sync_clock none offset = offset
sync_clock (some t) offset = (t.server *ℤ 2) -ℤ (t.sent +ℤ t.received)

-- serverNow(), doubled: `Date.now() + clockOffset`.
unfoldable pub server_now : ℤ → ℤ → ℤ
server_now now offset = (now *ℤ 2) +ℤ offset

-- If the server stamped its answer while the request was under way and its clock is ahead of the
-- device's by `ahead`, then after the sync the store's time is off by at most half the round trip.
pub sync_clock_bounded :
    (t : RoundTrip) (stamped ahead now offset : ℤ)
    → t.server ≡ stamped +ℤ ahead
    → t.sent ≤ℤ stamped
    → stamped ≤ℤ t.received
    → let true_time = (now +ℤ ahead) *ℤ 2 in
      let guess = server_now now (sync_clock (some t) offset) in
      (guess ≤ℤ true_time +ℤ (t.received -ℤ t.sent))
      × (true_time ≤ℤ guess +ℤ (t.received -ℤ t.sent))
unfolding sync_clock server_now
sync_clock_bounded t stamped ahead now offset e l u =
    let p = ap pos_part e in
    let n = ap neg_part e in (omega (int_laws, *ℤ_parts), omega (int_laws, *ℤ_parts))

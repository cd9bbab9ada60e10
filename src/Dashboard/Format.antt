-- ===== src/Dashboard/Format.antt =====
-- apps/dashboard/src/lib/format.ts: the numbers behind what is shown. Intl writes them.
use air_quality_monitoring.Base.{
  ℕ, ◌+◌, ◌-◌, ◌*◌, ◌/◌, ◌≤◌, ◌<◌, arith, ltb, by_cases, if◌then◌else◌,
}
use air_quality_monitoring.Base.Int.{ℤ, pos, ◌-ℤ◌, ◌*ℤ◌, max_ℤ, min_ℤ}
use air_quality_monitoring.Base.Rounding.{round_div}

-- `Math.min(100, Math.max(0, Math.round(((millivolts - 3200) / 1000) * 100)))`
unfoldable pub battery_percent : ℤ → ℤ
battery_percent millivolts =
    min_ℤ (pos 100) (max_ℤ (pos 0) (round_div ((millivolts -ℤ pos 3200) *ℤ 100) 1000))

pub data AgoUnit : Type 0 where
  second minute hour day : AgoUnit

-- `Math.round(n / d)`
abbrev rounded_over : ℕ → ℕ → ℕ
rounded_over n d = (2 * n + d) / (2 * d)

-- What formatAgo gives to Intl.RelativeTimeFormat, negated: the count and its unit. A time that is
-- later than `now` is `0 seconds`.
unfoldable pub format_ago : ℕ → ℕ → ℕ × AgoUnit
format_ago time now =
    let seconds = rounded_over (now - time) 1000 in
    let minutes = rounded_over seconds 60 in
    let hours = rounded_over minutes 60 in
    if ltb seconds 60
    then (seconds, second)
    else if ltb minutes 60
    then (minutes, minute)
    else if ltb hours 48
    then (hours, hour)
    else (rounded_over hours 24, day)

-- The counts that each unit is shown with.
abbrev pub InUnit : ℕ × AgoUnit → Type 0
InUnit (n, second) = n < 60
InUnit (n, minute) = (1 ≤ n) × (n < 60)
InUnit (n, hour) = (1 ≤ n) × (n < 48)
InUnit (n, day) = 2 ≤ n

-- A time ago is never shown as no minutes, sixty minutes, no hours or fewer than two days.
pub format_ago-InUnit : (time now : ℕ) → InUnit (format_ago time now)
unfolding format_ago
format_ago-InUnit time now =
    let seconds = rounded_over (now - time) 1000 in
    let minutes = rounded_over seconds 60 in
    let hours = rounded_over minutes 60 in
    by_cases (ltb seconds 60) (λ e. rw (e, format_ago) (ground arith))
      (λ e.
        by_cases (ltb minutes 60) (λ f. rw (e, f, format_ago) (ground arith, ground arith))
          (λ f.
            by_cases (ltb hours 48) (λ g. rw (e, f, g, format_ago) (ground arith, ground arith))
              (λ g. rw (e, f, g, format_ago) (ground arith))))

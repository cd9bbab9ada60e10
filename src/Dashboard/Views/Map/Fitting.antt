-- ===== src/Dashboard/Views/Map/Fitting.antt =====
-- When the map moves by itself.
use air_quality_monitoring.Base.{
  ◌≡◌, refl, sym, ◌∙◌, false≢true, Bool, true, false, not, ◌&&◌, none, List, [], ◌∷◌, map, ap, ◌⊎◌,
  inl, inr, if◌then◌else◌,
}
use air_quality_monitoring.Base.Int.{ℤ}
use air_quality_monitoring.Dashboard.Stats.{SensorRow}
use air_quality_monitoring.Dashboard.Views.Map.{
  fit_bounds, MapState, coordinates, fit_rows, fit_to_sensors, on_style_ready, on_rows, on_theme,
  on_error, on_click, styled, changed, themed, erred, clicked, Reachable, start, next,
}

-- A map that has not moved, or that was fitted once.
abbrev pub HasFitted : MapState → Type 0
HasFitted s =
    ((s.fitted ≡ false) × (s.moves ≡ []))
    ⊎ ((bounds : List (ℤ × ℤ)) × (s.fitted ≡ true) × (s.moves ≡ fit_bounds bounds ∷ []))

fit_rows-HasFitted :
    (rows : List SensorRow) (s : MapState)
    → s.fitted ≡ false
    → s.moves ≡ []
    → HasFitted (fit_rows rows s)
fit_rows-HasFitted [] s f m = inl (f, m)
fit_rows-HasFitted (row ∷ rows) s f m = inr (
  map coordinates (row ∷ rows),
  refl,
  ap (λ ms. fit_bounds (map coordinates (row ∷ rows)) ∷ ms) m,
)

HasFitted-if :
    (b : Bool) (s t : MapState)
    → (b ≡ true → HasFitted s)
    → (b ≡ false → HasFitted t)
    → HasFitted (if b then s else t)
HasFitted-if true s t h k = h refl
HasFitted-if false s t h k = k refl

fit_to_sensors-HasFitted : (s : MapState) → HasFitted s → HasFitted (fit_to_sensors none s)
unfolding fit_to_sensors
fit_to_sensors-HasFitted s (inl (f, m)) =
    HasFitted-if s.fitted s (fit_rows s.rows s) (λ _. inl (f, m))
      (λ e. fit_rows-HasFitted s.rows s e m)
fit_to_sensors-HasFitted s (inr (bounds, f, m)) =
    HasFitted-if s.fitted s (fit_rows s.rows s) (λ _. inr (bounds, f, m))
      (λ e. absurd (false≢true (sym e ∙ f)))

-- A map that has no sensor in focus moves by itself at most once, to fit some bounds, whatever styles
-- load, rows and themes change, errors occur and dots are clicked, in any order.
pub Reachable-HasFitted :
    (rows : List SensorRow) (s : MapState) → Reachable none rows s → HasFitted s
unfolding on_style_ready on_rows on_theme on_error on_click
Reachable-HasFitted rows s start = inl (refl, refl)
Reachable-HasFitted rows s (next r (styled s')) =
    fit_to_sensors-HasFitted (record s' { style_ready = true }) (Reachable-HasFitted rows s' r)
Reachable-HasFitted rows s (next r (changed rows' s')) =
    HasFitted-if s'.style_ready _ _
      (λ _. fit_to_sensors-HasFitted (record s' { rows = rows' }) (Reachable-HasFitted rows s' r))
      (λ _. Reachable-HasFitted rows s' r)
Reachable-HasFitted rows s (next r (themed s')) = Reachable-HasFitted rows s' r
Reachable-HasFitted rows s (next r (erred b s')) =
    HasFitted-if (not s'.style_ready && b) _ _ (λ _. Reachable-HasFitted rows s' r)
      (λ _. Reachable-HasFitted rows s' r)
Reachable-HasFitted rows s (next r (clicked hit s')) = Reachable-HasFitted rows s' r

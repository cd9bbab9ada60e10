-- ===== src/Dashboard/Views/Map/Examples.antt =====
-- The map at concrete rows.
use air_quality_monitoring.Base.{◌≡◌, refl, none, some, List, [], ◌∷◌}
use air_quality_monitoring.Dashboard.Metrics.{level_colour}
use air_quality_monitoring.Dashboard.Model.{online, offline}
use air_quality_monitoring.Dashboard.Stats.{SensorRow}
use air_quality_monitoring.Dashboard.Stats.Examples.{sensor, reading}
use air_quality_monitoring.Dashboard.Views.Map.{
  readable_on, MapState, mounted, on_rows, on_style_ready, on_theme, styled, changed, themed,
  Reachable, start, next,
}
use air_quality_monitoring.Dashboard.Views.Map.Fitting.{HasFitted, Reachable-HasFitted}

abbrev rows : List SensorRow
rows =
    record { sensor = sensor "b" none ""; reading = some (reading "b" 5 40); status = online }
    ∷ record { sensor = sensor "c" none ""; reading = none; status = offline }
    ∷ []

-- The rows arrive before the style, and again after another theme's.
abbrev seen : MapState
seen = on_style_ready none (on_theme (on_style_ready none (on_rows none rows (mounted []))))

seen-Reachable : Reachable none [] seen
seen-Reachable = next (next (next (next start (changed rows _)) (styled _)) (themed _)) (styled _)

Reachable-HasFitted_example : HasFitted seen
Reachable-HasFitted_example = Reachable-HasFitted [] seen seen-Reachable

dark_ink : readable_on (level_colour "#F2C230") ≡ "#0C2231"
unfolding readable_on
dark_ink = refl

light_ink : readable_on (level_colour "#CF2F28") ≡ "#FFFFFF"
unfolding readable_on
light_ink = refl

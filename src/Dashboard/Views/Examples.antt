-- ===== src/Dashboard/Views/Examples.antt =====
-- The views at concrete rows and requests.
use air_quality_monitoring.Base.{
  ◌*◌, ◌≡◌, refl, true, none, some, List, [], ◌∷◌, ◌++◌, any, ◌==◌, arith,
}
use air_quality_monitoring.Base.Int.{pos, negsuc}
use air_quality_monitoring.Base.Strings.{String}
use air_quality_monitoring.Dashboard.Aqi.{aqi_category, pm25_to_aqi}
use air_quality_monitoring.Dashboard.Model.{Sensor, Reading, online, offline, inactive}
use air_quality_monitoring.Dashboard.Stats.{SensorRow}
use air_quality_monitoring.Dashboard.Stats.Examples.{sensor, reading}
use air_quality_monitoring.Dashboard.Views.Chart.{color_of, band_of, pm25_bands, pm25_bands_color}
use air_quality_monitoring.Dashboard.Views.Network.{issues}
use air_quality_monitoring.Dashboard.Views.Network.Issues.{
  of_rows, silence, battery, signal, issues_in_parts,
}
use air_quality_monitoring.Dashboard.Views.SensorHistory.{
  History, initial, begin, end, began, ended, Reachable, start, next,
}
use air_quality_monitoring.Dashboard.Views.SensorHistory.Loading.{Reachable-loading}

-- Two requests, of which the first has been answered.
abbrev overtaken : History
overtaken = end 1 (begin (begin initial))

overtaken-Reachable : Reachable overtaken
overtaken-Reachable =
    next (next (next start (began initial)) (began (begin initial)))
      (ended (begin (begin initial)) 1)

Reachable-loading_example : overtaken.loading ≡ any (λ r. r == overtaken.request) overtaken.pending
Reachable-loading_example = Reachable-loading overtaken overtaken-Reachable

still_loading : overtaken.loading ≡ true
unfolding begin end
still_loading = refl

abbrev weak : Reading
weak = record (reading "b" 5 40) {
  battery_mv = some (pos 3300);
  signal_strength = some (negsuc 119);
}

abbrev rows : List SensorRow
rows =
    record { sensor = sensor "b" none ""; reading = some weak; status = online }
    ∷ record { sensor = sensor "c" none ""; reading = none; status = offline }
    ∷ record { sensor = sensor "d" none ""; reading = none; status = inactive }
    ∷ []

abbrev name_of : Sensor → String
name_of s = s.name

issues_in_parts_example :
    issues name_of name_of rows
    ≡ of_rows name_of name_of (silence name_of name_of) rows
      ++ of_rows name_of name_of (battery name_of name_of) rows
      ++ of_rows name_of name_of (signal name_of name_of) rows
issues_in_parts_example = issues_in_parts name_of name_of rows

pm25_bands_color_example :
    color_of (band_of (pos (354 * 10)) pm25_bands)
    ≡ some (aqi_category (pm25_to_aqi (pos (354 * 10)))).solid
pm25_bands_color_example = pm25_bands_color 354 (omega arith)

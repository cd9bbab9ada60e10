-- ===== src/Dashboard/Mock.antt =====
-- apps/dashboard/src/mock: the histories of model.ts and the service of mock-sensor-service.ts. The reading of a
-- sensor at a moment, which is made of sines and exponentials, is a parameter, and so is the fleet.
pub mod Samples
use air_quality_monitoring.Base.{
  ℕ, zero, suc, ◌+◌, ◌*◌, ◌-◌, ◌/◌, Bool, true, not, ◌||◌, Option, none, some, List, [], ◌∷◌, ◌++◌,
  map, find, keep, foldl, max, length, leb, if◌then◌else◌,
}
use air_quality_monitoring.Base.Groups.{grouped}
use air_quality_monitoring.Base.Int.{ℤ, ◌*ℤ◌}
use air_quality_monitoring.Base.Rounding.{Hundredths, round_div}
use air_quality_monitoring.Base.Strings.{String, str_eq}
use air_quality_monitoring.Dashboard.Model.{Sensor, Reading, HourlyPoint}
use air_quality_monitoring.Dashboard.Stats.{total_of}
use air_quality_monitoring.Dashboard.Store.{hour}

abbrev pub minute : ℕ
minute = 60000

abbrev pub day : ℕ
day = 24 * hour

abbrev pub sample_ms : ℕ
sample_ms = 5 * minute

-- A sensor of the fleet, as far as these read it.
pub record MockSensor : Type 0 where
  pub sensor : Sensor
  pub silent_for_ms : Option ℕ

-- `sensor.silentForMs ?? 0`
abbrev pub silence_of : Option ℕ → ℕ
silence_of none = 0
silence_of (some ms) = ms

-- Moments are after the silence of every sensor, so that the difference does not stop at 0.
unfoldable pub last_report_time : MockSensor → ℕ → ℕ
last_report_time m now = now - silence_of m.silent_for_ms

-- `for (let t = start; t <= end; t += step)`, with fuel.
unfoldable pub moments : ℕ → ℕ → ℕ → ℕ → List ℕ
moments zero step end t = []
moments (suc fuel) step end t =
    let rest = moments fuel step end (t + step) in if leb t end then t ∷ rest else []

-- As much fuel as there are milliseconds left.
abbrev pub moments_to : ℕ → ℕ → ℕ → List ℕ
moments_to step end t = moments (suc end - t) step end t

-- `Math.ceil(start / SAMPLE_MS) * SAMPLE_MS`
abbrev pub first_sample : ℕ → ℕ
first_sample start = (start + (sample_ms - 1)) / sample_ms * sample_ms

module _ (reading_at : Sensor → ℕ → Reading) where
  unfoldable pub raw_history : MockSensor → ℕ → ℕ → List Reading
  unfolding last_report_time
  raw_history m hours now =
      map (reading_at m.sensor)
        (moments_to sample_ms (last_report_time m now) (first_sample (now - hours * hour)))

  unfoldable pub get_latest : List MockSensor → ℕ → List Reading
  unfolding last_report_time
  get_latest fleet now = map (λ m. reading_at m.sensor (last_report_time m now)) fleet

  unfoldable pub get_readings : List MockSensor → String → ℕ → ℕ → List Reading
  unfolding raw_history
  get_readings fleet id hours now = elim (find (λ m. str_eq m.sensor.id id) fleet) [
    | none ↦ []
    | some m ↦ raw_history m hours now
  ]

-- `Math.floor((now - days * DAY) / HOUR) * HOUR`
abbrev pub first_hour : ℕ → ℕ → ℕ
first_hour days now = (now - days * day) / hour * hour

-- The moments of the hourly points, and of the three samples of each.
unfoldable pub hours_of : MockSensor → ℕ → ℕ → List ℕ
unfolding last_report_time
hours_of m days now = moments_to hour (last_report_time m now) (first_hour days now)

abbrev pub samples_of : ℕ → List ℕ
samples_of t = (t + 10 * minute) ∷ (t + 30 * minute) ∷ (t + 50 * minute) ∷ []

abbrev pub concat_map {ℓ κ} : {A : Type ℓ} {B : Type κ} → (A → List B) → List A → List B
concat_map f [] = []
concat_map f (x ∷ xs) = f x ++ concat_map f xs

-- `!(neighborhood && sensor.neighborhood !== neighborhood)`
abbrev pub is_in : Option String → Option String → Bool
is_in none place = true
is_in (some wanted) none = str_eq wanted ""
is_in (some wanted) (some place) = str_eq wanted "" || str_eq place wanted

-- `round1` of the mean of some values.
abbrev pub round1_mean : (Reading → Hundredths) → List Reading → Hundredths
round1_mean pick samples = round_div (total_of (map pick samples)) (10 * length samples) *ℤ 10

module _ (reading_at : Sensor → ℕ → Reading) where
  unfoldable pub hourly_point : Sensor → ℕ → HourlyPoint
  unfolding round_div
  hourly_point sensor t =
      let samples = map (reading_at sensor) (samples_of t) in
      record {
        sensor_id = sensor.id;
        time = t;
        pm25 = round1_mean (λ r. r.pm25) samples;
        pm10 = round1_mean (λ r. r.pm10) samples;
        temperature = round1_mean (λ r. r.temperature) samples;
        humidity = round1_mean (λ r. r.humidity) samples;
        max_aqi = foldl (λ most r. max most r.aqi) 0 samples;
        samples = 12;
      }

  unfoldable pub hourly_history : MockSensor → ℕ → ℕ → List HourlyPoint
  unfolding hourly_point hours_of
  hourly_history m days now = map (hourly_point m.sensor) (hours_of m days now)

  unfoldable pub get_hourly : List MockSensor → String → ℕ → ℕ → List HourlyPoint
  unfolding hourly_history
  get_hourly fleet id days now = elim (find (λ m. str_eq m.sensor.id id) fleet) [
    | none ↦ []
    | some m ↦ hourly_history m days now
  ]

  -- The points of the fleet that getNetworkHourly groups, by their hours in ascending order.
  unfoldable pub network_groups :
      List MockSensor → ℕ → Option String → ℕ → List (ℕ × List HourlyPoint)
  unfolding hourly_history
  network_groups fleet days neighborhood now =
      grouped (λ p. p.time)
        (concat_map (λ m. hourly_history m days now)
          (keep (λ m. is_in neighborhood m.sensor.neighborhood) fleet))

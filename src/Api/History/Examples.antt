-- ===== src/Api/History/Examples.antt =====
-- Histories of two sensors in one neighbourhood that is spelled in two ways.
use air_quality_monitoring.Base.{
  ℕ, ◌≤◌, ◌≡◌, ◌≢◌, ◌∙◌, refl, sym, ◌↔◌, Bool, false, false≢true, ◌&&◌, none, some, List, [], ◌∷◌,
  map, keep, leb, ◌==◌,
}
use air_quality_monitoring.Base.Int.{pos}
use air_quality_monitoring.Base.Slugs.{dash_runs, strip_end, words}
use air_quality_monitoring.Base.Strings.{String, str_eq, eq_iff}
use air_quality_monitoring.Api.Overview.Examples.{sensor}
use air_quality_monitoring.Api.Readings.{window_days}
use air_quality_monitoring.Api.Sensors.{Table, Host}
use air_quality_monitoring.Api.History.{
  HourlyRow, NetworkHourlyBucket, network_history, device_ids, wanted, is_of_place, place_key,
}
use air_quality_monitoring.Api.History.Buckets.{IsNetworkHistory, network_history_buckets}
use air_quality_monitoring.Api.History.Places.{
  IsText, browser, group_id, place_key_iff, device_ids_grouped,
}
use air_quality_monitoring.Dashboard.Places.{slugify}

-- A host whose texts need no trimming and are in lower case.
abbrev host : Host
host = record { trim = λ s. s; to_lower_case = λ s. s; now = 0; random_uuid = "u" }

abbrev is_word : ℕ → Bool
is_word c = leb b'a' c && leb c b'z'

abbrev sensors : Table
sensors =
    record (sensor "a") { neighborhood = some "el mina" }
    ∷ record (sensor "b") { neighborhood = some "azmi" }
    ∷ record (sensor "c") { neighborhood = some "el-mina" }
    ∷ []

abbrev hourly_row : String → ℕ → HourlyRow
hourly_row id hour = record {
  sensor_id = id;
  bucket = hour;
  avg_pm25 = pos 1200;
  avg_pm10 = pos 2000;
  avg_temperature = pos 2100;
  avg_humidity = pos 6000;
  max_aqi = 57;
  sample_count = 12;
}

abbrev rows : List HourlyRow
rows =
    hourly_row "c" 7200000 ∷ hourly_row "a" 3600000 ∷ hourly_row "a" 7200000 ∷ hourly_row "b" 0 ∷ []

seven_days : window_days none ≡ pos 700
unfolding window_days
seven_days = refl

network_history_buckets_example :
    ((1 ≤ 7) × (7 ≤ 90))
    × ((buckets : List NetworkHourlyBucket) × (network_history 10000000 none ("a" ∷ "c" ∷ []) rows
          ≡ some buckets)
        × IsNetworkHistory 10000000 7 ("a" ∷ "c" ∷ []) rows buckets)
network_history_buckets_example =
    network_history_buckets 10000000 7 none ("a" ∷ "c" ∷ []) rows seven_days

host-IsText : IsText host
host-IsText = record { trim_twice = λ s. refl; trim_empty = refl; lower_empty = refl }

key_of_mina : place_key host is_word "el mina" ≡ "el-mina"
unfolding place_key dash_runs strip_end
key_of_mina = refl

key_ne : (s : String) → str_eq "el-mina" s ≡ false → place_key host is_word "el mina" ≢ s
key_ne s f e = false≢true (sym f ∙ (eq_iff "el-mina" s).1 (sym key_of_mina ∙ e))

device_ids_grouped_example :
    device_ids host is_word (some "el mina") sensors
    ≡ map
        (λ row. row.device_id)
        (keep
          (λ row.
            row.is_active
            && str_eq
                (group_id host is_word (λ c. c == b' ') row)
                (slugify (browser host is_word (λ c. c == b' ')) "el mina"))
          sensors)
device_ids_grouped_example =
    device_ids_grouped host is_word (λ c. c == b' ') host-IsText "el mina" sensors (key_ne "" refl)
      (key_ne "unassigned" refl)

two_devices : device_ids host is_word (some "el mina") sensors ≡ "a" ∷ "c" ∷ []
unfolding device_ids wanted is_of_place place_key dash_runs strip_end
two_devices = refl

place_key_iff_example :
    (place_key host is_word "el mina" ≡ place_key host is_word "el-mina")
    ↔ (words is_word "el mina" ≡ words is_word "el-mina")
place_key_iff_example = place_key_iff host is_word refl "el mina" "el-mina"

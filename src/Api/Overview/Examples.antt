-- ===== src/Api/Overview/Examples.antt =====
-- The snapshot at concrete stores: two active sensors, one of which has a fresh reading.
use air_quality_monitoring.Base.{◌≡◌, refl, true, none, some, [], ◌∷◌, Option, if◌then◌else◌}
use air_quality_monitoring.Base.Int.{pos}
use air_quality_monitoring.Base.Strings.{String, str_eq}
use air_quality_monitoring.Contracts.Reading.{ReadingResponse}
use air_quality_monitoring.Domain.Aqi.{good}
use air_quality_monitoring.Api.Sensors.{SensorRow, Table, active, overview_device_ids}
use air_quality_monitoring.Api.Overview.{cached_readings, online_readings, overview, average_of}

abbrev pub sensor : String → SensorRow
sensor id = record {
  id = id;
  device_id = id;
  name = id;
  description = none;
  latitude = pos 34450000;
  longitude = pos 35810000;
  neighborhood = none;
  status = active;
  is_active = true;
  installed_at = none;
  is_simulated = true;
  last_seen_at = none;
  battery_mv = none;
  created_at = 1;
  updated_at = 1;
}

abbrev sensors : Table
sensors = sensor "a" ∷ sensor "b" ∷ []

abbrev fresh : ReadingResponse
fresh = record {
  reading = record {
    device_id = "a";
    timestamp = 950000;
    pm25 = pos 700;
    pm10 = pos 1500;
    pm1 = none;
    temperature = pos 2000;
    humidity = pos 5500;
    pressure = none;
    battery_mv = none;
    signal_strength = none;
  };
  id = record { device = "a"; at = 950000 };
  sensor_id = "a";
  aqi = 39;
  aqi_category = good;
}

abbrev cached : String → Option ReadingResponse
cached id = if str_eq id "a" then some fresh else none

one_online :
    ((overview 1000000 sensors cached []).sensors_online ≡ 1)
    × ((overview 1000000 sensors cached []).avg_aqi ≡ some 39)
unfolding overview online_readings cached_readings overview_device_ids average_of
one_online = (refl, refl)

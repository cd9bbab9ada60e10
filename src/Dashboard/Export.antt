-- ===== src/Dashboard/Export.antt =====
-- apps/dashboard/src/lib/export.ts: readings as rows of named values, and rows as CSV. A text is the
-- list of its UTF-16 code units.
pub mod Reader
pub mod RoundTrip
mod Examples
use air_quality_monitoring.Base.{
  ℕ, Bool, false, ◌||◌, Option, none, some, List, [], ◌∷◌, ◌++◌, map, ◌==◌, any, if◌then◌else◌,
}
use air_quality_monitoring.Base.Int.{ℤ}
use air_quality_monitoring.Base.Maps.{get}
use air_quality_monitoring.Base.Rounding.{Hundredths}
use air_quality_monitoring.Base.Strings.{String}
use air_quality_monitoring.Dashboard.Model.{Sensor, Reading, HourlyPoint}

abbrev pub Text : Type 0
Text = List ℕ

abbrev pub quote : ℕ
quote = 34

abbrev pub comma : ℕ
comma = 44

abbrev pub return : ℕ
return = 13

abbrev pub newline : ℕ
newline = 10

-- The values are texts here, as `String(value)` makes them.
abbrev pub ExportRow : Type 0
ExportRow = List (String × Text)

-- How texts, numbers and moments are written: the code units of a text, `String` and `toISOString`.
pub record Writer : Type 0 where
  pub units : String → Text
  pub hundredths : Hundredths → Text
  pub degrees : ℤ → Text
  pub integer : ℤ → Text
  pub number : ℕ → Text
  pub iso : ℕ → Text

-- `value ?? ''`
abbrev pub written_or_empty {ℓ} : {A : Type ℓ} → (A → Text) → Option A → Text
written_or_empty write none = []
written_or_empty write (some value) = write value

module _ (writer : Writer) where
  unfoldable pub sensor_columns : Sensor → ExportRow
  sensor_columns sensor =
      ("device_id", writer.units sensor.id)
      ∷ ("sensor", writer.units sensor.name)
      ∷ ("neighborhood", written_or_empty writer.units sensor.neighborhood)
      ∷ ("latitude", writer.degrees sensor.latitude)
      ∷ ("longitude", writer.degrees sensor.longitude)
      ∷ []

  unfoldable pub reading_rows : Sensor → List Reading → List ExportRow
  unfolding sensor_columns
  reading_rows sensor = map (λ r.
      sensor_columns sensor
      ++ ("time", writer.iso r.time)
        ∷ ("aqi", writer.number r.aqi)
        ∷ ("pm25_ugm3", writer.hundredths r.pm25)
        ∷ ("pm10_ugm3", writer.hundredths r.pm10)
        ∷ ("temperature_c", writer.hundredths r.temperature)
        ∷ ("humidity_percent", writer.hundredths r.humidity)
        ∷ ("pressure_hpa", written_or_empty writer.hundredths r.pressure)
        ∷ ("battery_mv", written_or_empty writer.integer r.battery_mv)
        ∷ ("signal_dbm", written_or_empty writer.integer r.signal_strength)
        ∷ [])

  unfoldable pub hourly_rows : Sensor → List HourlyPoint → List ExportRow
  unfolding sensor_columns
  hourly_rows sensor = map (λ p.
      sensor_columns sensor
      ++ ("hour_start", writer.iso p.time)
        ∷ ("avg_pm25_ugm3", writer.hundredths p.pm25)
        ∷ ("avg_pm10_ugm3", writer.hundredths p.pm10)
        ∷ ("avg_temperature_c", writer.hundredths p.temperature)
        ∷ ("avg_humidity_percent", writer.hundredths p.humidity)
        ∷ ("max_aqi", writer.number p.max_aqi)
        ∷ ("samples", writer.number p.samples)
        ∷ [])

-- `/[",\r\n]/`
abbrev pub is_special : ℕ → Bool
is_special c = (c == quote) || ((c == comma) || ((c == return) || (c == newline)))

-- `replace(/"/g, '""')`
unfoldable pub doubled : Text → Text
doubled [] = []
doubled (c ∷ cs) = let rest = doubled cs in if c == quote then quote ∷ quote ∷ rest else c ∷ rest

unfoldable pub csv_field : Text → Text
csv_field text = if any is_special text then quote ∷ (doubled text ++ quote ∷ []) else text

-- What `join` puts after its first element.
abbrev pub joined_rest : Text → List Text → Text
joined_rest sep [] = []
joined_rest sep (x ∷ xs) = sep ++ (x ++ joined_rest sep xs)

abbrev pub join : Text → List Text → Text
join sep [] = []
join sep (x ∷ xs) = x ++ joined_rest sep xs

abbrev pub keys : ExportRow → List String
keys = map (λ (k, v). k)

-- `row[h] ?? ''`
unfoldable pub cell : ExportRow → String → Text
cell row h = elim (get h row) [ none ↦ [] | some value ↦ value ]

unfoldable pub line : List String → ExportRow → Text
line headers row = join (comma ∷ []) (map (λ h. csv_field (cell row h)) headers)

unfoldable pub to_csv : (String → Text) → List ExportRow → Text
to_csv units [] = []
to_csv units (row ∷ rows) =
    let headers = keys row in
    join (return ∷ newline ∷ [])
      (join (comma ∷ []) (map units headers) ∷ map (line headers) (row ∷ rows))

-- ===== src/Ingestion/Invariant.antt =====
-- What is true of the stores after any sequence of messages, whatever the servers do.
use air_quality_monitoring.Base.{
  ℕ, suc, ◌+◌, ◌%◌, ◌≢◌, Option, none, some, ◌≡◌, refl, sym, ap, length, subst, true, ◌&&◌, List,
  [], ◌∷◌, arith, any, All, ◌==◌,
}
use air_quality_monitoring.Base.Int.{pos, negsuc, ◌≤ℤ◌, pos_part, neg_part}
use air_quality_monitoring.Base.Rounding.{Hundredths, is_integer}
use air_quality_monitoring.Base.Strings.{String, str_eq, eq_iff}
use air_quality_monitoring.Contracts.Events.{AppEvent, reading_created, device_status}
use air_quality_monitoring.Contracts.Reading.{SensorReading, is_sensor_reading, optional, in_range}
use air_quality_monitoring.Domain.Aqi.{calculate_aqi}
use air_quality_monitoring.Ingestion.State.{
  Row, State, Env, Metric, readings_ingested, readings_dropped, insert_row,
}
use air_quality_monitoring.Ingestion.Handler.{row_of, payload_of, handle_uplink}
use air_quality_monitoring.Ingestion.Effects.{
  Effect, ignored, incomplete, configured, failed, failed_at_cache, failed_at_channel, ingested,
  index_of, handle_uplink-Effect,
}
use air_quality_monitoring.Ingestion.Stores.{
  KeysUnique, All-insert_row, insert_row-KeysUnique, any-insert_row, any-insert_row_mono,
}

-- What holds of a value, if there is one.
abbrev pub Of : (Hundredths → Type 0) → Option Hundredths → Type 0
Of P none = Unit {0}
Of P (some x) = P x

-- A number without a fraction.
abbrev pub IsWhole : Hundredths → Type 0
IsWhole x = (pos_part x + neg_part x) % 100 ≡ 0

-- The values of a row are in the contract's ranges, its device has a name, and its index and category are those of its
-- particle levels.
pub record IsSound (row : Row) : Type 0 where
  pub pm25_range : (pos 0 ≤ℤ row.pm25) × (row.pm25 ≤ℤ pos 655350)
  pub pm10_range : (pos 0 ≤ℤ row.pm10) × (row.pm10 ≤ℤ pos 655350)
  pub temperature_range : (negsuc 3999 ≤ℤ row.temperature) × (row.temperature ≤ℤ pos 8500)
  pub humidity_range : (pos 0 ≤ℤ row.humidity) × (row.humidity ≤ℤ pos 10000)
  pub pressure_range : Of (λ x. (pos 30000 ≤ℤ x) × (x ≤ℤ pos 110000)) row.pressure
  pub battery_whole : Of IsWhole row.battery_mv
  pub signal_whole : Of IsWhole row.signal_strength
  pub named : row.sensor_id ≢ ""
  pub aqi_eq : row.aqi ≡ (calculate_aqi row.pm25 row.pm10).aqi
  pub category_eq : row.aqi_category ≡ (calculate_aqi row.pm25 row.pm10).category

-- The reading that the event announces has a row.
abbrev pub IsStored : List Row → AppEvent → Type 0
IsStored rows (reading_created p) =
    any (λ row. str_eq p.reading.device_id row.sensor_id && (p.reading.timestamp == row.time)) rows
    ≡ true
IsStored rows (device_status device online at) = Unit {0}

-- How many readings the counter of ingested readings has counted.
abbrev pub ingested_count : List Metric → ℕ
ingested_count [] = 0
ingested_count (readings_ingested c ∷ metrics) = suc (ingested_count metrics)
ingested_count (readings_dropped reason ∷ metrics) = ingested_count metrics

pub record IsConsistent (s : State) : Type 0 where
  pub sound : All IsSound s.readings
  pub unique : KeysUnique s.readings
  pub stored : All (IsStored s.readings) s.published
  pub counted : length s.published ≡ ingested_count s.metrics

pressure_lem :
    (o : Option Hundredths)
    → optional (in_range (pos 30000) (pos 110000)) o ≡ true
    → Of (λ x. (pos 30000 ≤ℤ x) × (x ≤ℤ pos 110000)) o
pressure_lem none e = tt
pressure_lem (some x) e = ground arith

whole_lem : (o : Option Hundredths) → optional is_integer o ≡ true → Of IsWhole o
unfolding is_integer
whole_lem none e = tt
whole_lem (some x) e = ground arith

pub row_of-IsSound :
    (r : SensorReading) → is_sensor_reading r ≡ true → IsSound (row_of r (index_of r))
unfolding is_sensor_reading row_of
row_of-IsSound r v = record {
  pressure_range = pressure_lem r.pressure (ground arith);
  battery_whole = whole_lem r.battery_mv (ground arith);
  signal_whole = whole_lem r.signal_strength (ground arith);
  named = λ e. ground (arith, (eq_iff r.device_id "").1 e);
  pm25_range = ground arith;
  pm10_range = ground arith;
  temperature_range = ground arith;
  humidity_range = ground arith;
  aqi_eq = refl;
  category_eq = refl;
}

IsStored-insert_row :
    (row : Row) (rows : List Row) (e : AppEvent)
    → IsStored rows e
    → IsStored (insert_row row rows) e
IsStored-insert_row row rows (reading_created p) h = any-insert_row_mono _ row rows h
IsStored-insert_row row rows (device_status d o a) h = tt

All-IsStored-insert_row :
    (row : Row) (rows : List Row) (events : List AppEvent)
    → All (IsStored rows) events
    → All (IsStored (insert_row row rows)) events
All-IsStored-insert_row row rows [] h = tt
All-IsStored-insert_row row rows (e ∷ events) (h, hs) =
    (IsStored-insert_row row rows e h, All-IsStored-insert_row row rows events hs)

-- The new row stores the event of its reading.
payload_of-IsStored :
    (r : SensorReading) (rows : List Row)
    → IsStored
        (insert_row (row_of r (index_of r)) rows)
        (reading_created (payload_of r (index_of r)))
unfolding row_of payload_of
payload_of-IsStored r rows = any-insert_row (row_of r (index_of r)) rows

Effect-IsConsistent :
    (env : Env) (s s' : State) → Effect env s s' → IsConsistent s → IsConsistent s'
Effect-IsConsistent env s s' (ignored e) h = subst IsConsistent (sym e) h
Effect-IsConsistent env s s' (incomplete reason n e) h =
    subst IsConsistent (sym e)
      (record { sound = h.sound; unique = h.unique; stored = h.stored; counted = h.counted })
Effect-IsConsistent env s s' (configured d c e) h =
    subst IsConsistent (sym e)
      (record { sound = h.sound; unique = h.unique; stored = h.stored; counted = h.counted })
Effect-IsConsistent env s s' (failed e) h =
    subst IsConsistent (sym e)
      (record { sound = h.sound; unique = h.unique; stored = h.stored; counted = h.counted })
Effect-IsConsistent env s s' (failed_at_cache r v e) h = subst IsConsistent (sym e) (record {
  sound = All-insert_row IsSound _ s.readings (row_of-IsSound r v) h.sound;
  unique = insert_row-KeysUnique _ s.readings h.unique;
  stored = All-IsStored-insert_row _ s.readings s.published h.stored;
  counted = h.counted;
})
Effect-IsConsistent env s s' (failed_at_channel r v e) h = subst IsConsistent (sym e) (record {
  sound = All-insert_row IsSound _ s.readings (row_of-IsSound r v) h.sound;
  unique = insert_row-KeysUnique _ s.readings h.unique;
  stored = All-IsStored-insert_row _ s.readings s.published h.stored;
  counted = h.counted;
})
Effect-IsConsistent env s s' (ingested r v e) h = subst IsConsistent (sym e) (record {
  sound = All-insert_row IsSound _ s.readings (row_of-IsSound r v) h.sound;
  unique = insert_row-KeysUnique _ s.readings h.unique;
  stored =
      (payload_of-IsStored r s.readings, All-IsStored-insert_row _ s.readings s.published h.stored);
  counted = ap suc h.counted;
})

-- One message after another, each with what the environment does for it.
unfoldable pub handle_all : List (Env × String) → State → State
handle_all [] s = s
handle_all ((env, raw) ∷ rest) s = handle_all rest (handle_uplink env raw s)

-- Every sequence of messages, whatever they hold and whichever servers answer, keeps the stores
-- consistent: every row is in the contract's ranges (particles, temperature, humidity and pressure,
-- whole battery and signal values, a device) with the index and category of its particle levels, no
-- two rows have the same sensor and time, every published reading has a row, and as many readings
-- were counted as ingested as events were published.
pub handle_all-IsConsistent :
    (messages : List (Env × String)) (s : State)
    → IsConsistent s
    → IsConsistent (handle_all messages s)
unfolding handle_all
handle_all-IsConsistent [] s h = h
handle_all-IsConsistent ((env, raw) ∷ rest) s h =
    handle_all-IsConsistent rest (handle_uplink env raw s)
      (Effect-IsConsistent env s (handle_uplink env raw s) (handle_uplink-Effect env raw s) h)

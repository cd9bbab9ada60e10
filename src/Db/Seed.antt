-- ===== src/Db/Seed.antt =====
-- packages/db/src/seed.ts: the fixtures inserted into the sensors table, or written over the rows that have
-- their devices.
pub mod Idempotent
mod Examples
use air_quality_monitoring.Base.{
  ℕ, Bool, true, none, some, List, [], ◌∷◌, ◌++◌, map, any, if◌then◌else◌,
}
use air_quality_monitoring.Base.Strings.{String}
use air_quality_monitoring.Api.Sensors.{SensorRow, Table, active, has_device}
use air_quality_monitoring.Db.Fixtures.{SensorFixture}

-- What PostgreSQL fills in: `defaultRandom()`, here by device, and `now()`.
pub record Defaults : Type 0 where
  pub random_uuid : String → String
  pub now : ℕ

module _ (defaults : Defaults) where
  unfoldable pub inserted_row : SensorFixture → SensorRow
  inserted_row f = record {
    id = defaults.random_uuid f.device_id;
    device_id = f.device_id;
    name = f.name;
    description = none;
    latitude = f.latitude;
    longitude = f.longitude;
    neighborhood = some f.neighborhood;
    status = active;
    is_active = true;
    installed_at = none;
    is_simulated = true;
    last_seen_at = none;
    battery_mv = none;
    created_at = defaults.now;
    updated_at = defaults.now;
  }

  -- `onConflictDoUpdate`: the columns of its `set`.
  unfoldable pub conflict_row : SensorFixture → SensorRow → SensorRow
  conflict_row f row = record row {
    name = f.name;
    latitude = f.latitude;
    longitude = f.longitude;
    neighborhood = some f.neighborhood;
    is_simulated = true;
    updated_at = defaults.now;
  }

  unfoldable pub upsert : SensorFixture → Table → Table
  unfolding conflict_row inserted_row
  upsert f rows =
      if any (has_device f.device_id) rows
      then map (λ row. if has_device f.device_id row then conflict_row f row else row) rows
      else rows ++ inserted_row f ∷ []

  unfoldable pub seed : List SensorFixture → Table → Table
  unfolding upsert
  seed [] rows = rows
  seed (f ∷ fixtures) rows = seed fixtures (upsert f rows)

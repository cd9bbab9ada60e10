-- ===== src/Db/Seed/Examples.antt =====
-- The fixtures seeded twice into an empty table.
use air_quality_monitoring.Base.{◌≡◌, refl, [], map, All}
use air_quality_monitoring.Db.Fixtures.{sensor_fixtures}
use air_quality_monitoring.Db.Seed.{Defaults, seed}
use air_quality_monitoring.Db.Seed.Idempotent.{untimed, Holds, AreDistinct, seed_idempotent}

abbrev at_one : Defaults
at_one = record { random_uuid = λ d. d; now = 1 }

abbrev at_two : Defaults
at_two = record { random_uuid = λ d. d; now = 2 }

fixtures-AreDistinct : AreDistinct sensor_fixtures
fixtures-AreDistinct = (
  (refl, (refl, (refl, (refl, (refl, tt))))),
  (
    (refl, (refl, (refl, (refl, tt)))),
    ((refl, (refl, (refl, tt))), ((refl, (refl, tt)), ((refl, tt), (tt, tt)))),
  ),
)

seed_idempotent_example :
    All (Holds (seed at_one sensor_fixtures [])) sensor_fixtures
    × (map untimed (seed at_two sensor_fixtures (seed at_one sensor_fixtures []))
        ≡ map untimed (seed at_one sensor_fixtures []))
seed_idempotent_example = seed_idempotent at_one at_two sensor_fixtures [] fixtures-AreDistinct

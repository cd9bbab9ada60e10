-- ===== src/Db/Fixtures.antt =====
-- packages/db/src/fixtures.ts: the simulated deployment. Coordinates are millionths of a degree, baselines
-- whole micrograms.
use air_quality_monitoring.Base.{ℕ, List, [], ◌∷◌}
use air_quality_monitoring.Base.Int.{ℤ, pos}
use air_quality_monitoring.Base.Strings.{String}

pub record SensorFixture : Type 0 where
  pub device_id : String
  pub name : String
  pub latitude : ℤ
  pub longitude : ℤ
  pub neighborhood : String
  pub baseline_pm25 : ℕ

abbrev pub sensor_fixtures : List SensorFixture
sensor_fixtures =
    record {
      device_id = "70b3d57ed0060001";
      name = "El Mina Corniche";
      latitude = pos 34451600;
      longitude = pos 35820600;
      neighborhood = "El Mina";
      baseline_pm25 = 18;
    }
    ∷ record {
      device_id = "70b3d57ed0060002";
      name = "Tell Downtown";
      latitude = pos 34436700;
      longitude = pos 35849700;
      neighborhood = "Tell";
      baseline_pm25 = 42;
    }
    ∷ record {
      device_id = "70b3d57ed0060003";
      name = "Abou Samra Heights";
      latitude = pos 34426200;
      longitude = pos 35849200;
      neighborhood = "Abou Samra";
      baseline_pm25 = 28;
    }
    ∷ record {
      device_id = "70b3d57ed0060004";
      name = "Zahrieh Square";
      latitude = pos 34440000;
      longitude = pos 35843000;
      neighborhood = "Zahrieh";
      baseline_pm25 = 35;
    }
    ∷ record {
      device_id = "70b3d57ed0060005";
      name = "Qobbeh Market";
      latitude = pos 34445000;
      longitude = pos 35860000;
      neighborhood = "Qobbeh";
      baseline_pm25 = 48;
    }
    ∷ record {
      device_id = "70b3d57ed0060006";
      name = "Bab al-Tabbaneh";
      latitude = pos 34448000;
      longitude = pos 35852000;
      neighborhood = "Bab al-Tabbaneh";
      baseline_pm25 = 55;
    }
    ∷ []

-- ===== src/Domain/Examples.antt =====
-- Runs of the index, and its theorems at concrete concentrations.
use air_quality_monitoring.Base.{◌≡◌, refl}
use air_quality_monitoring.Base.Int.{pos}
use air_quality_monitoring.Domain.Aqi.{
  calculate_aqi, sub_index, find_breakpoint, interpolate, aqi_category, good, moderate, pm25,
}
use air_quality_monitoring.Domain.Aqi.Category.{level, calculate_aqi_category}

-- 9.09 is truncated to 9.0 and stays good; 9.1 is moderate.
boundary :
    (calculate_aqi (pos 909) (pos 0)
      ≡ record { aqi = 50; category = good; dominant_pollutant = pm25 })
    × (calculate_aqi (pos 910) (pos 0)
        ≡ record { aqi = 51; category = moderate; dominant_pollutant = pm25 })
unfolding calculate_aqi sub_index find_breakpoint interpolate aqi_category
boundary = (refl, refl)

-- 155 micrograms of PM10 are index 101, 12.3 of PM2.5 are 57.
dust : (calculate_aqi (pos 1230) (pos 15500)).aqi ≡ 101
unfolding calculate_aqi sub_index find_breakpoint interpolate aqi_category
dust = refl

calculate_aqi_category_example : level (calculate_aqi (pos 909) (pos 5499)).category ≡ 1
calculate_aqi_category_example = calculate_aqi_category (pos 909) (pos 5499)

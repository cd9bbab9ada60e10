-- ===== src/Dashboard/Aqi/Examples.antt =====
-- The dashboard's scale at concrete values.
use air_quality_monitoring.Base.{◌≡◌, refl, some, none}
use air_quality_monitoring.Base.Int.{pos}
use air_quality_monitoring.Domain.Aqi.{calculate_aqi}
use air_quality_monitoring.Domain.Aqi.Category.{level}
use air_quality_monitoring.Dashboard.Aqi.{aqi_category, particles_to_aqi, aqi_solid, aqi_text, dark}
use air_quality_monitoring.Dashboard.Aqi.Agreement.{particles_to_aqi-eq-calculate_aqi}

colours : (aqi_solid (some 101) ≡ "#F08A24") × (aqi_text none dark ≡ "#8CA5B3")
unfolding aqi_solid aqi_text
colours = (refl, refl)

particles_to_aqi-eq-calculate_aqi_example :
    (particles_to_aqi (pos 909) (pos 15500) ≡ (calculate_aqi (pos 909) (pos 15500)).aqi)
    × ((aqi_category (particles_to_aqi (pos 909) (pos 15500))).level
        ≡ level (calculate_aqi (pos 909) (pos 15500)).category)
particles_to_aqi-eq-calculate_aqi_example = particles_to_aqi-eq-calculate_aqi (pos 909) (pos 15500)

-- ===== src/Dashboard/Locale/Examples.antt =====
-- Names in both languages.
use air_quality_monitoring.Base.{◌≡◌, refl, none, some}
use air_quality_monitoring.Dashboard.Locale.{place_name, place_or}
use air_quality_monitoring.Dashboard.Prefs.{en, ar}

arabic_missing : place_name ar "Souk" none ≡ "Souk"
unfolding place_name
arabic_missing = refl

no_place : place_or en "Unassigned" none (some "x") ≡ "Unassigned"
unfolding place_or
no_place = refl

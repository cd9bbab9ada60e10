-- ===== src/Api/Health/Examples.antt =====
-- The health check at concrete probes.
use air_quality_monitoring.Base.{◌≡◌, refl}
use air_quality_monitoring.Api.Health.{resolves, with_timeout, failed}

slow : with_timeout (resolves 2500) ≡ failed "Error: timeout"
unfolding with_timeout
slow = refl

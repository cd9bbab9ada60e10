-- ===== src/Dashboard/Prefs/Examples.antt =====
-- A reader who picks the light theme on a dark system, which then turns light and dark again.
use air_quality_monitoring.Base.{◌≡◌, ◌≢◌, refl, inl, true, false, []}
use air_quality_monitoring.Base.Maps.{get, put}
use air_quality_monitoring.Dashboard.Prefs.{
  Prefs, holding, blocked, opened, toggle_theme, system_changed, changed, toggled, Reachable, start,
  next, light, initial_theme, stored, store,
}
use air_quality_monitoring.Dashboard.Prefs.Reload.{Reachable-initial_theme}

abbrev picked : Prefs
picked = system_changed true (system_changed false (toggle_theme (opened true (holding []))))

picked-Reachable : Reachable true (holding []) picked
picked-Reachable = next (next (next start (toggled _)) (changed _ false)) (changed _ true)

holding-ne-blocked : holding [] ≢ blocked
holding-ne-blocked e = cc

Reachable-initial_theme_example : (opened picked.system_dark picked.storage).theme ≡ picked.theme
Reachable-initial_theme_example =
    Reachable-initial_theme true (holding []) picked holding-ne-blocked
      (inl (unfold stored get in refl)) picked-Reachable

stays_light : picked.theme ≡ light
unfolding system_changed toggle_theme opened initial_theme stored store get put
stays_light = refl

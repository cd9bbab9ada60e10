-- ===== src/Dashboard/Locale.antt =====
-- apps/dashboard/src/composables/useLocale.ts and useAqi.ts: the names of sensors and places in the reader's
-- language, and the keys of the texts. vue-i18n looks the keys up.
mod Examples
use air_quality_monitoring.Base.{Bool, true, false, ◌||◌, Option, none, some, if◌then◌else◌}
use air_quality_monitoring.Base.Strings.{String, append, str_eq}
use air_quality_monitoring.Dashboard.Model.{Sensor}
use air_quality_monitoring.Dashboard.Prefs.{Locale, en, ar, Document, apply_locale}

unfoldable pub is_rtl : Locale → Bool
is_rtl en = false
is_rtl ar = true

-- `(isRtl.value && arabic) || latin`: the Arabic text, where there is one that is not empty.
unfoldable pub in_script : Bool → Option String → String → String
in_script false arabic latin = latin
in_script true none latin = latin
in_script true (some arabic) latin = if str_eq arabic "" then latin else arabic

unfoldable pub sensor_name : Locale → Sensor → String
unfolding is_rtl in_script
sensor_name locale sensor = in_script (is_rtl locale) sensor.name_ar sensor.name

unfoldable pub place_name : Locale → String → Option String → String
unfolding is_rtl in_script
place_name locale name name_ar = in_script (is_rtl locale) name_ar name

-- `unassigned` is the text `sensors.unassigned`.
unfoldable pub place_or : Locale → String → Option String → Option String → String
unfolding is_rtl in_script
place_or locale unassigned none neighborhood_ar = unassigned
place_or locale unassigned (some neighborhood) neighborhood_ar =
    if str_eq neighborhood ""
    then unassigned
    else in_script (is_rtl locale) neighborhood_ar neighborhood

unfoldable pub sensor_place : Locale → String → Sensor → String
unfolding place_or
sensor_place locale unassigned sensor =
    place_or locale unassigned sensor.neighborhood sensor.neighborhood_ar

-- setLocale: the reader's language, applied to the document and remembered.
unfoldable pub set_locale : Locale → Locale × Document → Locale × Document
unfolding apply_locale
set_locale chosen (locale, document) = (chosen, apply_locale chosen document)

-- ===== src/Dashboard/Prefs.antt =====
-- apps/dashboard/src/composables/usePrefs.ts: the language and the theme, and what the device remembers of
-- them.
pub mod Reload
mod Examples
use air_quality_monitoring.Base.{
  Bool, true, false, Option, none, some, List, [], ◌∷◌, if◌then◌else◌,
}
use air_quality_monitoring.Base.Maps.{put, get}
use air_quality_monitoring.Base.Strings.{String, str_eq}

pub data Locale : Type 0 where
  en ar : Locale

pub data Theme : Type 0 where
  light dark : Theme

-- localStorage, or `blocked`, where every access throws.
pub data Storage : Type 0 where
  blocked : Storage
  holding : List (String × String) → Storage

abbrev pub locale_key : String
locale_key = "aq.locale"

abbrev pub theme_key : String
theme_key = "aq.theme"

unfoldable pub stored : String → Storage → Option String
stored key blocked = none
stored key (holding items) = get key items

unfoldable pub store : String → String → Storage → Storage
store key value blocked = blocked
store key value (holding items) = holding (put key value items)

abbrev pub locale_name : Locale → String
locale_name en = "en"
locale_name ar = "ar"

abbrev pub theme_name : Theme → String
theme_name light = "light"
theme_name dark = "dark"

abbrev pub locale_or : Locale → Option String → Locale
locale_or usual none = usual
locale_or usual (some saved) =
    if str_eq saved "en" then en else if str_eq saved "ar" then ar else usual

-- `is_arabic` tells whether the browser's language begins with `ar`.
unfoldable pub initial_locale : Bool → Storage → Locale
initial_locale is_arabic storage =
    locale_or (if is_arabic then ar else en) (stored locale_key storage)

abbrev pub theme_or : Theme → Option String → Theme
theme_or usual none = usual
theme_or usual (some saved) =
    if str_eq saved "light" then light else if str_eq saved "dark" then dark else usual

abbrev pub system_theme : Bool → Theme
system_theme is_dark = if is_dark then dark else light

unfoldable pub initial_theme : Bool → Storage → Theme
initial_theme system_dark storage = theme_or (system_theme system_dark) (stored theme_key storage)

-- The theme that is shown, the system's, and the storage.
pub record Prefs : Type 0 where
  pub theme : Theme
  pub system_dark : Bool
  pub storage : Storage

unfoldable pub opened : Bool → Storage → Prefs
opened system_dark storage = record {
  theme = initial_theme system_dark storage;
  system_dark = system_dark;
  storage = storage;
}

-- `!stored(THEME_KEY)`: nothing, or the empty text.
abbrev pub is_unset : Option String → Bool
is_unset none = true
is_unset (some saved) = str_eq saved ""

-- The system's theme changes: it is followed until the reader has picked one.
unfoldable pub system_changed : Bool → Prefs → Prefs
system_changed is_dark p = record p {
  theme = if is_unset (stored theme_key p.storage) then system_theme is_dark else p.theme;
  system_dark = is_dark;
}

abbrev pub other_theme : Theme → Theme
other_theme dark = light
other_theme light = dark

unfoldable pub toggle_theme : Prefs → Prefs
toggle_theme p = record p {
  theme = other_theme p.theme;
  storage = store theme_key (theme_name (other_theme p.theme)) p.storage;
}

-- The language of the document, its direction, and the storage.
pub record Document : Type 0 where
  pub lang : Locale
  pub is_rtl : Bool
  pub storage : Storage

abbrev pub is_arabic_locale : Locale → Bool
is_arabic_locale ar = true
is_arabic_locale en = false

unfoldable pub apply_locale : Locale → Document → Document
apply_locale locale d = record {
  lang = locale;
  is_rtl = is_arabic_locale locale;
  storage = store locale_key (locale_name locale) d.storage;
}

pub data Step : Prefs → Prefs → Type 0 where
  changed : (p : Prefs) (is_dark : Bool) → Step p (system_changed is_dark p)
  toggled : (p : Prefs) → Step p (toggle_theme p)
  picked :
      (p : Prefs) (d : Document) (locale : Locale)
      → Step p
          (record p { storage = (apply_locale locale (record d { storage = p.storage })).storage })

pub data Reachable (system_dark : Bool) (storage : Storage) : Prefs → Type 0 where
  start : Reachable system_dark storage (opened system_dark storage)
  next :
      {p p' : Prefs}
      → Reachable system_dark storage p
      → Step p p'
      → Reachable system_dark storage p'

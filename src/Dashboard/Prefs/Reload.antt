-- ===== src/Dashboard/Prefs/Reload.antt =====
-- A page that is opened again shows the theme and the language that it had.
use air_quality_monitoring.Base.{
  ◌≡◌, ◌≢◌, ◌⊎◌, inl, inr, refl, sym, ap, subst, ◌∙◌, Bool, Option, none, some, if◌then◌else◌,
}
use air_quality_monitoring.Base.Maps.{get-put}
use air_quality_monitoring.Base.Strings.{String, str_eq}
use air_quality_monitoring.Dashboard.Prefs.{
  Theme, light, dark, Storage, blocked, holding, theme_key, locale_key, stored, store, theme_name,
  theme_or, initial_theme, is_unset, Prefs, opened, system_changed, toggle_theme, apply_locale,
  changed, toggled, picked, Reachable, start, next, locale_name, other_theme, system_theme,
}

-- What the page stores under its theme key, or nothing.
abbrev pub IsTheme : Option String → Type 0
IsTheme saved = (saved ≡ none) ⊎ ((theme : Theme) × (saved ≡ some (theme_name theme)))

-- The storage can be used, holds a theme or none, and a page that was opened now would show the theme
-- that is shown.
record IsKept (p : Prefs) : Type 0 where
  usable : p.storage ≢ blocked
  known : IsTheme (stored theme_key p.storage)
  same : p.theme ≡ initial_theme p.system_dark p.storage

theme_or-name : (usual theme : Theme) → theme_or usual (some (theme_name theme)) ≡ theme
theme_or-name usual light = refl
theme_or-name usual dark = refl

stored-store :
    (key j value : String) (s : Storage)
    → s ≢ blocked
    → stored j (store key value s) ≡ (if str_eq key j then some value else stored j s)
unfolding stored store
stored-store key j value blocked u = absurd (u refl)
stored-store key j value (holding items) u = get-put key j value items

store-usable : (key value : String) (s : Storage) → s ≢ blocked → store key value s ≢ blocked
unfolding store
store-usable key value blocked u e = u e
store-usable key value (holding items) u e = cc

-- The system is followed exactly where a page that is opened would follow it.
followed :
    (saved : Option String) (theme : Theme) (old new : Bool)
    → IsTheme saved
    → theme ≡ theme_or (system_theme old) saved
    → (if is_unset saved then system_theme new else theme) ≡ theme_or (system_theme new) saved
followed saved theme old new (inl e) h = rw e refl
followed saved theme old new (inr (light, e)) h = rw e (h ∙ ap (theme_or (system_theme old)) e)
followed saved theme old new (inr (dark, e)) h = rw e (h ∙ ap (theme_or (system_theme old)) e)

changed-IsKept : (p : Prefs) (is_dark : Bool) → IsKept p → IsKept (system_changed is_dark p)
unfolding system_changed initial_theme
changed-IsKept p is_dark k = record {
  usable = k.usable;
  known = k.known;
  same = followed (stored theme_key p.storage) p.theme p.system_dark is_dark k.known k.same;
}

toggle-IsKept : (p : Prefs) → IsKept p → IsKept (toggle_theme p)
unfolding toggle_theme initial_theme
toggle-IsKept p k =
    let shown = other_theme p.theme in
    let saved = stored-store theme_key theme_key (theme_name shown) p.storage k.usable in
    record {
      usable = store-usable theme_key (theme_name shown) p.storage k.usable;
      known = inr (shown, saved);
      same = sym (ap (theme_or (system_theme p.system_dark)) saved ∙ theme_or-name _ shown);
    }

picked-IsKept :
    (p : Prefs) (value : String)
    → IsKept p
    → IsKept (record p { storage = store locale_key value p.storage })
unfolding initial_theme
picked-IsKept p value k =
    let saved = stored-store locale_key theme_key value p.storage k.usable in
    record {
      usable = store-usable locale_key value p.storage k.usable;
      known = subst IsTheme (sym saved) k.known;
      same = k.same ∙ ap (theme_or (system_theme p.system_dark)) (sym saved);
    }

Reachable-IsKept :
    (system_dark : Bool) (storage : Storage) (p : Prefs)
    → storage ≢ blocked
    → IsTheme (stored theme_key storage)
    → Reachable system_dark storage p
    → IsKept p
unfolding opened apply_locale
Reachable-IsKept system_dark storage p u t start = record { usable = u; known = t; same = refl }
Reachable-IsKept system_dark storage p u t (next r (changed q is_dark)) =
    changed-IsKept q is_dark (Reachable-IsKept system_dark storage q u t r)
Reachable-IsKept system_dark storage p u t (next r (toggled q)) =
    toggle-IsKept q (Reachable-IsKept system_dark storage q u t r)
Reachable-IsKept system_dark storage p u t (next r (picked q d locale)) =
    picked-IsKept q (locale_name locale) (Reachable-IsKept system_dark storage q u t r)

-- In every state that toggles, changes of the system's theme and of the language reach, in any order,
-- a page that is opened again shows the theme that is shown; where the storage can be used and, at the
-- start, holds a theme or none.
pub Reachable-initial_theme :
    (system_dark : Bool) (storage : Storage) (p : Prefs)
    → storage ≢ blocked
    → IsTheme (stored theme_key storage)
    → Reachable system_dark storage p
    → (opened p.system_dark p.storage).theme ≡ p.theme
unfolding opened
Reachable-initial_theme system_dark storage p u t r =
    sym (Reachable-IsKept system_dark storage p u t r).same

-- ===== src/Api/History/Places.antt =====
-- The history of a neighbourhood and the dashboard's group of that neighbourhood are of the same sensors.
use mathlib.Core.Path.{fun_ext}
use air_quality_monitoring.Base.{
  ℕ, ◌≡◌, ◌≢◌, ◌↔◌, ◌∙◌, refl, sym, ap, Bool, false, ◌&&◌, Option, none, some, map, arith, keep,
  if◌then◌else◌, by_cases,
}
use air_quality_monitoring.Base.Slugs.{dash_runs, strip_end, words}
use air_quality_monitoring.Base.Slugs.Laws.{strip-dash_runs_iff}
use air_quality_monitoring.Base.Strings.{String, str_eq, eq_iff}
use air_quality_monitoring.Api.Sensors.{Table, Host, SensorRow, Sensor, to_sensor_response}
use air_quality_monitoring.Api.History.{place_key, wanted, is_of_place, device_ids}
use air_quality_monitoring.Dashboard.Places.{TextPlatform, slugify}
use air_quality_monitoring.Dashboard.Services.Client.{
  ApiSensor, to_sensor, trimmed_or_null, text_or_empty,
}

-- A sensor as the dashboard reads it from the API, which gives no `installDate`.
abbrev pub served : Sensor → ApiSensor
served s = record {
  id = s.id;
  device_id = s.device_id;
  name = s.name;
  latitude = s.latitude;
  longitude = s.longitude;
  neighborhood = s.neighborhood;
  is_active = s.is_active;
  install_date = none;
}

-- What trim and toLowerCase do in every JavaScript.
pub record IsText (host : Host) : Type 0 where
  pub trim_twice : (s : String) → host.trim (host.trim s) ≡ host.trim s
  pub trim_empty : host.trim "" ≡ ""
  pub lower_empty : host.to_lower_case "" ≡ ""

module _ (host : Host) (is_word : ℕ → Bool) where
  -- Two names are one place exactly if, trimmed and in lower case, they have the same words of
  -- letters and digits, in the same order; where a dash is neither.
  pub place_key_iff :
      is_word 45 ≡ false
      → (a b : String)
      → (place_key host is_word a ≡ place_key host is_word b) ↔ (
          words is_word (host.to_lower_case (host.trim a))
          ≡ words is_word (host.to_lower_case (host.trim b)))
  unfolding place_key
  place_key_iff dash_is_other a b = strip-dash_runs_iff is_word dash_is_other _ _

module _ (host : Host) (is_word is_space : ℕ → Bool) where
  -- The browser's string methods are those of the server.
  abbrev pub browser : TextPlatform
  browser = record {
    trim = host.trim;
    to_lower_case = host.to_lower_case;
    is_word = is_word;
    is_space = is_space;
  }

  -- The group of a row on the dashboard.
  abbrev pub group_id : SensorRow → String
  group_id row = (to_sensor browser (served (to_sensor_response row))).neighborhood_id

  key_of_empty : IsText host → place_key host is_word "" ≡ ""
  unfolding place_key dash_runs
  key_of_empty text = rw (text.trim_empty, text.lower_empty, dash_runs) (unfold strip_end in refl)

  key_of_trimmed :
      IsText host → (s : String) → place_key host is_word (host.trim s) ≡ place_key host is_word s
  unfolding place_key
  key_of_trimmed text s = rw (text.trim_twice s) refl

  slugify_key :
      (s : String)
      → slugify browser s
        ≡ (if str_eq (place_key host is_word s) "" then "unassigned" else place_key host is_word s)
  unfolding slugify place_key
  slugify_key s = refl

  -- The id of the group of a place, by what the registry has for it.
  abbrev id_of_place : Option String → String
  id_of_place place = slugify browser (text_or_empty (trimmed_or_null host.trim place))

  same_place :
      IsText host
      → (place : Option String) (name : String) → place_key host is_word name ≢ ""
      → place_key host is_word name ≢ "unassigned"
      → is_of_place host is_word (some (place_key host is_word name)) place
        ≡ str_eq (id_of_place place) (slugify browser name)
  unfolding is_of_place
  same_place text none name named assigned = ground (
    arith,
    named,
    assigned,
    key_of_empty text,
    slugify_key "",
    slugify_key name,
    eq_iff (place_key host is_word name) "",
    eq_iff (place_key host is_word "") "",
    eq_iff "unassigned" (place_key host is_word name),
  )
  same_place text (some m) name named assigned =
      by_cases (str_eq (host.trim m) "")
        (λ e.
          let blank : place_key host is_word m ≡ "" =
            sym (key_of_trimmed text m)
            ∙ ap (place_key host is_word) ((eq_iff (host.trim m) "").0 e)
            ∙ key_of_empty text in
          rw (e, blank)
            (ground (
              arith,
              named,
              assigned,
              key_of_empty text,
              slugify_key "",
              slugify_key name,
              eq_iff (place_key host is_word name) "",
              eq_iff "" (place_key host is_word name),
              eq_iff (place_key host is_word "") "",
              eq_iff "unassigned" (place_key host is_word name),
            )))
        (λ e. rw e (
          ground (
            arith,
            named,
            assigned,
            e,
            key_of_trimmed text m,
            slugify_key (host.trim m),
            slugify_key name,
            eq_iff m "",
            eq_iff (host.trim m) "",
            eq_iff (place_key host is_word m) "",
            eq_iff (place_key host is_word m) (place_key host is_word name),
            eq_iff (place_key host is_word name) "",
            eq_iff "unassigned" (place_key host is_word name),
          )))

  -- The devices whose readings a history of a neighbourhood is made of are those of the active
  -- sensors that the dashboard has in its group of that neighbourhood, in the registry's order;
  -- where the name has a letter or digit and is not `unassigned`, the id of the group without one.
  pub device_ids_grouped :
      IsText host
      → (name : String) (sensors : Table) → place_key host is_word name ≢ ""
      → place_key host is_word name ≢ "unassigned"
      → device_ids host is_word (some name) sensors
        ≡ map
            (λ row. row.device_id)
            (keep (λ row. row.is_active && str_eq (group_id row) (slugify browser name)) sensors)
  unfolding device_ids wanted to_sensor to_sensor_response
  device_ids_grouped text name sensors named assigned =
      by_cases (str_eq name "")
        (λ e.
          absurd (named (ap (place_key host is_word) ((eq_iff name "").0 e) ∙ key_of_empty text)))
        (λ e. rw e (
          ap (λ (test : SensorRow → Bool). map (λ row. row.device_id) (keep test sensors))
            (fun_ext (λ row.
              ap (◌&&◌ row.is_active) (same_place text row.neighborhood name named assigned)))))

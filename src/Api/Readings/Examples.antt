-- ===== src/Api/Readings/Examples.antt =====
-- The readings of a device after three messages, and the latest of them.
use air_quality_monitoring.Base.{
  ℕ, zero, suc, ap, ◌+◌, ◌*◌, ◌<◌, ◌≡◌, refl, none, some, List, [], ◌∷◌, map, ok,
}
use air_quality_monitoring.Base.Strings.{String}
use air_quality_monitoring.Codec.Uplink.{decode_uplink, read_payload, presence}
use air_quality_monitoring.Contracts.Events.{AppEvent, reading_created}
use air_quality_monitoring.Contracts.Reading.{is_sensor_reading}
use air_quality_monitoring.Ingestion.Handler.{
  handle_uplink, reading_of, payload_of, time_or_now, rounded_rssi,
}
use air_quality_monitoring.Ingestion.Effects.{index_of}
use air_quality_monitoring.Ingestion.Invariant.{handle_all}
use air_quality_monitoring.Ingestion.State.{Env}
use air_quality_monitoring.Ingestion.Examples.{
  empty, empty-IsConsistent, message, serving, sent, uplink_on,
}
use air_quality_monitoring.Dashboard.Store.Window.{Sorted}
use air_quality_monitoring.Dashboard.Services.{Platform, get_readings}
use air_quality_monitoring.Api.Readings.{readings, latest, relay}
use air_quality_monitoring.Api.Readings.EndToEnd.{Json, to_api, served-Sorted, handle_uplink-served}

abbrev messages : List (Env × String)
messages = (serving 2 message, "a") ∷ (serving 2 message, "b") ∷ []

abbrev device : String
device = "0011223344556677"

-- Moments that are written and read back: a text of as many letters.
tally_text : ℕ → String
tally_text zero = ""
tally_text (suc t) = String.◌∷◌ "I" (tally_text t)

letters : String → ℕ
letters (String.[]) = 0
letters (String.◌∷◌ c text) = suc (letters text)

letters-tally_text : (t : ℕ) → some (letters (tally_text t)) ≡ some t
unfolding tally_text letters
letters-tally_text t = ap some (go t)
  where
    go : (t : ℕ) → letters (tally_text t) ≡ t
    go zero = refl
    go (suc t) = ap suc (go t)

abbrev json : Json
json = record { to_iso = tally_text; whole = λ x. x }

abbrev platform : Platform
platform = record { to_lower_case = λ text. text; parse_date = λ text. some (letters text) }

served-Sorted_example : Sorted (
    get_readings platform
      (map (to_api json) (readings 1767225602000 device none (handle_all messages empty).readings)))
served-Sorted_example =
    served-Sorted json platform letters-tally_text messages empty 1767225602000 device none
      empty-IsConsistent

handle_uplink-served_example :
    let s' = handle_uplink (serving 2 message) "a" empty in
    ((now : ℕ)
      → now < 1767225601500 + 7200 * 1000
      → latest now s'.latest sent.device_id ≡ ok (payload_of sent (index_of sent)))
    × ((event : AppEvent) × (before : List AppEvent) × (s'.published ≡ event ∷ before)
        × (relay (some (reading_created (payload_of sent (index_of sent)))) []
            ≡ payload_of sent (index_of sent) ∷ []))
unfolding decode_uplink presence is_sensor_reading reading_of time_or_now rounded_rssi
handle_uplink-served_example =
    handle_uplink-served (serving 2 message) "a" (uplink_on 2) (read_payload message) empty refl
      refl refl refl refl refl refl refl (λ event. "event")
      (λ text. some (reading_created (payload_of sent (index_of sent)))) refl

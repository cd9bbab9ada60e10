-- ===== src/Api/Sensors/Submissions.antt =====
-- Requests to the registry with concrete bodies.
use air_quality_monitoring.Base.{
  ℕ, zero, suc, ◌≡◌, refl, true, none, List, [], ◌∷◌, All, by_cases, length, if◌then◌else◌, throw,
}
use air_quality_monitoring.Base.Int.{pos, ◌-ℤ◌}
use air_quality_monitoring.Base.Strings.{String, str_eq}
use air_quality_monitoring.Api.Sensors.{
  new_row, create, update, retire, normalized, update_rows, updated_row,
}
use air_quality_monitoring.Api.Sensors.Requests.{
  Submission, post, patch, delete, submit, submit_all, bad_request,
}
use air_quality_monitoring.Api.Sensors.Validity.{IsValid, submit_all-IsValid}
use air_quality_monitoring.Contracts.Registration.{
  undefined, json_null, text, number, boolean, Body, Strings, invalid_field, are_hex, parse_create,
  device_id_field, text_field, number_field, optional_field, default_field, boolean_field,
  status_field, parse_update, nullable_field,
}
use air_quality_monitoring.Contracts.Registration.Bodies.{HasText}

size : String → ℕ
size String.[] = zero
size (String.◌∷◌ c s) = suc (size s)

abbrev lower : String → String
lower s = if str_eq s "00112233445566AA" then "00112233445566aa" else s

abbrev js : Strings
js = record { trim = λ s. s; to_lower_case = lower; size = size; datetime = λ s. none }

js-HasText : HasText js
js-HasText = record {
  trimmed = λ s h. refl;
  lowered = λ s h.
      by_cases (str_eq s "00112233445566AA") (λ e. rw e (unfold are_hex in refl)) (λ e. rw e h);
}

abbrev body : Body
body = record {
  device_id = text "00112233445566AA";
  name = text "Mina 1";
  description = undefined;
  latitude = number (pos 34450000);
  longitude = number (pos 35810000);
  neighborhood = text "El Mina";
  status = undefined;
  installed_at = undefined;
  is_simulated = boolean true;
}

abbrev requests : List (ℕ × String × Submission)
requests =
    (1, "u1", post body)
    ∷ (2, "u2", post (record body { latitude = number (pos 90000001) }))
    ∷ (
      3,
      "u3",
      patch "00112233445566AA" (record body { name = undefined; neighborhood = json_null }),
    )
    ∷ (4, "u4", delete "00112233445566AA")
    ∷ []

one_row : length (submit_all js requests []) ≡ 1
unfolding submit_all submit parse_create device_id_field text_field number_field optional_field
    default_field boolean_field status_field are_hex size create new_row normalized parse_update
    nullable_field update retire ◌-ℤ◌ update_rows updated_row
one_row = refl

off_the_globe :
    (submit js 2 "u2" (post (record body { latitude = number (pos 90000001) })) []).0
    ≡ throw (bad_request (invalid_field "latitude"))
unfolding submit parse_create device_id_field text_field number_field optional_field are_hex size
    ◌-ℤ◌
off_the_globe = refl

submit_all-IsValid_example : All (IsValid js) (submit_all js requests [])
submit_all-IsValid_example = submit_all-IsValid js js-HasText requests [] tt

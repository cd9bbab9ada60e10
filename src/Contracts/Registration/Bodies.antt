-- ===== src/Contracts/Registration/Bodies.antt =====
-- What holds of a body that the schemas of the registry accept.
use air_quality_monitoring.Base.{
  ℕ, ◌≤◌, ◌≡◌, true, false, Option, none, some, arith, by_cases, Result, ok, throw, ◌>>=◌,
}
use air_quality_monitoring.Base.Int.{ℤ, pos, ◌-ℤ◌, ◌≤ℤ◌}
use air_quality_monitoring.Base.Strings.{String}
use air_quality_monitoring.Api.Sensors.{
  active, CreateSensor, UpdateSensor, Patch, absent, null, value,
}
use air_quality_monitoring.Contracts.Registration.{
  Json, undefined, json_null, nested, text, number, boolean, Body, ZodError, Strings, are_hex,
  number_field, boolean_field, status_field, optional_field, nullable_field, default_field,
  text_field, device_id_field, datetime_field, name_field, description_field, neighborhood_field,
  parse_create, parse_update,
}

-- What holds of an answer, if there is one.
abbrev pub IfOk {ℓ} : {A : Type ℓ} → (A → Type 0) → Result ZodError A → Type 0
IfOk P (ok a) = P a
IfOk P (throw e) = Unit {0}

IfOk-bind {ℓ κ} :
    {A : Type ℓ} {B : Type κ} (P : A → Type 0) (Q : B → Type 0) (m : Result ZodError A)
    (f : A → Result ZodError B)
    → IfOk P m
    → ((a : A) → P a → IfOk Q (f a))
    → IfOk Q (m >>= f)
IfOk-bind P Q (ok a) f h k = k a h
IfOk-bind P Q (throw e) f h k = tt

abbrev Anything {ℓ} : {A : Type ℓ} → A → Type 0
Anything a = Unit {0}

IfOk-any {ℓ} : {A : Type ℓ} (m : Result ZodError A) → IfOk Anything m
IfOk-any (ok a) = tt
IfOk-any (throw e) = tt

abbrev pub OfOption {ℓ} : {A : Type ℓ} → (A → Type 0) → Option A → Type 0
OfOption P none = Unit {0}
OfOption P (some a) = P a

abbrev pub OfPatch {ℓ} : {A : Type ℓ} → (A → Type 0) → Patch A → Type 0
OfPatch P absent = Unit {0}
OfPatch P null = Unit {0}
OfPatch P (value a) = P a

module _ {ℓ} {A : Type ℓ} (P : A → Type 0) (parse : Json → Result ZodError A)
    (h : (field : Json) → IfOk P (parse field)) where
  some_lem : (m : Result ZodError A) → IfOk P m → IfOk (OfOption P) (m >>= λ a. ok (some a))
  some_lem (ok a) p = p
  some_lem (throw e) p = tt

  value_lem : (m : Result ZodError A) → IfOk P m → IfOk (OfPatch P) (m >>= λ a. ok (value a))
  value_lem (ok a) p = p
  value_lem (throw e) p = tt

  optional_field_lem : (field : Json) → IfOk (OfOption P) (optional_field parse field)
  unfolding optional_field
  optional_field_lem undefined = tt
  optional_field_lem json_null = some_lem (parse json_null) (h json_null)
  optional_field_lem nested = some_lem (parse nested) (h nested)
  optional_field_lem (text s) = some_lem (parse (text s)) (h (text s))
  optional_field_lem (number x) = some_lem (parse (number x)) (h (number x))
  optional_field_lem (boolean b) = some_lem (parse (boolean b)) (h (boolean b))

  nullable_field_lem : (field : Json) → IfOk (OfPatch P) (nullable_field parse field)
  unfolding nullable_field
  nullable_field_lem undefined = tt
  nullable_field_lem json_null = tt
  nullable_field_lem nested = value_lem (parse nested) (h nested)
  nullable_field_lem (text s) = value_lem (parse (text s)) (h (text s))
  nullable_field_lem (number x) = value_lem (parse (number x)) (h (number x))
  nullable_field_lem (boolean b) = value_lem (parse (boolean b)) (h (boolean b))

abbrev pub Within : ℕ → ℤ → Type 0
Within bound x = (pos 0 -ℤ pos bound ≤ℤ x) × (x ≤ℤ pos bound)

number_field_lem :
    (name : String) (bound : ℕ) (field : Json) → IfOk (Within bound) (number_field name bound field)
unfolding number_field
number_field_lem name bound (number x) = ground arith
number_field_lem name bound undefined = tt
number_field_lem name bound json_null = tt
number_field_lem name bound nested = tt
number_field_lem name bound (text s) = tt
number_field_lem name bound (boolean b) = tt

module _ (js : Strings) where
  abbrev pub Sized : ℕ → ℕ → String → Type 0
  Sized lo hi s = (lo ≤ js.size s) × (js.size s ≤ hi)

  abbrev pub IsEui : String → Type 0
  IsEui s = are_hex 16 s ≡ true

  -- What the language's string methods do to a text of hexadecimal digits.
  pub record HasText : Type 0 where
    pub trimmed : (s : String) → IsEui s → js.trim s ≡ s
    pub lowered : (s : String) → IsEui s → IsEui (js.to_lower_case s)

  text_field_lem :
      (name : String) (lo hi : ℕ) (field : Json)
      → IfOk (Sized lo hi) (text_field js name lo hi field)
  unfolding text_field
  text_field_lem name lo hi (text s) = ground arith
  text_field_lem name lo hi undefined = tt
  text_field_lem name lo hi json_null = tt
  text_field_lem name lo hi nested = tt
  text_field_lem name lo hi (number x) = tt
  text_field_lem name lo hi (boolean b) = tt

  device_id_field_lem : HasText → (field : Json) → IfOk IsEui (device_id_field js field)
  unfolding device_id_field
  device_id_field_lem laws (text s) =
      by_cases (are_hex 16 (js.trim s)) (λ e. rw e (laws.lowered (js.trim s) e)) (λ e. rw e tt)
  device_id_field_lem laws undefined = tt
  device_id_field_lem laws json_null = tt
  device_id_field_lem laws nested = tt
  device_id_field_lem laws (number x) = tt
  device_id_field_lem laws (boolean b) = tt

  pub record IsValidCreate (dto : CreateSensor) : Type 0 where
    pub eui : IsEui dto.device_id
    pub named : Sized 1 100 dto.name
    pub described : OfOption (Sized 0 500) dto.description
    pub north : Within 90000000 dto.latitude
    pub east : Within 180000000 dto.longitude
    pub placed : OfOption (Sized 1 100) dto.neighborhood

  pub record IsValidUpdate (dto : UpdateSensor) : Type 0 where
    pub named : OfOption (Sized 1 100) dto.name
    pub described : OfPatch (Sized 0 500) dto.description
    pub north : OfOption (Within 90000000) dto.latitude
    pub east : OfOption (Within 180000000) dto.longitude
    pub placed : OfPatch (Sized 1 100) dto.neighborhood

  pub parse_create-IsValidCreate :
      HasText → (body : Body) → IfOk IsValidCreate (parse_create js body)
  unfolding parse_create
  parse_create-IsValidCreate laws body =
      IfOk-bind _ _ (device_id_field js body.device_id) _ (device_id_field_lem laws body.device_id)
        (λ d eui.
          IfOk-bind _ _ (name_field js body.name) _ (text_field_lem "name" 1 100 body.name)
            (λ n named.
              IfOk-bind _ _ (optional_field (description_field js) body.description) _
                (optional_field_lem _ _ (text_field_lem "description" 0 500) body.description)
                (λ t described.
                  IfOk-bind _ _ (number_field "latitude" 90000000 body.latitude) _
                    (number_field_lem "latitude" 90000000 body.latitude)
                    (λ x north.
                      IfOk-bind _ _ (number_field "longitude" 180000000 body.longitude) _
                        (number_field_lem "longitude" 180000000 body.longitude)
                        (λ y east.
                          IfOk-bind _ _ (optional_field (neighborhood_field js) body.neighborhood) _
                            (optional_field_lem _ _ (text_field_lem "neighborhood" 1 100)
                              body.neighborhood)
                            (λ p placed.
                              IfOk-bind _ _ (default_field active status_field body.status) _
                                (IfOk-any _)
                                (λ s _.
                                  IfOk-bind _ _
                                    (optional_field (datetime_field js) body.installed_at) _
                                    (IfOk-any _)
                                    (λ i _.
                                      IfOk-bind _ _
                                        (default_field false (boolean_field "isSimulated")
                                          body.is_simulated)
                                        _ (IfOk-any _)
                                        (λ b _. record {
                                          eui = eui;
                                          named = named;
                                          described = described;
                                          north = north;
                                          east = east;
                                          placed = placed;
                                        })))))))))

  pub parse_update-IsValidUpdate : (body : Body) → IfOk IsValidUpdate (parse_update js body)
  unfolding parse_update
  parse_update-IsValidUpdate body =
      IfOk-bind _ _ (optional_field (name_field js) body.name) _
        (optional_field_lem _ _ (text_field_lem "name" 1 100) body.name)
        (λ n named.
          IfOk-bind _ _ (nullable_field (description_field js) body.description) _
            (nullable_field_lem _ _ (text_field_lem "description" 0 500) body.description)
            (λ t described.
              IfOk-bind _ _ (optional_field (number_field "latitude" 90000000) body.latitude) _
                (optional_field_lem _ _ (number_field_lem "latitude" 90000000) body.latitude)
                (λ x north.
                  IfOk-bind _ _ (optional_field (number_field "longitude" 180000000) body.longitude)
                    _
                    (optional_field_lem _ _ (number_field_lem "longitude" 180000000) body.longitude)
                    (λ y east.
                      IfOk-bind _ _ (nullable_field (neighborhood_field js) body.neighborhood) _
                        (nullable_field_lem _ _ (text_field_lem "neighborhood" 1 100)
                          body.neighborhood)
                        (λ p placed.
                          IfOk-bind _ _ (optional_field status_field body.status) _ (IfOk-any _)
                            (λ s _.
                              IfOk-bind _ _ (nullable_field (datetime_field js) body.installed_at) _
                                (IfOk-any _)
                                (λ i _.
                                  IfOk-bind _ _
                                    (optional_field (boolean_field "isSimulated") body.is_simulated)
                                    _ (IfOk-any _)
                                    (λ b _. record {
                                      named = named;
                                      described = described;
                                      north = north;
                                      east = east;
                                      placed = placed;
                                    }))))))))

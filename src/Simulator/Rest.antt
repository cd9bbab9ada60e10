-- ===== src/Simulator/Rest.antt =====
-- services/simulator/src/chirpstack.ts: the requests to ChirpStack, and what its answers hold.
use air_quality_monitoring.Base.{
  ℕ, Bool, true, false, not, ◌&&◌, ◌||◌, Option, none, some, List, [], ◌∷◌, find, if◌then◌else◌,
  ◌==◌, leb, Result, ok, throw,
}
use air_quality_monitoring.Base.Actions.{Action, lift, ◌>>=◌}
use air_quality_monitoring.Base.Strings.{String, str_eq, find?}

pub data Method : Type 0 where
  get_method post_method : Method

-- The bodies that are sent.
pub data Body : Type 0 where
  application : (name description tenant_id : String) → Body
  device_profile :
      (name tenant_id region mac_version reg_params_revision : String)
      → (supports_otaa : Bool) → (uplink_interval device_status_req_interval : ℕ) → Body
  gateway : (gateway_id name tenant_id : String) → (stats_interval : ℕ) → Body
  device :
      (dev_eui name : String)
      → (application_id device_profile_id : Option String) → (join_eui : String)
      → (skip_fcnt_check : Bool) → Body
  device_keys : (dev_eui nwk_key : String) → Body
  queue_item :
      (dev_eui : String) → (f_port : ℕ) → (confirmed : Bool) → (data_base64 : String) → Body

pub record Request : Type 0 where
  pub method : Method
  pub path : String
  pub body : Option Body

pub record Response : Type 0 where
  pub status : ℕ
  pub text : String

pub record Entry : Type 0 where
  pub id : String
  pub name : String

-- What is read of an answer: `result` of a list, `id` of what was created.
pub record Answer : Type 0 where
  pub result : Option (List Entry)
  pub id : Option String

abbrev pub empty_answer : Answer
empty_answer = record { result = none; id = none }

pub data ProvisionError : Type 0 where
  rejected : String → ProvisionError
  no_default_tenant : ProvisionError
  rest_failed : Request → Response → ProvisionError
  bad_json : String → ProvisionError

-- What is outside: the login over gRPC, `fetch`, the random bytes in hexadecimal, and the text
-- functions of the language.
pub record Network : Type 1 where
  pub World : Type 0
  pub login : String → String → String → World → Result String String × World
  pub fetch : String → String → Request → World → Result String Response × World
  pub random_hex : ℕ → World → String × World
  pub lower_case : String → String
  pub parse : String → Option Answer
  pub base64 : List ℕ → String

-- The requests that were sent are kept, the newest first.
pub record Run (W : Type 0) : Type 0 where
  pub world : W
  pub sent : List Request

abbrev includes : String → String → Bool
includes text part = elim (find? text part) [ none ↦ false | some _ ↦ true ]

-- `res.ok`.
abbrev is_ok : ℕ → Bool
is_ok status = leb 200 status && leb status 299

-- `!id` holds of a text that is missing or empty.
unfoldable pub truthy : Option String → Option String
truthy none = none
truthy (some id) = if str_eq id "" then none else some id

-- `tenants.result?.[0]?.id`
unfoldable pub first_id : Option (List Entry) → Option String
first_id none = none
first_id (some []) = none
first_id (some (e ∷ es)) = some e.id

-- `list.result?.find((x) => x.name === name)?.id`
unfoldable pub id_named : String → Option (List Entry) → Option String
id_named name none = none
id_named name (some entries) = elim (find (λ e. str_eq e.name name) entries) [
  | none ↦ none
  | some e ↦ some e.id
]

abbrev pub reading : String → Request
reading path = record { method = get_method; path = path; body = none }

abbrev pub posting : String → Body → Request
posting path body = record { method = post_method; path = path; body = some body }

module _ (net : Network) where
  abbrev pub Provisioning : Type 0 → Type 0
  Provisioning A = Action (Run net.World) ProvisionError A

  abbrev pub rejecting {ℓ} : {A : Type ℓ} → Result String A → Result ProvisionError A
  rejecting (ok a) = ok a
  rejecting (throw e) = throw (rejected e)

  unfoldable pub log_in : String → String → String → Provisioning String
  log_in addr email password s =
      let (r, w) = net.login addr email password s.world in (rejecting r, record s { world = w })

  unfoldable pub send : String → String → Request → Provisioning Response
  send base jwt request s =
      let (r, w) = net.fetch base jwt request s.world in
      (rejecting r, record { world = w; sent = request ∷ s.sent })

  -- Both a 409 and a text that says so are an answer `{}`.
  unfoldable pub answer_of : Request → Response → Result ProvisionError Answer
  answer_of request response =
      let text = net.lower_case response.text in
      if (response.status == 409)
        || (includes text "duplicate key" || includes text "already exists")
      then ok empty_answer
      else if not (is_ok response.status)
      then throw (rest_failed request response)
      else if str_eq response.text ""
      then ok empty_answer
      else elim (net.parse response.text) [
        | none ↦ throw (bad_json response.text)
        | some answer ↦ ok answer
      ]

  unfoldable pub rest : String → String → Request → Provisioning Answer
  rest base jwt request = do response ← send base jwt request; lift (answer_of request response)

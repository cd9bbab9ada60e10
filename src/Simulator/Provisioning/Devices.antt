-- ===== src/Simulator/Provisioning/Devices.antt =====
-- What a provisioning that returns has asked of the server, and the devices that it gives.
use air_quality_monitoring.Base.{
  ◌≡◌, refl, ap, Option, none, some, List, [], ◌∷◌, map, ok, throw, All,
}
use air_quality_monitoring.Base.Actions.{◌>>=◌}
use air_quality_monitoring.Base.Triples.{Triple, Triple-pure, Triple-lift, Triple-bind}
use air_quality_monitoring.Base.Maps.{get}
use air_quality_monitoring.Base.Strings.{String}
use air_quality_monitoring.Simulator.Lora.{DeviceCredentials}
use air_quality_monitoring.Simulator.Rest.{
  Request, Answer, Network, Run, Provisioning, log_in, send, answer_of, rest, reading, posting,
  no_default_tenant, gateway,
}
use air_quality_monitoring.Simulator.Provisioning.{
  DeviceFixture, Creds, CredStore, ProvisionOptions, Provisioned, gen_creds, creds_for,
  creds_or_new, credentials, device_request, keys_request, register_devices, register,
  find_application, find_profile, provision_tenant, provision_found, provision,
}

-- What the existing credentials of a device are, it keeps.
abbrev pub KeepsCreds : CredStore → DeviceCredentials → Type 0
KeepsCreds existing d = (c : Creds) → get d.dev_eui existing ≡ some c → d ≡ credentials d.dev_eui c

abbrev creds_of : DeviceCredentials → Creds
creds_of d = record { join_eui = d.join_eui; app_key = d.app_key }

-- The two requests for a device, after those in `sent`.
abbrev pub registered :
    Option String → Option String → DeviceFixture → DeviceCredentials → List Request → List Request
registered app profile f d sent =
    keys_request f (creds_of d) ∷ device_request app profile f (creds_of d) ∷ sent

abbrev pub all_registered :
    Option String
    → Option String
    → List DeviceFixture
    → List DeviceCredentials
    → List Request
    → List Request
all_registered app profile (f ∷ fs) (d ∷ ds) sent =
    all_registered app profile fs ds (registered app profile f d sent)
all_registered app profile _ _ sent = sent

module _ (net : Network) where
  -- A call that sends the requests `rs`, oldest last, where it returns.
  abbrev Sends : {A : Type 0} → (A → List Request → List Request) → Provisioning net A → Type 0
  Sends f m = (sent : List Request) → Triple (λ s. s.sent ≡ sent) m (λ a s. s.sent ≡ f a sent)

  Sends-rest :
      (base jwt : String) (request : Request)
      → Sends (λ _ sent. request ∷ sent) (rest net base jwt request)
  unfolding rest send
  Sends-rest base jwt request sent =
      Triple-bind _ (send net base jwt request) _ (λ s e a _. ap (λ l. request ∷ l) e)
        (λ response.
          Triple-lift (λ _ s. s.sent ≡ request ∷ sent) (answer_of net request response)
            (λ a _ s e. e))

  then_rest :
      {A : Type 0} (R : A → Run net.World → Type 0) (base jwt : String) (request : Request)
      (sent : List Request) (f : Answer → Provisioning net A)
      → ((answer : Answer) → Triple (λ s. s.sent ≡ request ∷ sent) (f answer) R)
      → Triple (λ s. s.sent ≡ sent) (rest net base jwt request >>= f) R
  then_rest R base jwt request sent f h =
      Triple-bind R (rest net base jwt request) f (Sends-rest base jwt request sent) h

  creds_or_new-KeepsCreds :
      (existing : CredStore) (dev_eui : String) (sent : List Request) (old : Option Creds)
      → get dev_eui existing ≡ old
      → Triple
          (λ s. s.sent ≡ sent)
          (creds_or_new net old)
          (λ c s. KeepsCreds existing (credentials dev_eui c) × (s.sent ≡ sent))
  unfolding creds_or_new gen_creds credentials
  creds_or_new-KeepsCreds existing dev_eui sent none missing s e c r = (λ d at. cc, e)
  creds_or_new-KeepsCreds existing dev_eui sent (some old) there s e c r = (λ d at. cc, e)

  module _ (opts : ProvisionOptions) (jwt : String) (app profile : Option String) where
    abbrev DevicesDone :
        List DeviceFixture → List Request → List DeviceCredentials → Run net.World → Type 0
    DevicesDone fs sent ds s =
        (map (λ d. d.dev_eui) ds ≡ map (λ f. f.device_id) fs)
        × All (KeepsCreds opts.existing_creds) ds
        × (s.sent ≡ all_registered app profile fs ds sent)

    register_devices-Triple :
        (fs : List DeviceFixture) (sent : List Request)
        → Triple
            (λ s. s.sent ≡ sent)
            (register_devices net opts jwt app profile fs)
            (DevicesDone fs sent)
    unfolding register_devices creds_for credentials
    register_devices-Triple [] sent = Triple-pure (DevicesDone [] sent) [] (λ s e. (refl, tt, e))
    register_devices-Triple (f ∷ fs) sent =
        Triple-bind {Q = Ready} Done (creds_for net opts.existing_creds f.device_id) _
          (creds_or_new-KeepsCreds opts.existing_creds f.device_id sent
            (get f.device_id opts.existing_creds) refl)
          (λ c s (kept, e).
            then_rest Done opts.rest_base jwt (device_request app profile f c) sent _
              (λ _. then_rest Done opts.rest_base jwt (keys_request f c) _ _ (λ _.
                Triple-bind {Q = Rest c} Done (register_devices net opts jwt app profile fs) _
                  (register_devices-Triple fs _)
                  (λ ds.
                    Triple-pure Done (credentials f.device_id c ∷ ds)
                      (λ s (ids, keep, e). (ap (λ l. f.device_id ∷ l) ids, (kept, keep), e)))))
              s e)
      where
        Done : List DeviceCredentials → Run net.World → Type 0
        Done = DevicesDone (f ∷ fs) sent

        Ready : Creds → Run net.World → Type 0
        Ready c s = KeepsCreds opts.existing_creds (credentials f.device_id c) × (s.sent ≡ sent)

        Rest : Creds → List DeviceCredentials → Run net.World → Type 0
        Rest c = DevicesDone fs (keys_request f c ∷ device_request app profile f c ∷ sent)

  -- A step of which only that it returns matters.
  skip :
      {A B : Type 0} (R : B → Run net.World → Type 0) (m : Provisioning net A)
      (f : A → Provisioning net B)
      → ((a : A) → Triple (λ _. Unit {0}) (f a) R)
      → Triple (λ _. Unit {0}) (m >>= f) R
  skip R m f h = Triple-bind {Q = λ _ _. Unit {0}} R m f (λ s p a e. tt) h

  module _ (opts : ProvisionOptions) where
    -- The gateway is registered, and then the devices of `p`, in the order of the fixtures.
    abbrev pub ServerKnows : Provisioned → List Request → Type 0
    ServerKnows p sent =
        (tenant : String) × (profile : Option String) × (prior : List Request) × (sent
          ≡ all_registered p.application_id profile opts.fixtures p.devices
              (posting "/api/gateways" (gateway opts.gateway_eui "AQ Gateway" tenant 30) ∷ prior))

    abbrev Outcome : Provisioned → Run net.World → Type 0
    Outcome p s =
        (map (λ d. d.dev_eui) p.devices ≡ map (λ f. f.device_id) opts.fixtures)
        × All (KeepsCreds opts.existing_creds) p.devices
        × ServerKnows p s.sent

    register-Triple :
        (jwt tenant : String) (app profile : Option String)
        → Triple (λ _. Unit {0}) (register net opts jwt tenant app profile) Outcome
    unfolding register
    register-Triple jwt tenant app profile s _ =
        then_rest Outcome opts.rest_base jwt
          (posting "/api/gateways" (gateway opts.gateway_eui "AQ Gateway" tenant 30)) s.sent _
          (λ _.
            Triple-bind {Q = DevicesDone opts jwt app profile opts.fixtures _} Outcome
              (register_devices net opts jwt app profile opts.fixtures) _
              (register_devices-Triple opts jwt app profile opts.fixtures _)
              (λ ds.
                Triple-pure Outcome
                  (record { application_id = app; gateway_eui = opts.gateway_eui; devices = ds })
                  (λ s (ids, keep, e). (ids, keep, (tenant, profile, _, e)))))
          s refl

    provision_found-Triple :
        (jwt : String) (tenant : Option String)
        → Triple (λ _. Unit {0}) (provision_found net opts jwt tenant) Outcome
    unfolding provision_found provision_tenant
    provision_found-Triple jwt none = Triple-lift Outcome (throw no_default_tenant) (λ a e. cc)
    provision_found-Triple jwt (some tenant) =
        skip Outcome (find_application net opts jwt tenant) _ (λ app.
          skip Outcome (find_profile net opts jwt tenant) _
            (λ profile. register-Triple jwt tenant app profile))

    -- Where a provisioning returns, its devices are those of the fixtures, in their order; a device with
    -- existing credentials keeps them; and the last requests sent were the one for the gateway and then,
    -- for each device in turn, the one that creates it and the one with the keys that are returned.
    pub provision-Registered :
        (run : Run net.World) (p : Provisioned)
        → (provision net opts run).0 ≡ ok p
        → Outcome p (provision net opts run).1
    unfolding provision
    provision-Registered run p e =
        skip Outcome (log_in net opts.grpc_addr opts.user opts.pass) _
          (λ jwt.
            skip Outcome (rest net opts.rest_base jwt (reading "/api/tenants?limit=10")) _
              (λ tenants. provision_found-Triple jwt _))
          run tt p e

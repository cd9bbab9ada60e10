-- ===== src/Simulator/Provisioning.antt =====
-- services/simulator/src/chirpstack.ts, and loadCreds and saveCreds of index.ts: the network server is
-- told of the application, the profile, the gateway and the devices.
pub mod Devices
pub mod Restart
mod Examples
use air_quality_monitoring.Base.{
  ℕ, ◌+◌, Bool, true, false, not, ◌&&◌, ◌||◌, Option, none, some, List, [], ◌∷◌, foldl, find,
  if◌then◌else◌, ◌==◌, leb, Result, ok, throw,
}
use air_quality_monitoring.Base.Actions.{Action, pure, lift, after, ◌>>=◌, ◌>>◌}
use air_quality_monitoring.Base.Maps.{get, put}
use air_quality_monitoring.Base.Strings.{String, str_eq, append, find?}
use air_quality_monitoring.Simulator.Rest.{
  application, device_profile, gateway, device, device_keys, queue_item, Request, no_default_tenant,
  Answer, Network, Run, truthy, first_id, id_named, reading, posting, Provisioning, log_in, rest,
}
use air_quality_monitoring.Simulator.Lora.{DeviceCredentials}

abbrev pub join_eui : String
join_eui = "0102030405060708"

pub record DeviceFixture : Type 0 where
  pub device_id : String
  pub name : String

-- `Omit<DeviceCredentials, 'devEui'>`.
pub record Creds : Type 0 where
  pub join_eui : String
  pub app_key : String

abbrev pub CredStore : Type 0
CredStore = List (String × Creds)

pub record ProvisionOptions : Type 0 where
  pub grpc_addr : String
  pub rest_base : String
  pub user : String
  pub pass : String
  pub gateway_eui : String
  pub fixtures : List DeviceFixture
  pub existing_creds : CredStore

-- A field that is `undefined` is `none`, as JSON leaves it out.
pub record Provisioned : Type 0 where
  pub application_id : Option String
  pub gateway_eui : String
  pub devices : List DeviceCredentials

unfoldable pub credentials : String → Creds → DeviceCredentials
credentials dev_eui creds = record {
  dev_eui = dev_eui;
  join_eui = creds.join_eui;
  app_key = creds.app_key;
}

unfoldable pub device_request : Option String → Option String → DeviceFixture → Creds → Request
device_request application_id profile_id f creds =
    posting "/api/devices"
      (device f.device_id f.name application_id profile_id creds.join_eui false)

unfoldable pub keys_request : DeviceFixture → Creds → Request
keys_request f creds =
    posting (append "/api/devices/" (append f.device_id "/keys"))
      (device_keys f.device_id creds.app_key)

module _ (net : Network) where
  unfoldable pub gen_creds : Provisioning net Creds
  gen_creds s =
      let (key, w) = net.random_hex 16 s.world in
      (ok (record { join_eui = join_eui; app_key = key }), record s { world = w })

  -- What is there, or what the request creates.
  unfoldable pub or_created :
      String → String → Option String → Request → Provisioning net (Option String)
  or_created base jwt (some id) request = pure (some id)
  or_created base jwt none request = do created ← rest net base jwt request; pure created.id

  unfoldable pub creds_or_new : Option Creds → Provisioning net Creds
  creds_or_new none = gen_creds
  creds_or_new (some creds) = pure creds

  unfoldable pub creds_for : CredStore → String → Provisioning net Creds
  creds_for existing dev_eui = creds_or_new (get dev_eui existing)

  module _ (opts : ProvisionOptions) (jwt : String) where
    -- The loop over the fixtures.
    unfoldable pub register_devices :
        Option String
        → Option String
        → List DeviceFixture
        → Provisioning net (List DeviceCredentials)
    register_devices application_id profile_id [] = pure []
    register_devices application_id profile_id (f ∷ fs) = do
      creds ← creds_for opts.existing_creds f.device_id
      created ← rest net opts.rest_base jwt (device_request application_id profile_id f creds)
      keyed ← rest net opts.rest_base jwt (keys_request f creds)
      devices ← register_devices application_id profile_id fs
      pure (credentials f.device_id creds ∷ devices)

    -- The application's id, found or created.
    unfoldable pub find_application : String → Provisioning net (Option String)
    find_application tenant = do
      apps ←
          rest net opts.rest_base jwt
            (reading (append "/api/applications?limit=100&tenantId=" tenant))
      or_created opts.rest_base jwt (truthy (id_named "Air Quality" apps.result)) (
          posting "/api/applications"
            (application "Air Quality" "Tripoli air-quality nodes" tenant))

    unfoldable pub find_profile : String → Provisioning net (Option String)
    find_profile tenant = do
      profiles ←
          rest net opts.rest_base jwt
            (reading (append "/api/device-profiles?limit=100&tenantId=" tenant))
      or_created opts.rest_base jwt (truthy (id_named "AQ Node OTAA" profiles.result)) (
          posting "/api/device-profiles"
            (device_profile "AQ Node OTAA" tenant "EU868" "LORAWAN_1_0_3" "A" true 30 1))

    -- From the gateway on.
    unfoldable pub register : String → Option String → Option String → Provisioning net Provisioned
    register tenant application_id profile_id = do
      made ←
          rest net opts.rest_base jwt
            (posting "/api/gateways" (gateway opts.gateway_eui "AQ Gateway" tenant 30))
      devices ← register_devices application_id profile_id opts.fixtures
      pure (record {
        application_id = application_id;
        gateway_eui = opts.gateway_eui;
        devices = devices;
      })

    -- From the applications on.
    unfoldable pub provision_tenant : String → Provisioning net Provisioned
    provision_tenant tenant = do
      application_id ← find_application tenant
      profile_id ← find_profile tenant
      register tenant application_id profile_id

    unfoldable pub provision_found : Option String → Provisioning net Provisioned
    provision_found none = lift (throw no_default_tenant)
    provision_found (some tenant) = provision_tenant tenant

  unfoldable pub provision : ProvisionOptions → Provisioning net Provisioned
  provision opts = do
    jwt ← log_in net opts.grpc_addr opts.user opts.pass
    tenants ← rest net opts.rest_base jwt (reading "/api/tenants?limit=10")
    provision_found opts jwt (truthy (first_id tenants.result))

  unfoldable pub enqueue_downlink : ProvisionOptions → String → ℕ → List ℕ → Provisioning net Answer
  enqueue_downlink opts dev_eui f_port bytes = do
    jwt ← log_in net opts.grpc_addr opts.user opts.pass
    rest net opts.rest_base jwt (
        posting (append "/api/devices/" (append dev_eui "/queue"))
          (queue_item dev_eui f_port false (net.base64 bytes)))

-- The file `devices.json`, or nothing where it cannot be read.
unfoldable pub load_creds : Option CredStore → CredStore
load_creds none = []
load_creds (some store) = store

abbrev pub put_device : CredStore → DeviceCredentials → CredStore
put_device store d = put d.dev_eui (record { join_eui = d.join_eui; app_key = d.app_key }) store

unfoldable pub save_creds : List DeviceCredentials → Option CredStore
save_creds devices = some (foldl put_device [] devices)

-- ===== src/Simulator/Provisioning/Examples.antt =====
-- A provisioning of two devices, and one after a restart with another random generator.
use air_quality_monitoring.Base.{
  ℕ, suc, ◌≡◌, refl, some, [], ◌∷◌, map, ok, All, ◌==◌, if◌then◌else◌,
}
use air_quality_monitoring.Base.Maps.{get, put}
use air_quality_monitoring.Simulator.Rest.{
  Network, Run, log_in, rest, send, answer_of, truthy, first_id, id_named,
}
use air_quality_monitoring.Simulator.Provisioning.{
  ProvisionOptions, Provisioned, provision, or_created, provision_found, provision_tenant,
  find_application, find_profile, register, register_devices, creds_for, creds_or_new, gen_creds,
  credentials, device_request, keys_request, load_creds, save_creds,
}
use air_quality_monitoring.Simulator.Provisioning.Devices.{
  KeepsCreds, ServerKnows, provision-Registered,
}
use air_quality_monitoring.Simulator.Provisioning.Restart.{restarted, provision-save_creds}

-- A server that knows one tenant and the application; the random keys depend on how many were made.
abbrev server : Network
server = record {
  World = ℕ;
  login = λ addr email password w. (ok "jwt", w);
  fetch = λ base jwt request w. (ok (record { status = 200; text = "list" }), w);
  random_hex = λ n w. (if w == 0 then "0a" else if w == 1 then "1b" else "ff", suc w);
  lower_case = λ text. text;
  parse = λ text.
      some (record {
        result = some (record { id = "t1"; name = "Air Quality" } ∷ []);
        id = some "p1";
      });
  base64 = λ bytes. "";
}

abbrev two_fixtures : ProvisionOptions
two_fixtures = record {
  grpc_addr = "chirpstack:8080";
  rest_base = "http://chirpstack-rest-api:8090";
  user = "admin";
  pass = "admin";
  gateway_eui = "ac1f09fffe000101";
  fixtures =
      record { device_id = "70b3d57ed0060001"; name = "El Mina" }
      ∷ record { device_id = "70b3d57ed0060002"; name = "Tell" }
      ∷ [];
  existing_creds = [];
}

abbrev two_devices : Provisioned
two_devices = record {
  application_id = some "t1";
  gateway_eui = "ac1f09fffe000101";
  devices =
      record { dev_eui = "70b3d57ed0060001"; join_eui = "0102030405060708"; app_key = "0a" }
      ∷ record { dev_eui = "70b3d57ed0060002"; join_eui = "0102030405060708"; app_key = "1b" }
      ∷ [];
}

abbrev first_start : Run ℕ
first_start = record { world = 0; sent = [] }

abbrev second_start : Run ℕ
second_start = record { world = 9; sent = [] }

two_devices-eq : (provision server two_fixtures first_start).0 ≡ ok two_devices
unfolding provision provision_found log_in rest send answer_of truthy first_id provision_tenant
    find_application or_created id_named find_profile register register_devices creds_for
    creds_or_new get gen_creds credentials device_request keys_request
two_devices-eq = refl

provision-Registered_example :
    (map (λ d. d.dev_eui) two_devices.devices ≡ map (λ f. f.device_id) two_fixtures.fixtures)
    × All (KeepsCreds two_fixtures.existing_creds) two_devices.devices
    × ServerKnows server two_fixtures two_devices (provision server two_fixtures first_start).1.sent
provision-Registered_example =
    provision-Registered server two_fixtures first_start two_devices two_devices-eq

again-eq :
    (provision server (restarted server two_fixtures two_devices.devices) second_start).0
    ≡ ok two_devices
unfolding provision provision_found log_in rest send answer_of truthy first_id provision_tenant
    find_application or_created id_named find_profile register register_devices creds_for
    creds_or_new get gen_creds credentials device_request keys_request put load_creds save_creds
again-eq = refl

provision-save_creds_example : two_devices.devices ≡ two_devices.devices
provision-save_creds_example =
    provision-save_creds server two_fixtures first_start second_start two_devices two_devices
      ((refl, tt), (tt, tt)) two_devices-eq again-eq

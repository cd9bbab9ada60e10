-- ===== src/Simulator/Provisioning/Restart.antt =====
-- A simulator that starts again with the credentials that it saved.
use air_quality_monitoring.Base.{
  ◌≡◌, refl, sym, ◌∙◌, subst, ap, false, some, List, [], ◌∷◌, map, foldl, ok, All, arith,
}
use air_quality_monitoring.Base.Maps.{get, get-put}
use air_quality_monitoring.Base.Strings.{String, str_eq, eq_iff, eq_refl}
use air_quality_monitoring.Simulator.Lora.{DeviceCredentials}
use air_quality_monitoring.Simulator.Rest.{Network, Run}
use air_quality_monitoring.Simulator.Provisioning.{
  CredStore, ProvisionOptions, Provisioned, put_device, save_creds, load_creds, credentials,
  provision,
}
use air_quality_monitoring.Simulator.Provisioning.Devices.{KeepsCreds, provision-Registered}

-- No text occurs twice.
abbrev pub Distinct : List String → Type 0
Distinct [] = Unit
Distinct (x ∷ xs) = All (λ y. str_eq x y ≡ false) xs × Distinct xs

abbrev ids : List DeviceCredentials → List String
ids = map (λ d. d.dev_eui)

-- Devices that are put later than another leave what it has.
get-foldl :
    (k : String) (ds : List DeviceCredentials) (m : CredStore)
    → All (λ y. str_eq k y ≡ false) (ids ds)
    → get k (foldl put_device m ds) ≡ get k m
get-foldl k [] m h = refl
get-foldl k (d ∷ ds) m (h, hs) =
    get-foldl k ds (put_device m d) hs
    ∙ (get-put d.dev_eui k _ m ∙ ground (arith, eq_iff k d.dev_eui, eq_iff d.dev_eui k))

saved :
    (ds : List DeviceCredentials) (m : CredStore)
    → Distinct (ids ds)
    → All
        (λ d.
          get d.dev_eui (foldl put_device m ds)
          ≡ some (record { join_eui = d.join_eui; app_key = d.app_key }))
        ds
saved [] m u = tt
saved (d ∷ ds) m (u, us) = (
  get-foldl d.dev_eui ds (put_device m d) u
      ∙ (get-put d.dev_eui d.dev_eui _ m ∙ rw (eq_refl d.dev_eui) refl),
  saved ds (put_device m d) us,
)

-- Devices of the same ids, the ones as they are saved and the others with the saved credentials.
same_devices :
    (store : CredStore) (ds es : List DeviceCredentials)
    → ids es ≡ ids ds
    → All
        (λ d. get d.dev_eui store ≡ some (record { join_eui = d.join_eui; app_key = d.app_key }))
        ds
    → All (KeepsCreds store) es
    → es ≡ ds
same_devices store [] [] e s k = refl
same_devices store [] (x ∷ es) e s k = cc
same_devices store (d ∷ ds) [] e s k = cc
same_devices store (d ∷ ds) (x ∷ es) e (s, ss) (k, ks) =
    let head : x.dev_eui ≡ d.dev_eui = cc in
    let tail : ids es ≡ ids ds = cc in
    let kept : x ≡ credentials x.dev_eui (record { join_eui = d.join_eui; app_key = d.app_key }) =
      k _ (ap (λ i. get i store) head ∙ s) in
    let same : x ≡ d = unfold credentials in kept ∙ ap (λ i. record d { dev_eui = i }) head in
    let rest = same_devices store ds es tail ss ks in cc

module _ (net : Network) (opts : ProvisionOptions) where
  abbrev pub restarted : List DeviceCredentials → ProvisionOptions
  restarted devices = record opts { existing_creds = load_creds (save_creds devices) }

  -- Let a provisioning give devices, for fixtures whose ids are distinct. When the simulator saves them,
  -- starts again and loads what it saved, then a provisioning that returns gives the same devices,
  -- whatever the network server and the random generator have become.
  pub provision-save_creds :
      (before after : Run net.World) (p q : Provisioned)
      → Distinct (map (λ f. f.device_id) opts.fixtures)
      → (provision net opts before).0 ≡ ok p
      → (provision net (restarted p.devices) after).0 ≡ ok q
      → q.devices ≡ p.devices
  unfolding save_creds load_creds
  provision-save_creds before after p q u e e' =
      let (is, k, s) = provision-Registered net opts before p e in
      let (is', k', s') = provision-Registered net (restarted p.devices) after q e' in
      same_devices (load_creds (save_creds p.devices)) p.devices q.devices (is' ∙ sym is)
        (saved p.devices [] (subst Distinct (sym is) u)) k'

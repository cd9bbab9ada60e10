-- ===== src/Db/Seed/Idempotent.antt =====
-- Seeding again changes nothing but the time of the update.
use air_quality_monitoring.Base.{
  ◌≡◌, ◌∙◌, refl, sym, Bool, true, false, ◌||◌, some, List, [], ◌∷◌, ◌++◌, arith, false≢true, map,
  any, All, All-append, if◌then◌else◌, by_cases,
}
use air_quality_monitoring.Base.Strings.{String, str_eq, eq_iff}
use air_quality_monitoring.Api.Sensors.{SensorRow, Table, has_device}
use air_quality_monitoring.Db.Fixtures.{SensorFixture}
use air_quality_monitoring.Db.Seed.{Defaults, inserted_row, conflict_row, upsert, seed}

-- A row without the time of its update.
abbrev pub untimed : SensorRow → SensorRow
untimed row = record row { updated_at = 0 }

-- If the row is of the fixture's device, it has the fixture's values.
abbrev pub Matches : SensorFixture → SensorRow → Type 0
Matches f row =
    has_device f.device_id row ≡ true
    → (row.name ≡ f.name)
      × (row.latitude ≡ f.latitude)
      × (row.longitude ≡ f.longitude)
      × (row.neighborhood ≡ some f.neighborhood)
      × (row.is_simulated ≡ true)

-- The device of a fixture has a row, and its rows have the fixture's values.
abbrev pub Holds : Table → SensorFixture → Type 0
Holds rows f = (any (has_device f.device_id) rows ≡ true) × All (Matches f) rows

abbrev pub Differs : SensorFixture → SensorFixture → Type 0
Differs f g = str_eq f.device_id g.device_id ≡ false

-- No two fixtures are of one device.
abbrev pub AreDistinct : List SensorFixture → Type 0
AreDistinct [] = Unit
AreDistinct (f ∷ fs) = All (Differs f) fs × AreDistinct fs

or-false : (a b : Bool) → (a || b) ≡ false → (a ≡ false) × (b ≡ false)
or-false false b e = (refl, e)
or-false true b e = absurd (false≢true (sym e))

Differs-sym : (f g : SensorFixture) → Differs f g → Differs g f
Differs-sym f g d =
    ground (arith, d, eq_iff f.device_id g.device_id, eq_iff g.device_id f.device_id)

module _ (defaults : Defaults) where
  conflict-Matches : (f : SensorFixture) (row : SensorRow) → Matches f (conflict_row defaults f row)
  unfolding conflict_row
  conflict-Matches f row h = (refl, refl, refl, refl, refl)

  -- Another fixture changes no row of this one's device.
  other-Matches :
      (f g : SensorFixture) (row : SensorRow)
      → Differs f g
      → Matches f row
      → Matches f (if has_device g.device_id row then conflict_row defaults g row else row)
  unfolding conflict_row
  other-Matches f g row d m =
      by_cases (has_device g.device_id row)
        (λ e. rw e (λ h. absurd (
          false≢true (
            sym d
            ∙ (eq_iff f.device_id g.device_id).1 (
                sym ((eq_iff row.device_id f.device_id).0 h)
                ∙ (eq_iff row.device_id g.device_id).0 e)))))
        (λ e. rw e m)

  abbrev written : SensorFixture → Table → Table
  written f = map (λ row. if has_device f.device_id row then conflict_row defaults f row else row)

  any-written :
      (f : SensorFixture) (device : String) (rows : Table)
      → any (has_device device) (written f rows) ≡ any (has_device device) rows
  unfolding conflict_row
  any-written f device [] = refl
  any-written f device (row ∷ rows) =
      by_cases (has_device f.device_id row) (λ e. rw (e, any-written f device rows) refl)
        (λ e. rw (e, any-written f device rows) refl)

  untimed-conflict :
      (f : SensorFixture) (row : SensorRow)
      → (row.name ≡ f.name)
        × (row.latitude ≡ f.latitude)
        × (row.longitude ≡ f.longitude)
        × (row.neighborhood ≡ some f.neighborhood)
        × (row.is_simulated ≡ true)
      → untimed (conflict_row defaults f row) ≡ untimed row
  unfolding conflict_row
  untimed-conflict f row (name, lat, lon, place, sim) = λ i. record row {
    name = sym name i;
    latitude = sym lat i;
    longitude = sym lon i;
    neighborhood = sym place i;
    is_simulated = sym sim i;
    updated_at = 0;
  }

  untimed-written :
      (f : SensorFixture) (rows : Table)
      → All (Matches f) rows
      → map untimed (written f rows) ≡ map untimed rows
  unfolding conflict_row
  untimed-written f [] h = refl
  untimed-written f (row ∷ rows) (h, hs) =
      by_cases (has_device f.device_id row)
        (λ e. rw (e, untimed-written f rows hs, untimed-conflict f row (h e)) refl)
        (λ e. rw (e, untimed-written f rows hs) refl)

  All-written :
      (f g : SensorFixture) (rows : Table)
      → Differs f g
      → All (Matches f) rows
      → All (Matches f) (written g rows)
  All-written f g [] d h = tt
  All-written f g (row ∷ rows) d (h, hs) = (other-Matches f g row d h, All-written f g rows d hs)

  own-written : (f : SensorFixture) (rows : Table) → All (Matches f) (written f rows)
  own-written f [] = tt
  own-written f (row ∷ rows) = (
    by_cases (has_device f.device_id row) (λ e. rw e (conflict-Matches f row))
        (λ e. rw e (λ h. absurd (false≢true (sym e ∙ h)))),
    own-written f rows,
  )

  none-Matches :
      (f : SensorFixture) (rows : Table)
      → any (has_device f.device_id) rows ≡ false
      → All (Matches f) rows
  none-Matches f [] e = tt
  none-Matches f (row ∷ rows) e =
      let (here, later) = or-false _ _ e in
      (λ h. absurd (false≢true (sym here ∙ h)), none-Matches f rows later)

  any-snoc :
      (test : SensorRow → Bool) (row : SensorRow) (rows : Table)
      → any test (rows ++ row ∷ []) ≡ (any test rows || test row)
  any-snoc test row [] = ground arith
  any-snoc test row (r ∷ rows) = ground (arith, any-snoc test row rows)

  inserted-Matches : (f : SensorFixture) → Matches f (inserted_row defaults f)
  unfolding inserted_row
  inserted-Matches f h = (refl, refl, refl, refl, refl)

  upsert-Holds : (f : SensorFixture) (rows : Table) → Holds (upsert defaults f rows) f
  unfolding upsert inserted_row
  upsert-Holds f rows =
      by_cases (any (has_device f.device_id) rows)
        (λ e. rw e (any-written f f.device_id rows ∙ e, own-written f rows))
        (λ e. rw e (
          any-snoc _ _ rows ∙ ground (arith, eq_iff f.device_id f.device_id),
          All-append (Matches f) rows _ (none-Matches f rows e) (inserted-Matches f, tt),
        ))

  upsert-keeps :
      (f g : SensorFixture) (rows : Table)
      → Differs f g
      → Holds rows f
      → Holds (upsert defaults g rows) f
  unfolding upsert inserted_row
  upsert-keeps f g rows d (there, h) =
      by_cases (any (has_device g.device_id) rows)
        (λ e. rw e (any-written g f.device_id rows ∙ there, All-written f g rows d h))
        (λ e. rw e (
          any-snoc _ _ rows ∙ ground (arith, there),
          All-append (Matches f) rows _ h
              ((λ m. absurd (false≢true (sym (Differs-sym f g d) ∙ m))), tt),
        ))

  seed-keeps :
      (f : SensorFixture) (fs : List SensorFixture) (rows : Table)
      → All (Differs f) fs
      → Holds rows f
      → Holds (seed defaults fs rows) f
  unfolding seed
  seed-keeps f [] rows d h = h
  seed-keeps f (g ∷ fs) rows (d, ds) h =
      seed-keeps f fs (upsert defaults g rows) ds (upsert-keeps f g rows d h)

  -- After a seed every fixture holds.
  seed-Holds :
      (fs : List SensorFixture) (rows : Table)
      → AreDistinct fs
      → All (Holds (seed defaults fs rows)) fs
  unfolding seed
  seed-Holds [] rows d = tt
  seed-Holds (f ∷ fs) rows (d, ds) = (
    seed-keeps f fs (upsert defaults f rows) d (upsert-Holds f rows),
    seed-Holds fs (upsert defaults f rows) ds,
  )

  others-keep :
      (f : SensorFixture) (fs : List SensorFixture) (rows : Table)
      → All (Differs f) fs
      → All (Holds rows) fs
      → All (Holds (upsert defaults f rows)) fs
  others-keep f [] rows d h = tt
  others-keep f (g ∷ fs) rows (d, ds) (h, hs) =
      (upsert-keeps g f rows (Differs-sym f g d) h, others-keep f fs rows ds hs)

  untimed-upsert :
      (f : SensorFixture) (rows : Table)
      → Holds rows f
      → map untimed (upsert defaults f rows) ≡ map untimed rows
  unfolding upsert
  untimed-upsert f rows (there, h) = rw there (untimed-written f rows h)

  untimed-seed :
      (fs : List SensorFixture) (rows : Table)
      → AreDistinct fs
      → All (Holds rows) fs
      → map untimed (seed defaults fs rows) ≡ map untimed rows
  unfolding seed
  untimed-seed [] rows d h = refl
  untimed-seed (f ∷ fs) rows (d, ds) (h, hs) =
      untimed-seed fs (upsert defaults f rows) ds (others-keep f fs rows d hs)
      ∙ untimed-upsert f rows h

-- Seeding from any table gives each fixture's device a row, with the fixture's values in all of its
-- rows; and seeding again, at another time, changes nothing but the time of the update; where no two
-- fixtures are of one device.
pub seed_idempotent :
    (first again : Defaults) (fixtures : List SensorFixture) (rows : Table)
    → AreDistinct fixtures
    → All (Holds (seed first fixtures rows)) fixtures
      × (map untimed (seed again fixtures (seed first fixtures rows))
          ≡ map untimed (seed first fixtures rows))
seed_idempotent first again fixtures rows d =
    let held = seed-Holds first fixtures rows d in
    (held, untimed-seed again fixtures (seed first fixtures rows) d held)

-- ===== src/Ingestion/Stores.antt =====
-- Laws of the single writes: the insert that skips a key that is there, and the cache.
use air_quality_monitoring.Base.{
  ◌≡◌, Bool, true, false, List, [], ◌∷◌, arith, any, All, ==_iff, by_cases,
}
use air_quality_monitoring.Base.Strings.{eq_refl}
use air_quality_monitoring.Ingestion.State.{Row, same_key, insert_row}

same_key_refl : (row : Row) → same_key row row ≡ true
same_key_refl row = ground (arith, eq_refl row.sensor_id, ==_iff row.time row.time)

-- After the insert there is a row with the key.
pub any-insert_row : (row : Row) (rows : List Row) → any (same_key row) (insert_row row rows) ≡ true
unfolding insert_row
any-insert_row row rows = ground (arith, same_key_refl row)

-- A row that was there stays.
pub any-insert_row_mono :
    (test : Row → Bool) (row : Row) (rows : List Row)
    → any test rows ≡ true
    → any test (insert_row row rows) ≡ true
unfolding insert_row
any-insert_row_mono test row rows h = ground arith

-- An insert whose key is there changes nothing.
pub insert_row_known :
    (row : Row) (rows : List Row) → any (same_key row) rows ≡ true → insert_row row rows ≡ rows
unfolding insert_row
insert_row_known row rows h = rw h

pub All-insert_row :
    (P : Row → Type 0) (row : Row) (rows : List Row)
    → P row
    → All P rows
    → All P (insert_row row rows)
All-insert_row P row rows p ps =
    by_cases (any (same_key row) rows) (λ e. unfold insert_row in rw e ps)
      (λ e. unfold insert_row in rw e (p, ps))

-- No two rows have the same key.
abbrev pub KeysUnique : List Row → Type 0
KeysUnique [] = Unit {0}
KeysUnique (row ∷ rows) = (any (same_key row) rows ≡ false) × KeysUnique rows

pub insert_row-KeysUnique :
    (row : Row) (rows : List Row) → KeysUnique rows → KeysUnique (insert_row row rows)
insert_row-KeysUnique row rows u =
    by_cases (any (same_key row) rows) (λ e. unfold insert_row in rw e u)
      (λ e. unfold insert_row in rw e (e, u))

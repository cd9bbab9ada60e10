-- ===== src/Dashboard/Export/Examples.antt =====
-- Two rows, the second of which lacks a column, with a comma and a quote in their values.
use air_quality_monitoring.Base.{◌≡◌, refl, List, [], ◌∷◌, map, if◌then◌else◌}
use air_quality_monitoring.Base.Strings.{String, str_eq}
use air_quality_monitoring.Dashboard.Export.{Text, ExportRow, keys, to_csv, csv_field, doubled}
use air_quality_monitoring.Dashboard.Export.Reader.{parse_csv}
use air_quality_monitoring.Dashboard.Export.RoundTrip.{cells, to_csv-parse_csv}

-- The names "a" and "b" in code units.
abbrev units : String → Text
units k = if str_eq k "a" then 97 ∷ [] else 98 ∷ []

abbrev columns : ExportRow
columns = ("b", 34 ∷ 65 ∷ 34 ∷ []) ∷ []

abbrev others : List ExportRow
others = (("a", 49 ∷ []) ∷ []) ∷ []

to_csv-parse_csv_example :
    parse_csv (to_csv units ((("a", 49 ∷ 44 ∷ 50 ∷ []) ∷ columns) ∷ others))
    ≡ map units ("a" ∷ keys columns)
      ∷ map (cells ("a" ∷ keys columns)) ((("a", 49 ∷ 44 ∷ 50 ∷ []) ∷ columns) ∷ others)
to_csv-parse_csv_example =
    to_csv-parse_csv units "a" (49 ∷ 44 ∷ 50 ∷ []) columns others (refl, (refl, tt))

-- `"1,2"`
quoted_field : csv_field (49 ∷ 44 ∷ 50 ∷ []) ≡ 34 ∷ 49 ∷ 44 ∷ 50 ∷ 34 ∷ []
unfolding csv_field doubled
quoted_field = refl

-- ===== src/Dashboard/Export/RoundTrip.antt =====
-- What is exported reads back.
use air_quality_monitoring.Base.{
  ◌≡◌, refl, sym, ◌∙◌, ap, false, List, [], ◌∷◌, ◌++◌, map, arith, All, any, ◌==◌, ==_iff, by_cases,
}
use air_quality_monitoring.Base.Strings.{String}
use air_quality_monitoring.Dashboard.Export.{
  Text, quote, comma, return, newline, ExportRow, is_special, doubled, csv_field, joined_rest, join,
  keys, cell, line, to_csv,
}
use air_quality_monitoring.Dashboard.Export.Reader.{
  before, inside, quoted, closed, Grid, next_field, next_record, read, parse_csv,
}

append_assoc : (xs ys zs : Text) → (xs ++ ys) ++ zs ≡ xs ++ (ys ++ zs)
append_assoc [] ys zs = refl
append_assoc (x ∷ xs) ys zs = ap (λ l. x ∷ l) (append_assoc xs ys zs)

-- At `rest` a field ends, and `g` is what follows.
record Ends (rest : Text) (g : Grid) : Type 0 where
  at_before : read before rest ≡ g
  at_inside : read inside rest ≡ g
  at_closed : read closed rest ≡ g
  no_field : g.field ≡ []

abbrev with_field : Text → Grid → Grid
with_field t g = record g { field = t }

-- A text that the reader takes as the field `t`, whatever field ends after it.
abbrev ReadsAs : Text → Text → Type 0
ReadsAs written t =
    (rest : Text) (g : Grid) → Ends rest g → read before (written ++ rest) ≡ with_field t g

same_grid : (g : Grid) → g.field ≡ [] → g ≡ with_field [] g
same_grid g e = ap (λ t. with_field t g) e

read-inside :
    (t rest : Text) (g : Grid)
    → any is_special t ≡ false
    → Ends rest g
    → read inside (t ++ rest) ≡ with_field t g
unfolding read
read-inside [] rest g p w = w.at_inside ∙ same_grid g w.no_field
read-inside (c ∷ t) rest g p w =
    let s : (c == comma) ≡ false = ground arith in
    let r : (c == return) ≡ false = ground arith in
    rw (s, r, read-inside t rest g (ground arith) w) refl

plain-ReadsAs : (t : Text) → any is_special t ≡ false → ReadsAs t t
unfolding read
plain-ReadsAs [] p rest g w = w.at_before ∙ same_grid g w.no_field
plain-ReadsAs (c ∷ t) p rest g w =
    let q : (c == quote) ≡ false = ground arith in
    let s : (c == comma) ≡ false = ground arith in
    let r : (c == return) ≡ false = ground arith in
    rw (q, s, r, read-inside t rest g (ground arith) w) refl

read-quoted :
    (t rest : Text) (g : Grid)
    → Ends rest g
    → read quoted (doubled t ++ quote ∷ rest) ≡ with_field t g
unfolding read doubled
read-quoted [] rest g w = w.at_closed ∙ same_grid g w.no_field
read-quoted (c ∷ t) rest g w =
    by_cases (c == quote)
      (λ e.
        rw (e, read-quoted t rest g w)
          (ap (λ c. with_field (c ∷ t) g) (sym ((==_iff c quote).0 e))))
      (λ e. rw (e, read-quoted t rest g w) (rw e refl))

csv_field-ReadsAs : (t : Text) → ReadsAs (csv_field t) t
unfolding csv_field
csv_field-ReadsAs t rest g w =
    by_cases (any is_special t)
      (λ e.
        unfold read in rw (e, append_assoc (doubled t) (quote ∷ []) rest) (read-quoted t rest g w))
      (λ e. rw e (plain-ReadsAs t e rest g w))

-- Where a list of written fields goes on after a comma, a field ends.
module _ (write : Text → Text) where
  rest-Ends :
      (ts : List Text) (rest : Text) (g : Grid)
      → All (λ t. ReadsAs (write t) t) ts
      → Ends rest g
      → g.fields ≡ []
      → Ends (joined_rest (comma ∷ []) (map write ts) ++ rest) (record g { fields = ts })
  unfolding read
  rest-Ends [] rest g h w n =
      let same : g ≡ record g { fields = [] } = ap (λ fs. record g { fields = fs }) n in
      record {
        at_before = w.at_before ∙ same;
        at_inside = w.at_inside ∙ same;
        at_closed = w.at_closed ∙ same;
        no_field = w.no_field;
      }
  rest-Ends (t ∷ ts) rest g (h, hs) w n =
      let tail =
        h (joined_rest (comma ∷ []) (map write ts) ++ rest) _ (rest-Ends ts rest g hs w n) in
      let after =
        ap (λ x. next_field (read before x))
          (append_assoc (write t) (joined_rest (comma ∷ []) (map write ts)) rest)
        ∙ ap next_field tail
        ∙ ap (λ f. record { field = f; fields = t ∷ ts; records = g.records }) (sym w.no_field) in
      record { at_before = after; at_inside = after; at_closed = after; no_field = w.no_field }

  read-join :
      (t : Text) (ts : List Text) (rest : Text) (g : Grid)
      → All (λ t. ReadsAs (write t) t) (t ∷ ts)
      → Ends rest g
      → g.fields ≡ []
      → read before (join (comma ∷ []) (map write (t ∷ ts)) ++ rest)
        ≡ record { field = t; fields = ts; records = g.records }
  read-join t ts rest g (h, hs) w n =
      ap (read before) (append_assoc (write t) _ rest) ∙ h _ _ (rest-Ends ts rest g hs w n)

abbrev pub cells : List String → ExportRow → List Text
cells headers row = map (cell row) headers

map-map :
    (f : Text → Text) (g : String → Text) (hs : List String)
    → map (λ h. f (g h)) hs ≡ map f (map g hs)
map-map f g [] = refl
map-map f g (h ∷ hs) = ap (λ l. f (g h) ∷ l) (map-map f g hs)

All-csv_field : (ts : List Text) → All (λ t. ReadsAs (csv_field t) t) ts
All-csv_field [] = tt
All-csv_field (t ∷ ts) = (csv_field-ReadsAs t, All-csv_field ts)

map_id : (ts : List Text) → map (λ t. t) ts ≡ ts
map_id [] = refl
map_id (t ∷ ts) = ap (λ l. t ∷ l) (map_id ts)

All-plain :
    (units : String → Text) (ks : List String)
    → All (λ k. any is_special (units k) ≡ false) ks
    → All (λ t. ReadsAs t t) (map units ks)
All-plain units [] p = tt
All-plain units (k ∷ ks) (p, ps) = (plain-ReadsAs (units k) p, All-plain units ks ps)

-- The lines of the rows after another line.
module _ (h : String) (hs : List String) where
  lines-Ends :
      (rows : List ExportRow)
      → Ends
          (joined_rest (return ∷ newline ∷ []) (map (line (h ∷ hs)) rows))
          (record { field = []; fields = []; records = map (cells (h ∷ hs)) rows })
  unfolding read line
  lines-Ends [] = record { at_before = refl; at_inside = refl; at_closed = refl; no_field = refl }
  lines-Ends (row ∷ rows) =
      let rest = joined_rest (return ∷ newline ∷ []) (map (line (h ∷ hs)) rows) in
      let read_line : read before (line (h ∷ hs) row ++ rest) ≡ record {
        field = cell row h;
        fields = map (cell row) hs;
        records = map (cells (h ∷ hs)) rows;
      } =
        ap (λ l. read before ((csv_field (cell row h) ++ joined_rest (comma ∷ []) l) ++ rest))
          (map-map csv_field (cell row) hs)
        ∙ read-join csv_field (cell row h) (map (cell row) hs) rest _
            (All-csv_field (map (cell row) (h ∷ hs))) (lines-Ends rows) refl in
      let after = ap next_record read_line in
      record { at_before = after; at_inside = after; at_closed = after; no_field = refl }

-- Rows that are exported with plain header names are a file of which a reader of RFC 4180 makes the
-- header and, for each row, the values under those headers, an empty text where a row has none,
-- whatever commas, quotes and line breaks the values hold.
pub to_csv-parse_csv :
    (units : String → Text) (h : String) (v : Text) (columns : ExportRow) (rows : List ExportRow)
    → All (λ k. any is_special (units k) ≡ false) (h ∷ keys columns)
    → let headers = h ∷ keys columns in
      parse_csv (to_csv units (((h, v) ∷ columns) ∷ rows))
      ≡ map units headers ∷ map (cells headers) (((h, v) ∷ columns) ∷ rows)
unfolding to_csv
to_csv-parse_csv units h v columns rows plain =
    let headers = h ∷ keys columns in
    let rows' = ((h, v) ∷ columns) ∷ rows in
    let rest = joined_rest (return ∷ newline ∷ []) (map (line headers) rows') in
    ap (λ g. (g.field ∷ g.fields) ∷ g.records)
      (ap (λ l. read before ((units h ++ joined_rest (comma ∷ []) l) ++ rest))
          (sym (map_id (map units (keys columns))))
        ∙ read-join (λ t. t) (units h) (map units (keys columns)) rest _
            (All-plain units headers plain) (lines-Ends h (keys columns) rows') refl)

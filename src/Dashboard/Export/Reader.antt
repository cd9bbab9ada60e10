-- ===== src/Dashboard/Export/Reader.antt =====
-- A reader of CSV after RFC 4180, as an independent description of what a file says.
use air_quality_monitoring.Base.{ℕ, List, [], ◌∷◌, ◌==◌, if◌then◌else◌}
use air_quality_monitoring.Dashboard.Export.{Text, quote, comma, return, newline}

-- Where the reader is: before a field, in one, in a quoted one, after its closing quote or the first
-- of two, or after a carriage return.
pub data Mode : Type 0 where
  before inside quoted closed returned : Mode

-- What the rest of a file says: the rest of the field, of its record, and the records after it.
pub record Grid : Type 0 where
  pub field : Text
  pub fields : List Text
  pub records : List (List Text)

abbrev pub no_more : Grid
no_more = record { field = []; fields = []; records = [] }

abbrev pub push : ℕ → Grid → Grid
push c g = record g { field = c ∷ g.field }

abbrev pub next_field : Grid → Grid
next_field g = record { field = []; fields = g.field ∷ g.fields; records = g.records }

abbrev pub next_record : Grid → Grid
next_record g = record { field = []; fields = []; records = (g.field ∷ g.fields) ∷ g.records }

-- A character outside of quotes, by what follows it in each mode.
abbrev pub unquoted : ℕ → Grid → Grid → Grid → Grid
unquoted c at_field at_return at_inside =
    if c == comma then next_field at_field else if c == return then at_return else push c at_inside

unfoldable pub read : Mode → Text → Grid
read mode [] = no_more
read before (c ∷ cs) =
    let q = read quoted cs in
    let p = unquoted c (read before cs) (read returned cs) (read inside cs) in
    if c == quote then q else p
read inside (c ∷ cs) = unquoted c (read before cs) (read returned cs) (read inside cs)
read quoted (c ∷ cs) =
    let k = read closed cs in let q = read quoted cs in if c == quote then k else push c q
read closed (c ∷ cs) =
    let q = read quoted cs in
    let p = unquoted c (read before cs) (read returned cs) (read inside cs) in
    if c == quote then push quote q else p
read returned (c ∷ cs) =
    let n = read before cs in
    let i = read inside cs in if c == newline then next_record n else push return (push c i)

abbrev pub parse_csv : Text → List (List Text)
parse_csv text = let g = read before text in (g.field ∷ g.fields) ∷ g.records

-- ===== src/Base/Slugs.antt =====
-- The two replacements that make a place name a key, `replace(/[^\p{L}\p{N}]+/gu, '-')` and
-- `replace(/^-|-$/g, '')`, and the words that such a key keeps. Which code points are letters or
-- digits is Unicode's.
pub mod Laws
use Prim.Native.Char.{Char, code}
use air_quality_monitoring.Base.{ℕ, Bool, true, false, List, [], ◌∷◌, ◌==◌, if◌then◌else◌}
use air_quality_monitoring.Base.Strings.{String}

abbrev pub dash : Char
dash = "-"

abbrev pub is_dash : Char → Bool
is_dash c = code c == 45

module _ (is_word : ℕ → Bool) where
  -- Each run of other characters becomes one dash; `in_run` says that the run has begun.
  unfoldable pub dash_runs : Bool → String → String
  dash_runs in_run String.[] = String.[]
  dash_runs in_run (String.◌∷◌ c s) =
      let word = String.◌∷◌ c (dash_runs false s) in
      let run = dash_runs true s in
      if is_word (code c) then word else if in_run then run else String.◌∷◌ dash run

  -- A text as the letters and digits that it begins with, which may be none, and its further words.
  abbrev pub with_word : String → List String → List String
  with_word String.[] ws = ws
  with_word (String.◌∷◌ c s) ws = String.◌∷◌ c s ∷ ws

  unfoldable pub segments : String → String × List String
  segments String.[] = (String.[], [])
  segments (String.◌∷◌ c s) =
      let (w, ws) = segments s in
      if is_word (code c) then (String.◌∷◌ c w, ws) else (String.[], with_word w ws)

  -- The maximal runs of letters and digits.
  abbrev pub words : String → List String
  words s = let (w, ws) = segments s in with_word w ws

abbrev pub strip_start : String → String
strip_start String.[] = String.[]
strip_start (String.◌∷◌ c s) = if is_dash c then s else String.◌∷◌ c s

unfoldable pub strip_end : String → String
strip_end String.[] = String.[]
strip_end (String.◌∷◌ c String.[]) = if is_dash c then String.[] else String.◌∷◌ c String.[]
strip_end (String.◌∷◌ c (String.◌∷◌ d s)) = String.◌∷◌ c (strip_end (String.◌∷◌ d s))

-- `text.replace(/^-|-$/g, '')`
abbrev pub strip_dashes : String → String
strip_dashes s = strip_start (strip_end s)

abbrev pub followed : String → String → String
followed String.[] t = t
followed (String.◌∷◌ c s) t = String.◌∷◌ c (followed s t)

-- Each word after a dash.
unfoldable pub dashed : List String → String
dashed [] = String.[]
dashed (w ∷ ws) = String.◌∷◌ dash (followed w (dashed ws))

-- The words with dashes between them.
abbrev pub joined : List String → String
joined [] = String.[]
joined (w ∷ ws) = followed w (dashed ws)

-- ===== src/Dashboard/Places/Examples.antt =====
-- Spellings of place names, with ASCII letters, digits and spaces for Unicode's.
use air_quality_monitoring.Base.{ℕ, ◌≡◌, refl, ◌&&◌, ◌||◌, none, some, leb, ◌==◌}
use air_quality_monitoring.Base.Maps.{get}
use air_quality_monitoring.Base.Slugs.{dash_runs, strip_end}
use air_quality_monitoring.Dashboard.Places.{TextPlatform, slugify, normalise, arabic_place_name}

-- The names are in lower case already.
abbrev ascii : TextPlatform
ascii = record {
  trim = λ s. s;
  to_lower_case = λ s. s;
  is_word = λ (c : ℕ). (leb b'a' c && leb c b'z') || (leb b'0' c && leb c b'9');
  is_space = λ (c : ℕ). c == b' ';
}

slug_of_spaces : slugify ascii "  bab al - tabbaneh!" ≡ "bab-al-tabbaneh"
unfolding slugify dash_runs strip_end
slug_of_spaces = refl

slug_of_nothing : slugify ascii "--" ≡ "unassigned"
unfolding slugify dash_runs strip_end
slug_of_nothing = refl

normal_forms : normalise ascii "el-mina " ≡ "mina"
unfolding normalise
normal_forms = refl

inner_article : normalise ascii "bab al - tabbaneh" ≡ "babtabbaneh"
unfolding normalise
inner_article = refl

-- No word begins at the `el` of `bahel`.
no_article : normalise ascii "bahel x" ≡ "bahelx"
unfolding normalise
no_article = refl

name_of_tell : arabic_place_name ascii "al el tell" ≡ some "\u{627}\u{644}\u{62a}\u{644}"
unfolding arabic_place_name normalise get
name_of_tell = refl

name_of_unknown : arabic_place_name ascii "elsewhere" ≡ none
unfolding arabic_place_name normalise get
name_of_unknown = refl

-- ===== src/Dashboard/Places.antt =====
-- Place names: slugify of apps/dashboard/src/lib/format.ts and the Arabic names of lib/places.ts.
-- trim, toLowerCase and the classes of characters are the platform's.
mod Examples
use Prim.Native.Char.{Char, code}
use air_quality_monitoring.Base.{
  ℕ, Bool, true, false, not, ◌&&◌, ◌||◌, Option, none, List, [], ◌∷◌, leb, ◌==◌, if◌then◌else◌,
}
use air_quality_monitoring.Base.Maps.{get}
use air_quality_monitoring.Base.Slugs.{dash_runs, strip_dashes}
use air_quality_monitoring.Base.Strings.{String, str_eq}

-- `is_word` is [\p{L}\p{N}], `is_space` is \s.
pub record TextPlatform : Type 0 where
  pub trim : String → String
  pub to_lower_case : String → String
  pub is_word : ℕ → Bool
  pub is_space : ℕ → Bool

-- \w, without the u flag
abbrev is_identifier : ℕ → Bool
is_identifier c =
    (leb b'a' c && leb c b'z')
    || (leb b'A' c && leb c b'Z')
    || (leb b'0' c && leb c b'9')
    || c == b'_'

-- Where the search for the next article is: after a character of a word, after another one, or in
-- the spaces and dashes after an article.
pub data Position : Type 0 where
  in_word at_boundary after_article : Position

module _ (platform : TextPlatform) where
  unfoldable pub slugify : String → String
  slugify text =
      let key =
        strip_dashes
          (dash_runs platform.is_word false (platform.to_lower_case (platform.trim text))) in
      if str_eq key "" then "unassigned" else key

  -- [\s-]
  abbrev is_gap : Char → Bool
  is_gap c = platform.is_space (code c) || code c == b'-'

  -- A character that belongs to the match of an article.
  abbrev is_skipped : Position → Char → Bool
  is_skipped after_article c = is_gap c
  is_skipped _ c = false

  abbrev is_open : Position → Bool
  is_open in_word = false
  is_open _ = true

  -- `\b(al|el)[\s-]` at this place
  abbrev is_article : Position → Char → Char → Char → Bool
  is_article p c d g = is_open p && (code c == b'a' || code c == b'e') && code d == b'l' && is_gap g

  abbrev position_after : Position → Char → Position
  position_after p c =
      if is_skipped p c
      then after_article
      else if is_identifier (code c)
      then in_word
      else at_boundary

  -- `replace(/\b(al|el)[\s-]+/g, '')`
  unfoldable pub without_articles : Position → String → String
  without_articles p String.[] = String.[]
  without_articles p (String.◌∷◌ c String.[]) =
      if is_skipped p c then String.[] else String.◌∷◌ c String.[]
  without_articles p (String.◌∷◌ c (String.◌∷◌ d String.[])) =
      let rest = without_articles (position_after p c) (String.◌∷◌ d String.[]) in
      if is_skipped p c then rest else String.◌∷◌ c rest
  without_articles p (String.◌∷◌ c (String.◌∷◌ d (String.◌∷◌ g s))) =
      let rest = without_articles (position_after p c) (String.◌∷◌ d (String.◌∷◌ g s)) in
      let after = without_articles after_article s in
      if is_skipped p c then rest else if is_article p c d g then after else String.◌∷◌ c rest

  -- `replace(/[^a-z]/g, '')`
  unfoldable pub only_letters : String → String
  only_letters String.[] = String.[]
  only_letters (String.◌∷◌ c s) =
      let rest = only_letters s in
      if leb b'a' (code c) && leb (code c) b'z' then String.◌∷◌ c rest else rest

  unfoldable pub normalise : String → String
  unfolding without_articles only_letters
  normalise name = only_letters (without_articles at_boundary (platform.to_lower_case name))

-- ARABIC_NAMES
abbrev pub arabic_names : List (String × String)
arabic_names =
    ("mina", "\u{627}\u{644}\u{645}\u{64a}\u{646}\u{627}\u{621}")
    ∷ ("tell", "\u{627}\u{644}\u{62a}\u{644}")
    ∷ ("tal", "\u{627}\u{644}\u{62a}\u{644}")
    ∷ ("abousamra", "\u{623}\u{628}\u{648} \u{633}\u{645}\u{631}\u{627}")
    ∷ ("abusamra", "\u{623}\u{628}\u{648} \u{633}\u{645}\u{631}\u{627}")
    ∷ ("zahrieh", "\u{627}\u{644}\u{632}\u{627}\u{647}\u{631}\u{64a}\u{629}")
    ∷ ("zahriyeh", "\u{627}\u{644}\u{632}\u{627}\u{647}\u{631}\u{64a}\u{629}")
    ∷ ("qobbeh", "\u{627}\u{644}\u{642}\u{628}\u{629}")
    ∷ ("kobbeh", "\u{627}\u{644}\u{642}\u{628}\u{629}")
    ∷ ("babaltabbaneh", "\u{628}\u{627}\u{628} \u{627}\u{644}\u{62a}\u{628}\u{627}\u{646}\u{629}")
    ∷ ("babtabbaneh", "\u{628}\u{627}\u{628} \u{627}\u{644}\u{62a}\u{628}\u{627}\u{646}\u{629}")
    ∷ ("tabbaneh", "\u{627}\u{644}\u{62a}\u{628}\u{627}\u{646}\u{629}")
    ∷ ("downtown", "\u{648}\u{633}\u{637} \u{627}\u{644}\u{645}\u{62f}\u{64a}\u{646}\u{629}")
    ∷ ("azmi", "\u{639}\u{632}\u{645}\u{64a}")
    ∷ ("bahsas", "\u{627}\u{644}\u{628}\u{62d}\u{635}\u{627}\u{635}")
    ∷ ("portarea", "\u{645}\u{646}\u{637}\u{642}\u{629} \u{627}\u{644}\u{645}\u{631}\u{641}\u{623}")
    ∷ ("port", "\u{627}\u{644}\u{645}\u{631}\u{641}\u{623}")
    ∷ ("dammwfarz", "\u{627}\u{644}\u{636}\u{645} \u{648}\u{627}\u{644}\u{641}\u{631}\u{632}")
    ∷ ("dammwalfarz", "\u{627}\u{644}\u{636}\u{645} \u{648}\u{627}\u{644}\u{641}\u{631}\u{632}")
    ∷ ("jabalmohsen", "\u{62c}\u{628}\u{644} \u{645}\u{62d}\u{633}\u{646}")
    ∷ ("mankoubin", "\u{627}\u{644}\u{645}\u{646}\u{643}\u{648}\u{628}\u{64a}\u{646}")
    ∷ ("beddawi", "\u{627}\u{644}\u{628}\u{62f}\u{627}\u{648}\u{64a}")
    ∷ ("qalamoun", "\u{627}\u{644}\u{642}\u{644}\u{645}\u{648}\u{646}")
    ∷ ("maarad", "\u{627}\u{644}\u{645}\u{639}\u{631}\u{636}")
    ∷ ("nejmeh", "\u{627}\u{644}\u{646}\u{62c}\u{645}\u{629}")
    ∷ ("souk", "\u{627}\u{644}\u{623}\u{633}\u{648}\u{627}\u{642}")
    ∷ (
      "oldcity",
      "\u{627}\u{644}\u{645}\u{62f}\u{64a}\u{646}\u{629} \u{627}\u{644}\u{642}\u{62f}\u{64a}\u{645}\u{629}",
    )
    ∷ []

-- The own entries of the table: what an object inherits, such as `constructor`, is left out.
unfoldable pub arabic_place_name : TextPlatform → String → Option String
arabic_place_name platform name = get (normalise platform name) arabic_names

-- ===== src/Base/Slugs/Laws.antt =====
-- A key says exactly which words a text has, in their order.
use Prim.Native.Char.{Char, code}
use air_quality_monitoring.Base.{
  ℕ, ◌≡◌, ◌∙◌, refl, sym, ap, ◌↔◌, ◌⊎◌, inl, inr, Bool, true, false, List, [], ◌∷◌, arith,
  Bool-cases, if◌then◌else◌,
}
use air_quality_monitoring.Base.Strings.{String}
use air_quality_monitoring.Base.Slugs.{
  dash, is_dash, dash_runs, with_word, segments, words, strip_start, strip_end, strip_dashes,
  followed, dashed, joined,
}

module _ (is_word : ℕ → Bool) (dash_is_other : is_word 45 ≡ false) where
  word-not_dash : (c : Char) → is_word (code c) ≡ true → is_dash c ≡ false
  word-not_dash c w = ground (arith, w, dash_is_other)

  strip_end_word :
      (c : Char) (s : String)
      → is_word (code c) ≡ true
      → strip_end (String.◌∷◌ c s) ≡ String.◌∷◌ c (strip_end s)
  unfolding strip_end
  strip_end_word c String.[] w = rw (word-not_dash c w) refl
  strip_end_word c (String.◌∷◌ d s) w = refl

  segments_word :
      (c : Char) (s : String)
      → is_word (code c) ≡ true
      → segments is_word (String.◌∷◌ c s)
        ≡ (String.◌∷◌ c (segments is_word s).0, (segments is_word s).1)
  unfolding segments
  segments_word c s w = rw w refl

  segments_other :
      (c : Char) (s : String)
      → is_word (code c) ≡ false
      → segments is_word (String.◌∷◌ c s) ≡ (String.[], words is_word s)
  unfolding segments
  segments_other c s o = rw o refl

  dash_runs_word :
      (r : Bool) (c : Char) (s : String)
      → is_word (code c) ≡ true
      → dash_runs is_word r (String.◌∷◌ c s) ≡ String.◌∷◌ c (dash_runs is_word false s)
  unfolding dash_runs
  dash_runs_word r c s w = rw w refl

  dash_runs_other :
      (r : Bool) (c : Char) (s : String)
      → is_word (code c) ≡ false
      → dash_runs is_word r (String.◌∷◌ c s)
        ≡ (if r then dash_runs is_word true s else String.◌∷◌ dash (dash_runs is_word true s))
  unfolding dash_runs
  dash_runs_other r c s o = rw o refl

  abbrev with_none : List String → String × List String
  with_none ws = (String.[], ws)

  -- A run that has begun leaves nothing of a text without words, and something of any other.
  after_run :
      (s : String)
      → ((words is_word s ≡ []) × (dash_runs is_word true s ≡ String.[]))
        ⊎ ((v : String) × (vs : List String) × (d : Char) × (t : String) × (words is_word s
              ≡ v ∷ vs)
            × (dash_runs is_word true s ≡ String.◌∷◌ d t))
  unfolding segments dash_runs
  after_run String.[] = inl (refl, refl)
  after_run (String.◌∷◌ c s) = elim (Bool-cases (is_word (code c))) [
    | inl w ↦ inr (
      String.◌∷◌ c (segments is_word s).0,
      (segments is_word s).1,
      c,
      dash_runs is_word false s,
      rw w refl,
      rw w refl,
    )
    | inr o ↦ rw (o, segments, dash_runs) (after_run s)
  ]

  dash_end :
      (x : String) (ws : List String)
      → ((ws ≡ []) × (x ≡ String.[]))
        ⊎ ((v : String) × (vs : List String) × (d : Char) × (t : String) × (ws ≡ v ∷ vs)
            × (x ≡ String.◌∷◌ d t))
      → strip_end x ≡ joined ws
      → strip_end (String.◌∷◌ dash x) ≡ dashed ws
  unfolding strip_end dashed
  dash_end x ws (inl (none, empty)) e = rw (none, empty) refl
  dash_end x ws (inr (v, vs, d, t, some, filled)) e =
      rw (some, filled) (ap (String.◌∷◌ dash) (sym (ap strip_end filled) ∙ e ∙ ap joined some))

  stripped :
      (s : String)
      → (strip_end (dash_runs is_word false s)
          ≡ followed (segments is_word s).0 (dashed (segments is_word s).1))
        × (strip_end (dash_runs is_word true s) ≡ joined (words is_word s))
  stripped String.[] = (
    unfold segments dash_runs strip_end dashed in refl,
    unfold segments dash_runs strip_end dashed in refl,
  )
  stripped (String.◌∷◌ c s) = elim (Bool-cases (is_word (code c))) [
    | inl w ↦ (
      rw (dash_runs_word false c s w, segments_word c s w)
          (strip_end_word c _ w ∙ ap (String.◌∷◌ c) (stripped s).0),
      rw (dash_runs_word true c s w, segments_word c s w)
          (strip_end_word c _ w ∙ ap (String.◌∷◌ c) (stripped s).0),
    )
    | inr o ↦ (
      rw (dash_runs_other false c s o, segments_other c s o)
          (dash_end _ (words is_word s) (after_run s) (stripped s).1),
      rw (dash_runs_other true c s o, segments_other c s o) (stripped s).1,
    )
  ]

  strip_start-dashed : (ws : List String) → strip_start (dashed ws) ≡ joined ws
  unfolding dashed
  strip_start-dashed [] = refl
  strip_start-dashed (w ∷ ws) = refl

  -- The key of a text is its words with dashes between them.
  pub strip-dash_runs :
      (s : String) → strip_dashes (dash_runs is_word false s) ≡ joined (words is_word s)
  strip-dash_runs String.[] = unfold segments dash_runs strip_end dashed in refl
  strip-dash_runs (String.◌∷◌ c s) = elim (Bool-cases (is_word (code c))) [
    | inl w ↦
        rw
          (
            dash_runs_word false c s w,
            strip_end_word c (dash_runs is_word false s) w,
            word-not_dash c w,
            segments_word c s w,
          )
          (ap (String.◌∷◌ c) (stripped s).0)
    | inr o ↦
        rw
          (
            dash_runs_other false c s o,
            segments_other c s o,
            dash_end _ (words is_word s) (after_run s) (stripped s).1,
          )
          (strip_start-dashed (words is_word s))
  ]

  -- Runs and dashes change no word.
  segments-dash_runs :
      (s : String)
      → (segments is_word (dash_runs is_word false s) ≡ segments is_word s)
        × (words is_word (dash_runs is_word true s) ≡ words is_word s)
  segments-dash_runs String.[] = (unfold dash_runs in refl, unfold dash_runs in refl)
  segments-dash_runs (String.◌∷◌ c s) = elim (Bool-cases (is_word (code c))) [
    | inl w ↦
        let ih = (segments-dash_runs s).0 in
        (
          rw
              (
                dash_runs_word false c s w,
                segments_word c (dash_runs is_word false s) w,
                segments_word c s w,
                ih,
              )
              refl,
          rw
              (
                dash_runs_word true c s w,
                segments_word c (dash_runs is_word false s) w,
                segments_word c s w,
                ih,
              )
              refl,
        )
    | inr o ↦
        let ih = (segments-dash_runs s).1 in
        (
          rw
              (
                dash_runs_other false c s o,
                segments_other dash _ dash_is_other,
                segments_other c s o,
              )
              (ap with_none ih),
          rw (dash_runs_other true c s o, segments_other c s o) ih,
        )
  ]

  segments_cons :
      (c : Char) (s t : String)
      → segments is_word s ≡ segments is_word t
      → segments is_word (String.◌∷◌ c s) ≡ segments is_word (String.◌∷◌ c t)
  unfolding segments
  segments_cons c s t e = rw e refl

  segments-strip_end : (s : String) → segments is_word (strip_end s) ≡ segments is_word s
  unfolding strip_end segments
  segments-strip_end String.[] = refl
  segments-strip_end (String.◌∷◌ c String.[]) = elim (Bool-cases (is_word (code c))) [
    | inl w ↦ rw (strip_end_word c String.[] w) refl
    | inr o ↦ elim (Bool-cases (is_dash c)) [
      | inl d ↦ rw (d, strip_end, segments_other c String.[] o) refl
      | inr d ↦ rw (d, strip_end) refl
    ]
  ]
  segments-strip_end (String.◌∷◌ c (String.◌∷◌ d s)) =
      segments_cons c _ (String.◌∷◌ d s) (segments-strip_end (String.◌∷◌ d s))

  words-strip_start : (s : String) → words is_word (strip_start s) ≡ words is_word s
  words-strip_start String.[] = refl
  words-strip_start (String.◌∷◌ c s) = elim (Bool-cases (is_word (code c))) [
    | inl w ↦ rw (word-not_dash c w) refl
    | inr o ↦ elim (Bool-cases (is_dash c)) [
      | inl d ↦ rw d (
          sym (ap (λ (q : String × List String). with_word is_word q.0 q.1) (segments_other c s o)))
      | inr d ↦ rw d refl
    ]
  ]

  words-strip-dash_runs :
      (s : String) → words is_word (strip_dashes (dash_runs is_word false s)) ≡ words is_word s
  words-strip-dash_runs s =
      words-strip_start (strip_end (dash_runs is_word false s))
      ∙ ap (λ (q : String × List String). with_word is_word q.0 q.1)
          (segments-strip_end (dash_runs is_word false s) ∙ (segments-dash_runs s).0)

  -- Two texts have one key exactly if they have the same words.
  pub strip-dash_runs_iff :
      (s t : String)
      → (strip_dashes (dash_runs is_word false s) ≡ strip_dashes (dash_runs is_word false t))
        ↔ (words is_word s ≡ words is_word t)
  strip-dash_runs_iff s t = (
    λ e. sym (words-strip-dash_runs s) ∙ ap (words is_word) e ∙ words-strip-dash_runs t,
    λ e. strip-dash_runs s ∙ ap joined e ∙ sym (strip-dash_runs t),
  )

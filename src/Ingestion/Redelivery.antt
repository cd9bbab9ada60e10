-- ===== src/Ingestion/Redelivery.antt =====
-- A message that is delivered more than once.
use air_quality_monitoring.Base.{
  ℕ, sym, ◌≡◌, refl, ◌∙◌, Bool, true, false, Option, none, some, List, [], ◌∷◌, arith,
  if◌then◌else◌, any, Option-cases, Result-cases, inl, inr,
}
use air_quality_monitoring.Base.Strings.{String, str_eq}
use air_quality_monitoring.Codec.Uplink.{DecodedPayload, decode_uplink}
use air_quality_monitoring.Contracts.Events.{ChirpStackUplink}
use air_quality_monitoring.Ingestion.State.{Row, State, Env, same_key}
use air_quality_monitoring.Ingestion.Handler.{reading_of, handle_uplink, time_or_now}
use air_quality_monitoring.Ingestion.Stores.{any-insert_row}
use air_quality_monitoring.Ingestion.Invariant.{handle_all}
use air_quality_monitoring.Ingestion.Delivery.{
  row_of_uplink, planned, row_plan, any-insert_if, insert_if_known,
}

any-handle_uplink :
    (test : Row → Bool) (env : Env) (raw : String) (s : State)
    → any test s.readings ≡ true
    → any test (handle_uplink env raw s).readings ≡ true
any-handle_uplink test env raw s h =
    let (o, plan, same) = row_plan env raw in rw (plan s) (any-insert_if test o s.readings h)

any-handle_all :
    (test : Row → Bool) (messages : List (Env × String)) (s : State)
    → any test s.readings ≡ true
    → any test (handle_all messages s).readings ≡ true
unfolding handle_all
any-handle_all test [] s h = h
any-handle_all test ((env, raw) ∷ rest) s h =
    any-handle_all test rest (handle_uplink env raw s) (any-handle_uplink test env raw s h)

-- A moment at which a message is handled: the clocks and which servers answer.
pub record Moment : Type 0 where
  pub now : ℕ
  pub redis_now : ℕ
  pub database_answers : Bool
  pub set_answers : Bool
  pub publish_answers : Bool

-- The environment at another moment; what a text reads as stays.
abbrev pub at_moment : Moment → Env → Env
at_moment m env = record env {
  now = m.now;
  redis_now = m.redis_now;
  database_answers = m.database_answers;
  set_answers = m.set_answers;
  publish_answers = m.publish_answers;
}

-- The envelope, if it can be read, has a time that is a date.
abbrev pub HasTime : Env → String → Type 0
HasTime env raw =
    (u : ChirpStackUplink)
    → env.parse_envelope raw ≡ some u
    → (text : String) × (ms : ℕ) × (u.time ≡ some text)
      × (str_eq text "" ≡ false)
      × (env.parse_date text ≡ some ms)

reading_of-at_moment :
    (m : Moment) (env : Env) (u : ChirpStackUplink) (d : DecodedPayload) (text : String) (ms : ℕ)
    → u.time ≡ some text
    → str_eq text "" ≡ false
    → env.parse_date text ≡ some ms
    → reading_of (at_moment m env) u d ≡ reading_of env u d
unfolding reading_of time_or_now
reading_of-at_moment m env u d text ms t n p = rw (t, n, p) refl

planned-at_moment :
    (m : Moment) (env : Env) (raw : String)
    → HasTime env raw
    → planned (at_moment m env) raw ≡ planned env raw
unfolding planned row_of_uplink
planned-at_moment m env raw h = elim (Option-cases (env.parse_envelope raw)) [
  | inl unread ↦ rw (planned, unread) refl
  | inr (u, read) ↦
      let (text, ms, t, n, p) = h u read in
      elim (Result-cases (decode_uplink (env.from_base64 u.data_base64))) [
        | inl (d, dec) ↦
            rw (planned, read, row_of_uplink, dec, reading_of-at_moment m env u d text ms t n p)
              refl
        | inr (e, dec) ↦ rw (planned, read, row_of_uplink, dec) refl
      ]
]

if_true : (b : Bool) (o : Option Row) → b ≡ true → (if b then o else none) ≡ o
if_true b o e = ground arith

some_if :
    (b : Bool) (o : Option Row) (row : Row) → (if b then o else none) ≡ some row → o ≡ some row
some_if true o row e = e
some_if false o row e = absurd (ground arith)

-- A message whose envelope has a time that can be read, and whose row the database was there to take, adds
-- no row when it is delivered again: after any other messages, at any other time, and whichever servers
-- answer then. A message without such a time is given the time of each delivery.
pub handle_uplink_redelivered :
    (env : Env) (raw : String) (between : List (Env × String)) (again : Moment) (s : State)
    → HasTime env raw
    → env.database_answers ≡ true
    → let t = handle_all between (handle_uplink env raw s) in
      (handle_uplink (at_moment again env) raw t).readings ≡ t.readings
handle_uplink_redelivered env raw between again s timed answers =
    let (o, plan, same) = row_plan env raw in
    let (o', plan', same') = row_plan (at_moment again env) raw in
    let known : (row : Row) → o' ≡ some row → o ≡ some row = λ row e.
      same
      ∙ if_true env.database_answers (planned env raw) answers
      ∙ sym (planned-at_moment again env raw timed)
      ∙ some_if again.database_answers (planned (at_moment again env) raw) row (sym same' ∙ e) in
    plan' (handle_all between (handle_uplink env raw s))
    ∙ insert_if_known o' _ (λ row e.
      any-handle_all (same_key row) between (handle_uplink env raw s)
        (rw (plan s, known row e) (any-insert_row row s.readings)))

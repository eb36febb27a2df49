-- ===== src/Exec.antt =====
-- How a service's methods run: each call to the database, the cache, another service or the message
-- bus may be served, be refused, or be carried out with its reply lost. A method is a function of
-- the tables, of the outcomes of the calls still to come, and of the events published so far; Go's
-- pair of a value and an error is a `Result`.
pub mod Ends
pub mod Returns
use efir.Prelude.{List, [], ◌∷◌, ◌++◌, Bool, true, false, if◌then◌else◌}

pub data Result (E A : Type 0) : Type 0 where
  ok : A → Result E A
  err : E → Result E A

pub data Outcome : Type 0 where
  served refused reply_lost : Outcome

abbrev pub translate : {E F A : Type 0} → (E → F) → Result E A → Result F A
translate f (ok a) = ok a
translate f (err e) = err (f e)

-- With no outcome left, every further call is served.
pub record World (D V : Type 0) : Type 0 where
  pub db : D
  pub outcomes : List Outcome
  pub events : List V

abbrev pub Exec : Type 0 → Type 0 → Type 0 → Type 0 → Type 0
Exec D V E A = World D V → Result E A × World D V

abbrev pub first_outcome : List Outcome → Outcome
first_outcome [] = served
first_outcome (o ∷ os) = o

abbrev pub later_outcomes : List Outcome → List Outcome
later_outcomes [] = []
later_outcomes (o ∷ os) = os

module _ {D V : Type 0} where
  abbrev pub advance : World D V → World D V
  advance w = record w { outcomes = later_outcomes w.outcomes }

  module _ {E A : Type 0} where
    unfoldable pub pure : A → Exec D V E A
    pure a w = (ok a, w)

    unfoldable pub raise : E → Exec D V E A
    raise e w = (err e, w)

    -- A call that only reads: a lost reply and a refusal are one to the caller.
    unfoldable pub read : E → (D → Result E A) → Exec D V E A
    read down f w = elim (first_outcome w.outcomes) [
      | served ↦ (f w.db, advance w)
      | refused ↦ (err down, advance w)
      | reply_lost ↦ (err down, advance w)
    ]

    -- A call that may change the tables, in one statement.
    unfoldable pub write : E → (D → Result E A × D) → Exec D V E A
    write down f w = elim (first_outcome w.outcomes) [
      | served ↦ ((f w.db).0, record w { db = (f w.db).1; outcomes = later_outcomes w.outcomes })
      | refused ↦ (err down, advance w)
      | reply_lost ↦ (err down, record w { db = (f w.db).1; outcomes = later_outcomes w.outcomes })
    ]

  -- A message handed to the bus.
  unfoldable pub publish : {E : Type 0} → E → V → Exec D V E (Unit {0})
  publish down event w = elim (first_outcome w.outcomes) [
    | served ↦
        (ok tt, record w { events = w.events ++ event ∷ []; outcomes = later_outcomes w.outcomes })
    | refused ↦ (err down, advance w)
    | reply_lost ↦ (
      err down,
      record w { events = w.events ++ event ∷ []; outcomes = later_outcomes w.outcomes },
    )
  ]

  module _ {E A B : Type 0} where
    abbrev pub continue : Result E A → (A → Exec D V E B) → Exec D V E B
    continue (ok a) f w = f a w
    continue (err e) f w = (err e, w)

    infixl 10 ◌>>=◌
    unfoldable pub ◌>>=◌ : Exec D V E A → (A → Exec D V E B) → Exec D V E B
    ◌>>=◌ m f w = continue (m w).0 f (m w).1

  infixl 10 ◌>>◌
  abbrev pub ◌>>◌ : {E B : Type 0} → Exec D V E (Unit {0}) → Exec D V E B → Exec D V E B
  m >> n = m >>= λ _. n

  module _ {E F A : Type 0} where
    -- if err != nil { return … }, where the caller renames the error.
    unfoldable pub on_error : (E → F) → Exec D V E A → Exec D V F A
    on_error f m w = (translate f (m w).0, (m w).1)

    -- x, err := m(), where the caller looks at both.
    unfoldable pub attempt : Exec D V E A → Exec D V F (Result E A)
    attempt m w = (ok (m w).0, (m w).1)

  -- A guard: if the test holds, return the error.
  unfoldable pub fail_if : {E : Type 0} → Bool → E → Exec D V E (Unit {0})
  fail_if true e w = (err e, w)
  fail_if false e w = (ok tt, w)

  -- An error that is logged and dropped.
  unfoldable pub ignore_error : {E F : Type 0} → Exec D V E (Unit {0}) → Exec D V F (Unit {0})
  ignore_error m w = (ok tt, (m w).1)

-- A proof or a test that runs methods step by step unfolds this name.
unfoldable pub running : Bool
unfolding pure raise read write publish ◌>>=◌ on_error attempt fail_if ignore_error
running = true

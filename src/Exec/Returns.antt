-- ===== src/Exec/Returns.antt =====
-- Rules for what holds of the tables when a method returns with no error.
use efir.Prelude.{
  Bool, true, false, ◌≡◌, refl, arith, List, [], ◌∷◌, ◌++◌, ◌⊎◌, inl, inr, sym, ap, ◌∙◌,
}
use mathlib.Core.Path.{subst}
use efir.Exec.{
  Result, ok, err, Outcome, served, refused, reply_lost, World, Exec, continue, first_outcome,
  advance, read, write, ◌>>=◌, on_error, fail_if,
}

-- If the method returns a value, `Q` holds of it, of the tables, and of what it has published.
abbrev pub Returns :
    {D V E A : Type 0} → (A → World D V → Type 0) → Exec D V E A → World D V → Type 0
Returns {A} Q m w = (a : A) → (m w).0 ≡ ok a → Q a (m w).1

module _ {D V E A B : Type 0} (Q : B → World D V → Type 0) (down : E) where
  pub read-Returns :
      (f : D → Result E A) (k : A → Exec D V E B) (w : World D V)
      → ((w' : World D V)
          → w'.db ≡ w.db
          → w'.events ≡ w.events
          → (a : A) → f w.db ≡ ok a
          → Returns Q (k a) w')
      → Returns Q (read down f >>= k) w
  unfolding read ◌>>=◌
  read-Returns f k w rest = go (first_outcome w.outcomes) (f w.db) refl
    where
      go :
          (o : Outcome) (r : Result E A)
          → f w.db ≡ r
          → Returns Q
              ((λ v. elim o [
                | served ↦ (r, advance v)
                | refused ↦ (err down, advance v)
                | reply_lost ↦ (err down, advance v)
              ])
                >>= k)
              w
      go served (ok a) e = rest (advance w) refl refl a e
      go served (err x) e = λ b h. cc
      go refused r e = λ b h. cc
      go reply_lost r e = λ b h. cc

  pub write-Returns :
      (f : D → Result E A × D) (k : A → Exec D V E B) (w : World D V)
      → ((w' : World D V)
          → w'.db ≡ (f w.db).1
          → w'.events ≡ w.events
          → (a : A) → (f w.db).0 ≡ ok a
          → Returns Q (k a) w')
      → Returns Q (write down f >>= k) w
  unfolding write ◌>>=◌
  write-Returns f k w rest = go (first_outcome w.outcomes) (f w.db).0 refl
    where
      go :
          (o : Outcome) (r : Result E A)
          → (f w.db).0 ≡ r
          → Returns Q
              ((λ v. elim o [
                | served ↦ (r, record v { db = (f w.db).1; outcomes = (advance v).outcomes })
                | refused ↦ (err down, advance v)
                | reply_lost ↦
                    (err down, record v { db = (f w.db).1; outcomes = (advance v).outcomes })
              ])
                >>= k)
              w
      go served (ok a) e =
          rest (record w { db = (f w.db).1; outcomes = (advance w).outcomes }) refl refl a e
      go served (err x) e = λ b h. cc
      go refused r e = λ b h. cc
      go reply_lost r e = λ b h. cc

-- The rule for a step of which a lemma tells what it leaves.
pub step-Returns :
    {D V E A B : Type 0} (Q : B → World D V → Type 0) (m : Exec D V E A) (f : A → Exec D V E B)
    (w : World D V)
    → ((a : A) (v : World D V) → m w ≡ (ok a, v) → Returns Q (f a) v)
    → Returns Q (m >>= f) w
unfolding ◌>>=◌
step-Returns {D} {V} {E} {A} Q m f w rest = go (m w) refl
  where
    go : (p : Result E A × World D V) → m w ≡ p → Returns Q (λ v. continue p.0 f p.1) w
    go (ok a, v) e = rest a v e
    go (err x, v) e = λ b h. cc

-- A method that returns a value has returned one at each of its steps.
pub bind_ok :
    {D V E A B : Type 0} (m : Exec D V E A) (f : A → Exec D V E B) (w : World D V) (b : B)
    → ((m >>= f) w).0 ≡ ok b
    → (a : A) × ((m w).0 ≡ ok a) × ((f a (m w).1).0 ≡ ok b)
unfolding ◌>>=◌
bind_ok {E = E} {A = A} {B = B} m f w b h = go (m w).0 refl
  where
    err_ok : (x : E) (c : B) → ◌≡◌ {A = Result E B} (err x) (ok c) → ⊥
    err_ok x c k = cc

    go : (r : Result E A) → (m w).0 ≡ r → (a : A) × ((m w).0 ≡ ok a) × ((f a (m w).1).0 ≡ ok b)
    go (ok a) e = (a, e, rw e at h)
    go (err x) e = absurd (err_ok x b (rw e at h))

-- The same where the first step changes nothing.
pub bind_kept :
    {D V E A B : Type 0} (m : Exec D V E A) (f : A → Exec D V E B) (w : World D V) (b : B)
    → (m w).1 ≡ w
    → ((m >>= f) w).0 ≡ ok b
    → (a : A) × ((m w).0 ≡ ok a) × ((f a w).0 ≡ ok b)
bind_kept m f w b same h =
    let (a, e, k) = bind_ok m f w b h in (a, e, subst (λ v. (f a v).0 ≡ ok b) same k)

pub on_error_ok :
    {D V E F A : Type 0} (g : E → F) (m : Exec D V E A) (w : World D V) (a : A)
    → (on_error g m w).0 ≡ ok a
    → (m w).0 ≡ ok a
unfolding on_error
on_error_ok g m w a h = ground (arith, h)

-- A guard changes nothing.
pub fail_if_world : {D V E : Type 0} (b : Bool) (e : E) (w : World D V) → (fail_if b e w).1 ≡ w
unfolding fail_if
fail_if_world true e w = refl
fail_if_world false e w = refl

-- Where nothing was published before, and at most one event is by now, an event that is there is it.
pub only_event :
    {V : Type 0} (before after : List V) (event told : V)
    → before ≡ []
    → after ≡ event ∷ []
    → (after ≡ before) ⊎ (after ≡ before ++ told ∷ [])
    → event ≡ told
only_event before after event told quiet sent (inl k) = cc
only_event before after event told quiet sent (inr k) =
    ground (arith, quiet, sym sent ∙ k ∙ ap (λ es. es ++ told ∷ []) quiet)

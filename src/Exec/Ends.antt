-- ===== src/Exec/Ends.antt =====
-- Rules for what holds of the tables and the events when a method returns, with or without an
-- error, whatever the outcomes of its calls.
use efir.Prelude.{List, Bool, true, false, ◌≡◌, refl, arith}
use efir.Exec.{
  Result, ok, err, Outcome, served, refused, reply_lost, World, Exec, first_outcome, advance, read,
  write, publish, ◌>>=◌, continue, on_error, attempt, fail_if,
}

pub record SameData {D V : Type 0} (w w' : World D V) : Type 0 where
  pub same_db : w'.db ≡ w.db
  pub same_events : w'.events ≡ w.events

-- `P` holds of the tables and the events that the method leaves.
abbrev pub Ends : {D V E A : Type 0} → (D → List V → Type 0) → Exec D V E A → World D V → Type 0
Ends P m w = P (m w).1.db (m w).1.events

module _ {D V E F A B : Type 0} (P : D → List V → Type 0) (g : E → F) (down : E) where
  -- After a read the tables and the events are as before; the rest runs only if the read was served.
  pub read-Ends :
      (f : D → Result E A) (k : A → Exec D V F B) (w : World D V)
      → P w.db w.events
      → ((w' : World D V) → SameData w w' → (a : A) → f w.db ≡ ok a → Ends P (k a) w')
      → Ends P (on_error g (read down f) >>= k) w
  unfolding read ◌>>=◌ on_error
  read-Ends f k w p rest = go (first_outcome w.outcomes) (f w.db) refl
    where
      go :
          (o : Outcome) (r : Result E A)
          → f w.db ≡ r
          → Ends P
              (on_error g (λ v. elim o [
                | served ↦ (r, advance v)
                | refused ↦ (err down, advance v)
                | reply_lost ↦ (err down, advance v)
              ])
                >>= k)
              w
      go served (ok a) e = rest (advance w) (record { same_db = refl; same_events = refl }) a e
      go served (err x) e = p
      go refused r e = p
      go reply_lost r e = p

  pub write-Ends :
      (f : D → Result E A × D) (k : A → Exec D V F B) (w : World D V)
      → P w.db w.events
      → P (f w.db).1 w.events
      → ((w' : World D V)
          → w'.db ≡ (f w.db).1
          → w'.events ≡ w.events
          → (a : A) → (f w.db).0 ≡ ok a
          → Ends P (k a) w')
      → Ends P (on_error g (write down f) >>= k) w
  unfolding write ◌>>=◌ on_error
  write-Ends f k w p q rest = go (first_outcome w.outcomes) (f w.db).0 refl
    where
      go :
          (o : Outcome) (r : Result E A)
          → (f w.db).0 ≡ r
          → Ends P
              (on_error g (λ v. elim o [
                | served ↦ (r, record v { db = (f w.db).1; outcomes = (advance v).outcomes })
                | refused ↦ (err down, advance v)
                | reply_lost ↦
                    (err down, record v { db = (f w.db).1; outcomes = (advance v).outcomes })
              ])
                >>= k)
              w
      go served (ok a) e =
          rest (record w { db = (f w.db).1; outcomes = (advance w).outcomes }) refl refl a e
      go served (err x) e = q
      go refused r e = p
      go reply_lost r e = q

module _ {D V E : Type 0} (P : D → List V → Type 0) where
  -- A guard passes only if its test fails.
  pub fail_if-Ends :
      {A : Type 0} (b : Bool) (e : E) (k : Unit {0} → Exec D V E A) (w : World D V)
      → P w.db w.events
      → (b ≡ false → Ends P (k tt) w)
      → Ends P (fail_if b e >>= k) w
  unfolding fail_if ◌>>=◌
  fail_if-Ends true e k w p rest = p
  fail_if-Ends false e k w p rest = rest refl

  -- A step that never fails: the rest runs in the world that it leaves.
  pub always-Ends :
      {A B : Type 0} (m : Exec D V E A) (k : A → Exec D V E B) (a : A) (w : World D V)
      → (m w).0 ≡ ok a
      → Ends P (k a) (m w).1
      → Ends P (m >>= k) w
  unfolding ◌>>=◌
  always-Ends m k a w e rest = rw (e, continue) rest

-- What is attempted hands its result on, whatever it is.
pub attempt-Ends :
    {D V E F A B : Type 0} (P : D → List V → Type 0) (m : Exec D V E A)
    (k : Result E A → Exec D V F B) (w : World D V)
    → Ends P (k (m w).0) (m w).1
    → Ends P (attempt m >>= k) w
unfolding attempt ◌>>=◌
attempt-Ends P m k w rest = rest

-- Whatever the first method leaves, the second runs there or not at all.
pub bind-Ends :
    {D V E A B : Type 0} (P : D → List V → Type 0) (m : Exec D V E A) (k : A → Exec D V E B)
    (w : World D V)
    → Ends P m w
    → ((a : A) (w' : World D V) → P w'.db w'.events → Ends P (k a) w')
    → Ends P (m >>= k) w
unfolding ◌>>=◌
bind-Ends {E = E} {A = A} P m k w p rest = go (m w).0
  where
    go : (r : Result E A) → P (continue r k (m w).1).1.db (continue r k (m w).1).1.events
    go (ok a) = rest a (m w).1 p
    go (err e) = p

pub bind_assoc :
    {D V E A B C : Type 0} (m : Exec D V E A) (f : A → Exec D V E B) (k : B → Exec D V E C)
    (w : World D V)
    → (m >>= f >>= k) w ≡ (m >>= λ a. f a >>= k) w
unfolding ◌>>=◌
bind_assoc {E = E} {A = A} {B = B} {C = C} m f k w = go (m w).0
  where
    go :
        (r : Result E A)
        → continue (continue r f (m w).1).0 k (continue r f (m w).1).1
          ≡ continue r (λ a v. continue (f a v).0 k (f a v).1) (m w).1
    go (ok a) = refl
    go (err e) = refl

-- A read or a message on the bus changes no table.
pub read_db :
    {D V E A : Type 0} (down : E) (f : D → Result E A) (w : World D V) → (read down f w).1.db ≡ w.db
unfolding read
read_db down f w = ground arith

pub publish_db :
    {D V E : Type 0} (down : E) (event : V) (w : World D V) → (publish down event w).1.db ≡ w.db
unfolding publish
publish_db down event w = ground arith

-- The last call of a method is a write.
pub write_db-Ends :
    {D V E A : Type 0} (P : D → List V → Type 0) (down : E) (f : D → Result E A × D) (w : World D V)
    → P w.db w.events
    → P (f w.db).1 w.events
    → Ends P (write down f) w
unfolding write
write_db-Ends {D = D} {V = V} {E = E} {A = A} P down f w p q = go (first_outcome w.outcomes)
  where
    go :
        (o : Outcome)
        → Ends {D = D} {V = V} {E = E} {A = A} P
            (λ v. elim o [
              | served ↦ ((f v.db).0, record v { db = (f v.db).1; outcomes = (advance v).outcomes })
              | refused ↦ (err down, advance v)
              | reply_lost ↦
                  (err down, record v { db = (f v.db).1; outcomes = (advance v).outcomes })
            ])
            w
    go served = q
    go refused = p
    go reply_lost = q

pub write_last-Ends :
    {D V E F A : Type 0} (P : D → List V → Type 0) (g : E → F) (down : E) (f : D → Result E A × D)
    (w : World D V)
    → P w.db w.events
    → P (f w.db).1 w.events
    → Ends P (on_error g (write down f)) w
unfolding on_error
write_last-Ends P g down f w p q = write_db-Ends P down f w p q

-- A check that changes nothing: the rest runs in the same world, or not at all.
pub check-Ends :
    {D V E A B : Type 0} (P : D → List V → Type 0) (m : Exec D V E A) (k : A → Exec D V E B)
    (w : World D V)
    → (m w).1 ≡ w
    → P w.db w.events
    → ((a : A) → (m w).0 ≡ ok a → Ends P (k a) w)
    → Ends P (m >>= k) w
unfolding ◌>>=◌
check-Ends {E = E} {A = A} P m k w same p rest = rw same (go (m w).0 refl)
  where
    go : (r : Result E A) → (m w).0 ≡ r → P (continue r k w).1.db (continue r k w).1.events
    go (ok a) e = rest a e
    go (err x) e = p

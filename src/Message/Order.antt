-- ===== src/Message/Order.antt =====
-- services/message: the order of the rows in a page, the newest first.
use efir.Prelude.{
  ◌≡◌, refl, List, [], ◌∷◌, ◌++◌, Bool, true, false, ◌==◌, keep_if, nat_eq, arith, All, Bool-cases,
  inl, inr,
}
use efir.Message.Types.{Row}
use efir.Message.Repository.{before, insert_newest, newest_first}

-- Each row comes before, in time, those that stand in front of it.
abbrev pub IsNewestFirst : List Row → Type 0
IsNewestFirst [] = Unit
IsNewestFirst (m ∷ ms) = All (λ n. before n m ≡ true) ms × IsNewestFirst ms

-- The primary key: no row has the id of another.
abbrev pub HasKeys : List Row → Type 0
HasKeys [] = Unit
HasKeys (m ∷ ms) = All (λ n. (n.id == m.id) ≡ false) ms × HasKeys ms

pub before_trans : (a b c : Row) → before a b ≡ true → before b c ≡ true → before a c ≡ true
unfolding before
before_trans a b c h k = ground arith

before_total : (a b : Row) → (a.id == b.id) ≡ false → before a b ≡ false → before b a ≡ true
unfolding before
before_total a b h k = ground arith

pub before_asym : (a b : Row) → before a b ≡ true → before b a ≡ false
unfolding before
before_asym a b h = ground arith

pub before_irrefl : (a : Row) → before a a ≡ false
unfolding before
before_irrefl a = ground arith

All-before :
    (a b : Row) (ms : List Row)
    → before a b ≡ true
    → All (λ n. before n a ≡ true) ms
    → All (λ n. before n b ≡ true) ms
All-before a b [] h k = tt
All-before a b (m ∷ ms) h k = (before_trans m a b k.0 h, All-before a b ms h k.1)

module _ (P : Row → Type 0) where
  pub All-insert_newest : (m : Row) (ms : List Row) → P m → All P ms → All P (insert_newest m ms)
  unfolding insert_newest
  All-insert_newest m [] h k = (h, tt)
  All-insert_newest m (n ∷ ns) h k = elim (Bool-cases (before m n)) [
    | inl e ↦ rw e (k.0, All-insert_newest m ns h k.1)
    | inr e ↦ rw e (h, k)
  ]

  pub All-newest_first : (ms : List Row) → All P ms → All P (newest_first ms)
  unfolding newest_first
  All-newest_first [] k = tt
  All-newest_first (m ∷ ms) k = All-insert_newest m (newest_first ms) k.0 (All-newest_first ms k.1)

  pub All-keep_if : (p : Row → Bool) (ms : List Row) → All P ms → All P (keep_if p ms)
  All-keep_if p [] k = tt
  All-keep_if p (m ∷ ms) k = elim (Bool-cases (p m)) [
    | inl e ↦ rw e (k.0, All-keep_if p ms k.1)
    | inr e ↦ rw e (All-keep_if p ms k.1)
  ]

insert_newest_sorted :
    (m : Row) (ms : List Row)
    → All (λ n. (n.id == m.id) ≡ false) ms
    → IsNewestFirst ms
    → IsNewestFirst (insert_newest m ms)
unfolding insert_newest
insert_newest_sorted m [] f k = (tt, tt)
insert_newest_sorted m (n ∷ ns) f k = elim (Bool-cases (before m n)) [
  | inl e ↦
      rw e
        (All-insert_newest (λ x. before x n ≡ true) m ns e k.0, insert_newest_sorted m ns f.1 k.1)
  | inr e ↦
      let h : before n m ≡ true = before_total m n (ground (arith, f.0)) e in
      rw e ((h, All-before n m ns h k.0), k)
]

pub newest_first_sorted : (ms : List Row) → HasKeys ms → IsNewestFirst (newest_first ms)
unfolding newest_first
newest_first_sorted [] k = tt
newest_first_sorted (m ∷ ms) k =
    insert_newest_sorted m (newest_first ms) (All-newest_first _ ms k.0)
      (newest_first_sorted ms k.1)

pub keep_if_sorted :
    (p : Row → Bool) (ms : List Row) → IsNewestFirst ms → IsNewestFirst (keep_if p ms)
keep_if_sorted p [] k = tt
keep_if_sorted p (m ∷ ms) k = elim (Bool-cases (p m)) [
  | inl e ↦ rw e (All-keep_if _ p ms k.0, keep_if_sorted p ms k.1)
  | inr e ↦ rw e (keep_if_sorted p ms k.1)
]

-- Rows in order, cut in front and behind a row: those behind are those before it in time.
pub keep_if-All : (p : Row → Bool) (ms : List Row) → All (λ n. p n ≡ true) ms → keep_if p ms ≡ ms
keep_if-All p [] k = refl
keep_if-All p (m ∷ ms) k = rw (k.0, keep_if-All p ms k.1) refl

pub after_last :
    (xs : List Row) (l : Row) (zs : List Row)
    → IsNewestFirst (xs ++ l ∷ zs)
    → keep_if (λ n. before n l) (xs ++ l ∷ zs) ≡ zs
after_last [] l zs k = rw (before_irrefl l) (keep_if-All _ zs k.0)
after_last (x ∷ xs) l zs k = rw (before_asym l x (at_last xs k.0)) (after_last xs l zs k.1)
  where
    at_last : (ys : List Row) → All (λ n. before n x ≡ true) (ys ++ l ∷ zs) → before l x ≡ true
    at_last [] h = h.0
    at_last (y ∷ ys) h = at_last ys h.1

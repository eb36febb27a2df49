-- ===== src/Message/Pages.antt =====
-- repository/postgres.go, GetMessagesByRoomID: the rows that a query finds, cut at the limit.
use efir.Prelude.{
  ℕ, zero, suc, ◌≡◌, ◌<◌, ◌≤◌, refl, ap, List, [], ◌∷◌, ◌++◌, map, Bool, true, false, ◌&&◌, Option,
  none, some, ◌==◌, keep_if, find_if, nat_eq, arith, All, Bool-cases, Option-cases, inl, inr, take,
  length, eq_self, eq_comm,
}
use efir.Message.Types.{Row, Db, Message}
use efir.Message.Content.{Json, scan}
use efir.Message.Repository.{listing, scan_rows, reply_of, last_id}
use efir.Message.Order.{HasKeys}

abbrev pub row_ids : List Row → List ℕ
row_ids = map (λ m. m.id)

abbrev pub message_ids : List Message → List ℕ
message_ids = map (λ m. m.id)

-- What a page's cursor leads on to.
abbrev pub rest : ℕ → Option ℕ → Db → List Row
rest room_id none db = []
rest room_id (some c) db = listing room_id (some c) db

pub All-at :
    (P : Row → Type 0) (xs : List Row) (l : Row) (zs : List Row) → All P (xs ++ l ∷ zs) → P l
All-at P [] l zs h = h.0
All-at P (x ∷ xs) l zs h = All-at P xs l zs h.1

pub All-kept : (p : Row → Bool) (ms : List Row) → All (λ m. p m ≡ true) (keep_if p ms)
All-kept p [] = tt
All-kept p (m ∷ ms) = elim (Bool-cases (p m)) [
  | inl e ↦ rw e (e, All-kept p ms)
  | inr e ↦ rw e (All-kept p ms)
]

pub keep_if-keep_if :
    (p q s : Row → Bool) (ms : List Row)
    → ((m : Row) → (p m && q m) ≡ s m)
    → keep_if q (keep_if p ms) ≡ keep_if s ms
keep_if-keep_if p q s [] h = refl
keep_if-keep_if p q s (m ∷ ms) h = ground (arith, keep_if-keep_if p q s ms h, h m)

pub find_later :
    (x : Row) (ms : List Row) (ns : List Row)
    → All (λ n. (n.id == x.id) ≡ false) ns
    → All (λ m. find_if (λ n. n.id == m.id) ms ≡ some m) ns
    → All (λ m. find_if (λ n. n.id == m.id) (x ∷ ms) ≡ some m) ns
find_later x ms [] h k = tt
find_later x ms (n ∷ ns) h k = (rw (eq_comm x.id n.id, h.0) k.0, find_later x ms ns h.1 k.1)

-- Under the primary key a search by id finds the row itself.
pub find_own : (ms : List Row) → HasKeys ms → All (λ m. find_if (λ n. n.id == m.id) ms ≡ some m) ms
find_own [] k = tt
find_own (m ∷ ms) k = (rw (eq_self m.id) refl, find_later m ms ms k.0 (find_own ms k.1))

pub split_at :
    (n : ℕ) (ms : List Row)
    → suc n < length (take (suc (suc n)) ms)
    → (xs : List Row) × (l : Row) × (zs : List Row) × (ms ≡ xs ++ l ∷ zs)
      × (take (suc n) (take (suc (suc n)) ms) ≡ xs ++ l ∷ [])
split_at n [] h = absurd (omega (arith, h))
split_at zero (m ∷ ms) h = ([], m, ms, refl, refl)
split_at (suc n) (m ∷ ms) h =
    let (xs, l, zs, e, f) = split_at n ms (omega (arith, h)) in
    (m ∷ xs, l, zs, ap (λ t. m ∷ t) e, ap (λ t. m ∷ t) f)

pub take_all : (n : ℕ) (ms : List Row) → length (take (suc n) ms) ≤ n → take (suc n) ms ≡ ms
take_all n [] h = refl
take_all zero (m ∷ ms) h = absurd (omega (arith, h))
take_all (suc n) (m ∷ ms) h = ap (λ t. m ∷ t) (take_all n ms (omega (arith, h)))

pub scan_id :
    (j : Json) (m : Row) (rm : Option Row) (a : Message) → scan j m rm ≡ some a → a.id ≡ m.id
unfolding scan
scan_id j m rm a h = ground arith

pub scan_rows_ids :
    (j : Json) (db : Db) (ms : List Row) (found : List Message)
    → scan_rows j db ms ≡ some found
    → message_ids found ≡ row_ids ms
unfolding scan_rows
scan_rows_ids j db [] found h = ground arith
scan_rows_ids j db (m ∷ ms) found h = elim (Option-cases (scan j m (reply_of db m))) [
  | inl e ↦ ground (arith, e)
  | inr (a, e) ↦ elim (Option-cases (scan_rows j db ms)) [
    | inl f ↦ ground (arith, e, f)
    | inr (as', f) ↦
        let one = scan_id j m (reply_of db m) a e in
        let more = scan_rows_ids j db ms as' f in
        let same : found ≡ a ∷ as' = ground (arith, e, f) in rw (same, one, more) refl
  ]
]

pub length-message_ids :
    (xs : List Message) (ys : List Row) → message_ids xs ≡ row_ids ys → length xs ≡ length ys
length-message_ids [] [] h = refl
length-message_ids [] (y ∷ ys) h = cc
length-message_ids (x ∷ xs) [] h = cc
length-message_ids (x ∷ xs) (y ∷ ys) h = ap suc (length-message_ids xs ys (ground (arith, h)))

pub take_ids :
    (n : ℕ) (xs : List Message) (ys : List Row)
    → message_ids xs ≡ row_ids ys
    → message_ids (take n xs) ≡ row_ids (take n ys)
take_ids zero xs ys h = refl
take_ids (suc n) [] [] h = refl
take_ids (suc n) [] (y ∷ ys) h = cc
take_ids (suc n) (x ∷ xs) [] h = cc
take_ids (suc n) (x ∷ xs) (y ∷ ys) h = ground (arith, take_ids n xs ys (ground (arith, h)), h)

pub last_id_at :
    (ms : List Message) (xs : List Row) (l : Row)
    → message_ids ms ≡ row_ids (xs ++ l ∷ [])
    → last_id ms ≡ some l.id
last_id_at [] [] l h = cc
last_id_at [] (x ∷ xs) l h = cc
last_id_at (m ∷ []) [] l h = ground (arith, h)
last_id_at (m ∷ []) (x ∷ []) l h = ground (arith, h)
last_id_at (m ∷ []) (x ∷ y ∷ xs) l h = ground (arith, h)
last_id_at (m ∷ n ∷ ms) [] l h = ground (arith, h)
last_id_at (m ∷ n ∷ ms) (x ∷ xs) l h = last_id_at (n ∷ ms) xs l (ground (arith, h))

pub row_ids-append : (xs ys : List Row) → row_ids (xs ++ ys) ≡ row_ids xs ++ row_ids ys
row_ids-append [] ys = refl
row_ids-append (x ∷ xs) ys = ap (λ t. x.id ∷ t) (row_ids-append xs ys)

pub row_ids_cut :
    (xs : List Row) (l : Row) (zs : List Row)
    → row_ids (xs ++ l ∷ zs) ≡ row_ids (xs ++ l ∷ []) ++ row_ids zs
row_ids_cut [] l zs = refl
row_ids_cut (x ∷ xs) l zs = ap (λ t. x.id ∷ t) (row_ids_cut xs l zs)

pub nothing_more : (xs : List ℕ) → xs ≡ xs ++ []
nothing_more [] = refl
nothing_more (x ∷ xs) = ap (λ t. x ∷ t) (nothing_more xs)

pub length-take : (n : ℕ) (xs : List Message) → length (take n xs) ≤ n
length-take zero xs = omega arith
length-take (suc n) [] = omega arith
length-take (suc n) (x ∷ xs) = omega (arith, length-take n xs)

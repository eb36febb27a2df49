-- ===== src/Prelude/Find.antt =====
-- What a search finds in a list of rows after an insertion, a deletion or an update.
use mathlib.Core.Path.{◌≡◌, refl}
use mathlib.Core.Bool.{Bool, true, false}
use mathlib.Core.List.{List, [], ◌∷◌, ◌++◌, map}
use mathlib.Core.Option.{Option, none, some}
use native.Mathlib.Omega.{arith}
use efir.Prelude.Lists.{find_if, keep_if, any_of, is_some}

abbrev pub or_else {ℓ} : {A : Type ℓ} → Option A → Option A → Option A
or_else none o = o
or_else (some a) o = some a

abbrev pub map_option {ℓ κ} : {A : Type ℓ} {B : Type κ} → (A → B) → Option A → Option B
map_option f none = none
map_option f (some a) = some (f a)

module _ {ℓ} {A : Type ℓ} (p : A → Bool) where
  pub find_if-append :
      (xs ys : List A) → find_if p (xs ++ ys) ≡ or_else (find_if p xs) (find_if p ys)
  find_if-append [] ys = refl
  find_if-append (x ∷ xs) ys = ground (arith, find_if-append xs ys)

  pub find_if-holds : (xs : List A) (a : A) → find_if p xs ≡ some a → p a ≡ true
  find_if-holds [] a h = ground arith
  find_if-holds (x ∷ xs) a h = ground (arith, find_if-holds xs a)

  pub any_of-find_if : (xs : List A) → any_of p xs ≡ is_some (find_if p xs)
  any_of-find_if [] = refl
  any_of-find_if (x ∷ xs) = ground (arith, any_of-find_if xs)

  module _ (q : A → Bool) where
    pub find_if-keep_if :
        (xs : List A)
        → ((a : A) → p a ≡ true → q a ≡ true)
        → find_if p (keep_if q xs) ≡ find_if p xs
    find_if-keep_if [] h = refl
    find_if-keep_if (x ∷ xs) h = ground (arith, find_if-keep_if xs h, h x)

    pub find_if-keep_if-none :
        (xs : List A) → ((a : A) → p a ≡ true → q a ≡ false) → find_if p (keep_if q xs) ≡ none
    find_if-keep_if-none [] h = refl
    find_if-keep_if-none (x ∷ xs) h = ground (arith, find_if-keep_if-none xs h, h x)

  pub find_if-map :
      (f : A → A) (xs : List A)
      → ((a : A) → p (f a) ≡ p a)
      → find_if p (map f xs) ≡ map_option f (find_if p xs)
  find_if-map f [] h = refl
  find_if-map f (x ∷ xs) h = ground (arith, find_if-map f xs h, h x)

  -- Where the search finds nothing, no row that another search finds would have passed.
  pub find_if-none :
      (q : A → Bool) (xs : List A) (a : A)
      → find_if p xs ≡ none
      → find_if q xs ≡ some a
      → p a ≡ false
  find_if-none q [] a h k = ground arith
  find_if-none q (x ∷ xs) a h k = ground (arith, find_if-none q xs a)

  pub keep_if-append : (xs ys : List A) → keep_if p (xs ++ ys) ≡ keep_if p xs ++ keep_if p ys
  keep_if-append [] ys = refl
  keep_if-append (x ∷ xs) ys = ground (arith, keep_if-append xs ys)

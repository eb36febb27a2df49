-- ===== src/Prelude/Lists.antt =====
-- Lists measured by native numbers, and searched by an equality test.
use Prim.Native.Nat.{ℕ, zero, suc, ◌+◌}
use mathlib.Core.Path.{◌≡◌, refl}
use mathlib.Core.Bool.{Bool, true, false, not, ◌&&◌, ◌||◌}
use mathlib.Core.List.{List, [], ◌∷◌, ◌++◌}
use mathlib.Core.Option.{Option, none, some}
use native.Mathlib.Omega.{arith}
use efir.Prelude.Tests.{Equality, ◌==◌, if◌then◌else◌}

module _ {ℓ} {A : Type ℓ} where
  abbrev pub length : List A → ℕ
  length [] = 0
  length (x ∷ xs) = suc (length xs)

  abbrev pub take : ℕ → List A → List A
  take zero xs = []
  take (suc n) [] = []
  take (suc n) (x ∷ xs) = x ∷ take n xs

  abbrev pub get_or : Option A → A → A
  get_or none d = d
  get_or (some a) d = a

  abbrev pub is_some : Option A → Bool
  is_some none = false
  is_some (some a) = true

  -- The rows that a WHERE clause selects, in their order.
  abbrev pub keep_if : (A → Bool) → List A → List A
  keep_if p [] = []
  keep_if p (x ∷ xs) = if p x then x ∷ keep_if p xs else keep_if p xs

  -- The first row that a test accepts.
  abbrev pub find_if : (A → Bool) → List A → Option A
  find_if p [] = none
  find_if p (x ∷ xs) = if p x then some x else find_if p xs

  abbrev pub any_of : (A → Bool) → List A → Bool
  any_of p [] = false
  any_of p (x ∷ xs) = p x || any_of p xs

  -- How many rows a test accepts.
  abbrev pub count_if : (A → Bool) → List A → ℕ
  count_if p [] = 0
  count_if p (x ∷ xs) = if p x then suc (count_if p xs) else count_if p xs

  pub length-append : (xs ys : List A) → length (xs ++ ys) ≡ length xs + length ys
  length-append [] ys = omega arith
  length-append (x ∷ xs) ys = omega (arith, length-append xs ys)

  abbrev pub All {κ} : (A → Type κ) → List A → Type κ
  All P [] = Unit
  All P (x ∷ xs) = P x × All P xs

-- What holds of all of a list and of one more.
pub All-append {ℓ κ} :
    {A : Type ℓ} (P : A → Type κ) (xs : List A) (a : A) → All P xs → P a → All P (xs ++ a ∷ [])
All-append P [] a h p = (p, tt)
All-append P (x ∷ xs) a h p = (h.0, All-append P xs a h.1 p)

module _ {ℓ} {A : Type ℓ} ⦃e : Equality A⦄ where
  -- slices.Contains
  abbrev pub contains : List A → A → Bool
  contains [] a = false
  contains (x ∷ xs) a = (x == a) || contains xs a

  -- The list without the first occurrence of an element.
  abbrev pub remove_first : List A → A → List A
  remove_first [] a = []
  remove_first (x ∷ xs) a = if x == a then xs else x ∷ remove_first xs a

  abbrev pub Distinct : List A → Type 0
  Distinct [] = Unit
  Distinct (x ∷ xs) = (contains xs x ≡ false) × Distinct xs

  pub contains-append :
      (xs ys : List A) (a : A) → contains (xs ++ ys) a ≡ (contains xs a || contains ys a)
  contains-append [] ys a = refl
  contains-append (x ∷ xs) ys a = ground (arith, contains-append xs ys a)

  pub contains_of-remove_first :
      (xs : List A) (a b : A) → contains (remove_first xs a) b ≡ true → contains xs b ≡ true
  contains_of-remove_first [] a b h = h
  contains_of-remove_first (x ∷ xs) a b h = ground (arith, contains_of-remove_first xs a b)

  pub remove_first_absent : (xs : List A) (a : A) → contains xs a ≡ false → remove_first xs a ≡ xs
  remove_first_absent [] a h = refl
  remove_first_absent (x ∷ xs) a h = ground (arith, remove_first_absent xs a)

  pub contains-remove_first :
      (xs : List A) (a b : A)
      → Distinct xs
      → contains (remove_first xs a) b ≡ (contains xs b && not (a == b))
  contains-remove_first [] a b d = refl
  contains-remove_first (x ∷ xs) a b d =
      ground (
        arith,
        contains-remove_first xs a b d.1,
        e.same_iff x a,
        e.same_iff x b,
        e.same_iff a b,
        d.0,
      )

  pub remove_first-Distinct : (xs : List A) (a : A) → Distinct xs → Distinct (remove_first xs a)
  remove_first-Distinct [] a d = tt
  remove_first-Distinct (x ∷ xs) a d =
      ground (arith, remove_first-Distinct xs a d.1, contains_of-remove_first xs a x)

  pub append-Distinct :
      (xs : List A) (a : A) → Distinct xs → contains xs a ≡ false → Distinct (xs ++ a ∷ [])
  append-Distinct [] a d h = (refl, tt)
  append-Distinct (x ∷ xs) a d h = ground (
    arith,
    append-Distinct xs a d.1,
    contains-append xs (a ∷ []) x,
    e.same_iff x a,
    e.same_iff a x,
    d.0,
  )

  pub Distinct-append :
      (xs ys : List A)
      → Distinct xs
      → Distinct ys
      → ((a : A) → contains xs a ≡ true → contains ys a ≡ false)
      → Distinct (xs ++ ys)
  Distinct-append [] ys d f h = f
  Distinct-append (x ∷ xs) ys d f h = (
    ground (arith, contains-append xs ys x, h x, e.same_iff x x),
    Distinct-append xs ys d.1 f (λ a k. h a (ground arith)),
  )

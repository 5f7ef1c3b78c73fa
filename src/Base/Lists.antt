-- ===== src/Base/Lists.antt =====
-- Lists measured and filtered by native numbers and Boolean tests.
use Prim.Native.Nat.{ℕ, suc, ◌+◌, ◌≤◌}
use mathlib.Core.Path.{◌≡◌, refl}
use mathlib.Core.Bool.{Bool, true, false, not, ◌&&◌, ◌||◌}
use mathlib.Core.List.{List, [], ◌∷◌, ◌++◌, map}
use mathlib.Core.Option.{Option, none, some}
use native.Mathlib.Omega.{arith}
use polymarket_event_quant.Base.Tests.{if◌then◌else◌, leb, leb→le, Bool-cases}
use mathlib.Core.Logic.{inl, inr}

module _ {ℓ} {A : Type ℓ} where
  abbrev pub length : List A → ℕ
  length [] = 0
  length (x ∷ xs) = suc (length xs)

  -- `[x for x in xs if p(x)]`
  abbrev pub filter : (A → Bool) → List A → List A
  filter p [] = []
  filter p (x ∷ xs) = if p x then x ∷ filter p xs else filter p xs

  abbrev pub any : (A → Bool) → List A → Bool
  any p [] = false
  any p (x ∷ xs) = p x || any p xs

  abbrev pub all : (A → Bool) → List A → Bool
  all p [] = true
  all p (x ∷ xs) = p x && all p xs

  -- the first match, as a keyed SELECT that fetches one row
  abbrev pub find : (A → Bool) → List A → Option A
  find p [] = none
  find p (x ∷ xs) = if p x then some x else find p xs

  -- `sum(f(x) for x in xs)`
  abbrev pub sum_by : (A → ℕ) → List A → ℕ
  sum_by f [] = 0
  sum_by f (x ∷ xs) = f x + sum_by f xs

  -- insertion by a numeric key, behind the rows of the same key
  abbrev pub insert_by : (A → ℕ) → A → List A → List A
  insert_by f a [] = a ∷ []
  insert_by f a (x ∷ xs) = if leb (f x) (f a) then x ∷ insert_by f a xs else a ∷ x ∷ xs

  abbrev insert_from : (A → ℕ) → List A → List A → List A
  insert_from f acc [] = acc
  insert_from f acc (x ∷ xs) = insert_from f (insert_by f x acc) xs

  -- a stable ascending sort by a numeric key, `ORDER BY`
  abbrev pub sort_by : (A → ℕ) → List A → List A
  sort_by f xs = insert_from f [] xs

  abbrev pub All {κ} : (A → Type κ) → List A → Type κ
  All P [] = Unit
  All P (x ∷ xs) = P x × All P xs

  pub length-append : (xs ys : List A) → length (xs ++ ys) ≡ length xs + length ys
  length-append [] ys = omega arith
  length-append (x ∷ xs) ys = omega (arith, length-append xs ys)

  pub append_nil : (xs : List A) → xs ++ [] ≡ xs
  append_nil [] = refl
  append_nil (x ∷ xs) = ground (arith, append_nil xs)

  pub append_one_append : (xs ys : List A) (a : A) → (xs ++ a ∷ []) ++ ys ≡ xs ++ a ∷ ys
  append_one_append [] ys a = refl
  append_one_append (x ∷ xs) ys a = ground (arith, append_one_append xs ys a)

  pub any-append : (p : A → Bool) (xs ys : List A) → any p (xs ++ ys) ≡ (any p xs || any p ys)
  any-append p [] ys = refl
  any-append p (x ∷ xs) ys = ground (arith, any-append p xs ys)

  any-insert_by :
      (p : A → Bool) (f : A → ℕ) (a : A) (xs : List A)
      → any p (insert_by f a xs) ≡ (p a || any p xs)
  any-insert_by p f a [] = refl
  any-insert_by p f a (x ∷ xs) = ground (arith, any-insert_by p f a xs)

  any-insert_from :
      (p : A → Bool) (f : A → ℕ) (acc xs : List A)
      → any p (insert_from f acc xs) ≡ (any p acc || any p xs)
  any-insert_from p f acc [] = ground arith
  any-insert_from p f acc (x ∷ xs) =
      ground (arith, any-insert_from p f (insert_by f x acc) xs, any-insert_by p f x acc)

  pub any-sort_by : (p : A → Bool) (f : A → ℕ) (xs : List A) → any p (sort_by f xs) ≡ any p xs
  any-sort_by p f xs = any-insert_from p f [] xs

  pub sum_by-append : (f : A → ℕ) (xs ys : List A) → sum_by f (xs ++ ys) ≡ sum_by f xs + sum_by f ys
  sum_by-append f [] ys = omega arith
  sum_by-append f (x ∷ xs) ys = omega (arith, sum_by-append f xs ys)

  pub sum_by-insert_by :
      (f g : A → ℕ) (a : A) (xs : List A) → sum_by g (insert_by f a xs) ≡ g a + sum_by g xs
  sum_by-insert_by f g a [] = refl
  sum_by-insert_by f g a (x ∷ xs) = ground (arith, sum_by-insert_by f g a xs)

  sum_by-insert_from :
      (f g : A → ℕ) (acc xs : List A) → sum_by g (insert_from f acc xs) ≡ sum_by g acc + sum_by g xs
  sum_by-insert_from f g acc [] = omega arith
  sum_by-insert_from f g acc (x ∷ xs) =
      omega (arith, sum_by-insert_from f g (insert_by f x acc) xs, sum_by-insert_by f g x acc)

  pub sum_by-sort_by : (f g : A → ℕ) (xs : List A) → sum_by g (sort_by f xs) ≡ sum_by g xs
  sum_by-sort_by f g xs = omega (arith, sum_by-insert_from f g [] xs)

  pub All-append {κ} : (P : A → Type κ) (xs ys : List A) → All P xs → All P ys → All P (xs ++ ys)
  All-append P [] ys hx hy = hy
  All-append P (x ∷ xs) ys hx hy = (hx.0, All-append P xs ys hx.1 hy)

  pub All-insert_by {κ} :
      (P : A → Type κ) (f : A → ℕ) (a : A) (xs : List A) → P a → All P xs → All P (insert_by f a xs)
  All-insert_by P f a [] h hx = (h, tt)
  All-insert_by P f a (x ∷ xs) h hx = elim (Bool-cases (leb (f x) (f a))) [
    | inl e ↦ rw e (hx.0, All-insert_by P f a xs h hx.1)
    | inr e ↦ rw e (h, hx)
  ]

  All-insert_from {κ} :
      (P : A → Type κ) (f : A → ℕ) (acc xs : List A)
      → All P acc
      → All P xs
      → All P (insert_from f acc xs)
  All-insert_from P f acc [] ha hx = ha
  All-insert_from P f acc (x ∷ xs) ha hx =
      All-insert_from P f (insert_by f x acc) xs (All-insert_by P f x acc hx.0 ha) hx.1

  pub All-sort_by {κ} : (P : A → Type κ) (f : A → ℕ) (xs : List A) → All P xs → All P (sort_by f xs)
  All-sort_by P f xs h = All-insert_from P f [] xs tt h

  pub All-filter : (p : A → Bool) (xs : List A) → All (λ x. p x ≡ true) (filter p xs)
  All-filter p [] = tt
  All-filter p (x ∷ xs) = elim (Bool-cases (p x)) [
    | inl e ↦ rw e (e, All-filter p xs)
    | inr e ↦ rw e (All-filter p xs)
  ]

  -- What a filter keeps and what it drops make up the list, under any measure.
  pub sum_by-filter :
      (f : A → ℕ) (p : A → Bool) (xs : List A)
      → sum_by f xs ≡ sum_by f (filter p xs) + sum_by f (filter (λ x. not (p x)) xs)
  sum_by-filter f p [] = omega arith
  sum_by-filter f p (x ∷ xs) = elim (Bool-cases (p x)) [
    | inl e ↦ rw e (omega (arith, sum_by-filter f p xs))
    | inr e ↦ rw e (omega (arith, sum_by-filter f p xs))
  ]

  pub sum_by_mono :
      (f g : A → ℕ) → ((x : A) → f x ≤ g x) → (xs : List A) → sum_by f xs ≤ sum_by g xs
  sum_by_mono f g h [] = omega arith
  sum_by_mono f g h (x ∷ xs) = omega (arith, h x, sum_by_mono f g h xs)

  -- the list is in ascending order of the key
  abbrev pub IsSorted : (A → ℕ) → List A → Type 0
  IsSorted f [] = Unit
  IsSorted f (x ∷ xs) = All (λ y. f x ≤ f y) xs × IsSorted f xs

  All-le_trans :
      (f : A → ℕ) (m n : ℕ) (xs : List A) → m ≤ n → All (λ y. n ≤ f y) xs → All (λ y. m ≤ f y) xs
  All-le_trans f m n [] h hx = tt
  All-le_trans f m n (x ∷ xs) h hx = (omega (arith, hx.0), All-le_trans f m n xs h hx.1)

  insert_by-IsSorted :
      (f : A → ℕ) (a : A) (xs : List A) → IsSorted f xs → IsSorted f (insert_by f a xs)
  insert_by-IsSorted f a [] h = (tt, tt)
  insert_by-IsSorted f a (x ∷ xs) h = elim (Bool-cases (leb (f x) (f a))) [
    | inl e ↦
        rw e
          (All-insert_by (λ y. f x ≤ f y) f a xs (leb→le _ _ e) h.0, insert_by-IsSorted f a xs h.1)
    | inr e ↦ rw e ((below e, All-le_trans f (f a) (f x) xs (below e) h.0), h)
  ]
    where
      below : leb (f x) (f a) ≡ false → f a ≤ f x
      below e = ground arith

  insert_from-IsSorted :
      (f : A → ℕ) (acc xs : List A) → IsSorted f acc → IsSorted f (insert_from f acc xs)
  insert_from-IsSorted f acc [] h = h
  insert_from-IsSorted f acc (x ∷ xs) h =
      insert_from-IsSorted f (insert_by f x acc) xs (insert_by-IsSorted f x acc h)

  pub sort_by-IsSorted : (f : A → ℕ) (xs : List A) → IsSorted f (sort_by f xs)
  sort_by-IsSorted f xs = insert_from-IsSorted f [] xs tt

pub length-map {ℓ κ} :
    {A : Type ℓ} {B : Type κ} (f : A → B) (xs : List A) → length (map f xs) ≡ length xs
length-map f [] = refl
length-map f (x ∷ xs) = ground (arith, length-map f xs)

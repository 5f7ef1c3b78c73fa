-- ===== src/Base/Keyed.antt =====
-- Tables whose rows have a text key: lookup, update and distinct keys.
use Prim.Native.String.{String}
use mathlib.Core.Path.{◌≡◌, refl}
use mathlib.Core.Logic.{inl, inr}
use mathlib.Core.Bool.{Bool, false, not, ◌||◌}
use mathlib.Core.Option.{Option, none, some}
use mathlib.Core.Option
use mathlib.Core.List.{List, [], ◌∷◌, ◌++◌, map}
use native.Mathlib.Omega.{arith}
use text.Mathlib.TextEquality.{eq_iff}
use polymarket_event_quant.Base.Tests.{str_eq, if◌then◌else◌, Bool-cases, is_some}
use polymarket_event_quant.Base.Lists.{find, any, filter}

module _ {ℓ} {A : Type ℓ} (key : A → String) where
  -- the row of a key
  abbrev pub lookup : String → List A → Option A
  lookup k xs = find (λ x. str_eq (key x) k) xs

  -- `k` is the key of some row
  abbrev pub has_key : String → List A → Bool
  has_key k xs = any (λ x. str_eq (key x) k) xs

  abbrev pub IsUnique : List A → Type 0
  IsUnique [] = Unit
  IsUnique (x ∷ xs) = (has_key (key x) xs ≡ false) × IsUnique xs

  abbrev pub drop_key : String → List A → List A
  drop_key k xs = filter (λ x. not (str_eq (key x) k)) xs

  pub has_key-lookup : (k : String) (xs : List A) → has_key k xs ≡ is_some (lookup k xs)
  has_key-lookup k [] = refl
  has_key-lookup k (x ∷ xs) = ground (arith, has_key-lookup k xs)

  pub lookup-key : (k : String) {a : A} (xs : List A) → lookup k xs ≡ some a → key a ≡ k
  lookup-key k [] h = cc
  lookup-key k (x ∷ xs) h = elim (Bool-cases (str_eq (key x) k)) [
    | inl e ↦ ground (arith, eq_iff (key x) k)
    | inr e ↦ lookup-key k xs (ground arith)
  ]

  pub has_key-append :
      (k : String) (xs ys : List A) → has_key k (xs ++ ys) ≡ (has_key k xs || has_key k ys)
  has_key-append k [] ys = refl
  has_key-append k (x ∷ xs) ys = ground (arith, has_key-append k xs ys)

  pub has_key-drop_key :
      (k j : String) (xs : List A)
      → has_key j (drop_key k xs) ≡ (if str_eq k j then false else has_key j xs)
  has_key-drop_key k j [] = ground arith
  has_key-drop_key k j (x ∷ xs) =
      ground (arith, has_key-drop_key k j xs, eq_iff (key x) k, eq_iff (key x) j, eq_iff k j)

  pub lookup-drop_key :
      (k j : String) (xs : List A)
      → lookup j (drop_key k xs) ≡ (if str_eq k j then none else lookup j xs)
  lookup-drop_key k j [] = ground arith
  lookup-drop_key k j (x ∷ xs) =
      ground (arith, lookup-drop_key k j xs, eq_iff (key x) k, eq_iff (key x) j, eq_iff k j)

  pub lookup-append_one :
      (j : String) (xs : List A) (a : A)
      → has_key (key a) xs ≡ false
      → lookup j (xs ++ a ∷ []) ≡ (if str_eq (key a) j then some a else lookup j xs)
  lookup-append_one j [] a h = refl
  lookup-append_one j (x ∷ xs) a h =
      ground (
        arith,
        lookup-append_one j xs a,
        eq_iff (key x) j,
        eq_iff (key a) j,
        eq_iff (key x) (key a),
      )

  pub drop_key-IsUnique : (k : String) (xs : List A) → IsUnique xs → IsUnique (drop_key k xs)
  drop_key-IsUnique k [] h = tt
  drop_key-IsUnique k (x ∷ xs) h =
      ground (arith, drop_key-IsUnique k xs h.1, has_key-drop_key k (key x) xs)

  pub drop_key_absent : (k : String) (xs : List A) → has_key k xs ≡ false → drop_key k xs ≡ xs
  drop_key_absent k [] h = refl
  drop_key_absent k (x ∷ xs) h = ground (arith, drop_key_absent k xs)

  pub append_one-IsUnique :
      (xs : List A) (a : A) → has_key (key a) xs ≡ false → IsUnique xs → IsUnique (xs ++ a ∷ [])
  append_one-IsUnique [] a h u = (refl, tt)
  append_one-IsUnique (x ∷ xs) a h u = ground (
    arith,
    append_one-IsUnique xs a,
    has_key-append (key x) xs (a ∷ []),
    eq_iff (key x) (key a),
    eq_iff (key a) (key x),
  )

  module _ (f : A → A) (keeps : (x : A) → key (f x) ≡ key x) where
    pub has_key-map : (k : String) (xs : List A) → has_key k (map f xs) ≡ has_key k xs
    has_key-map k [] = refl
    has_key-map k (x ∷ xs) = ground (arith, has_key-map k xs, keeps x)

    pub map-IsUnique : (xs : List A) → IsUnique xs → IsUnique (map f xs)
    map-IsUnique [] h = tt
    map-IsUnique (x ∷ xs) h =
        (rw (has_key-map (key (f x)) xs) (rw (keeps x) h.0), map-IsUnique xs h.1)

    pub lookup-map : (k : String) (xs : List A) → lookup k (map f xs) ≡ Option.map f (lookup k xs)
    lookup-map k [] = refl
    lookup-map k (x ∷ xs) = ground (arith, lookup-map k xs, keeps x)

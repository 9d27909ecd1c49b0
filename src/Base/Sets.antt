-- ===== src/Base/Sets.antt =====
-- Lists as sets and as multisets: `std::set` and `std::list` of values with decidable equality.
use Prim.Native.Nat.{ℕ, ◌+◌, ◌≤◌}
use mathlib.Core.Path.{◌≡◌, refl}
use mathlib.Core.Logic.{ite}
use mathlib.Core.Bool.{Bool, true, false}
use mathlib.Core.List.{List, [], ◌∷◌, ◌++◌}
use native.Mathlib.Omega.{arith}
use mini_plex.Base.Tests.{if◌then◌else◌, ltb}

module _ {A : Type 0} (dec : Discrete A) where
  -- How often a value stands in a list.
  abbrev pub count : A → List A → ℕ
  count a [] = 0
  count a (x ∷ xs) = ite (dec x a) 1 0 + count a xs

  unfoldable pub contains : List A → A → Bool
  contains [] a = false
  contains (x ∷ xs) a = ite (dec x a) true (contains xs a)

  unfoldable pub set_erase : A → List A → List A
  set_erase a [] = []
  set_erase a (x ∷ xs) = ite (dec x a) (set_erase a xs) (x ∷ set_erase a xs)

  -- One occurrence goes.
  unfoldable pub erase_one : A → List A → List A
  erase_one a [] = []
  erase_one a (x ∷ xs) = ite (dec x a) xs (x ∷ erase_one a xs)

  pub contains-count : (a : A) (xs : List A) → contains xs a ≡ ltb 0 (count a xs)
  unfolding contains
  contains-count a [] = refl
  contains-count a (x ∷ xs) = ground (arith, contains-count a xs)

  pub count-append : (a : A) (xs ys : List A) → count a (xs ++ ys) ≡ count a xs + count a ys
  count-append a [] ys = omega arith
  count-append a (x ∷ xs) ys = omega (arith, count-append a xs ys)

  pub count-set_erase :
      (a b : A) (xs : List A) → count b (set_erase a xs) ≡ ite (dec a b) 0 (count b xs)
  unfolding set_erase
  count-set_erase a b [] = ground arith
  count-set_erase a b (x ∷ xs) = ground (arith, count-set_erase a b xs)

  pub count-erase_one :
      (a b : A) (xs : List A) → count b xs ≤ count b (erase_one a xs) + ite (dec a b) 1 0
  unfolding erase_one
  count-erase_one a b [] = ground arith
  count-erase_one a b (x ∷ xs) = ground (arith, count-erase_one a b xs)

  pub count-erase_one_of :
      (a b : A) (xs : List A)
      → contains xs a ≡ true
      → count b (erase_one a xs) + ite (dec a b) 1 0 ≡ count b xs
  unfolding erase_one contains
  count-erase_one_of a b [] h = cc
  count-erase_one_of a b (x ∷ xs) h = ground (arith, count-erase_one_of a b xs)

  module _ (less : A → A → Bool) where
    -- Before the first greater value.
    place : A → List A → List A
    place a [] = a ∷ []
    place a (x ∷ xs) = if less a x then a ∷ x ∷ xs else x ∷ place a xs

    -- `std::set::insert`
    unfoldable pub set_insert : A → List A → List A
    unfolding place
    set_insert a xs = if contains xs a then xs else place a xs

    count-place : (a b : A) (xs : List A) → count b (place a xs) ≡ ite (dec a b) 1 0 + count b xs
    unfolding place
    count-place a b [] = ground arith
    count-place a b (x ∷ xs) = ground (arith, count-place a b xs)

    pub count-set_insert :
        (a b : A) (xs : List A)
        → count b (set_insert a xs)
          ≡ ite (dec a b) (if ltb 0 (count b xs) then count b xs else 1) (count b xs)
    unfolding set_insert
    count-set_insert a b xs = ground (arith, count-place a b xs, contains-count a xs)

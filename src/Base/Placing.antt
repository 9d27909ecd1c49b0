-- ===== src/Base/Placing.antt =====
-- Lists in the order of a key: where `std::priority_queue` and `std::multiset` put a new element.
use mathlib.Core.List.{Perm, Permᴰ}
use mathlib.Core.List.Permᴰ
use Prim.Native.Nat.{ℕ, suc, ◌+◌, ◌≤◌, ◌<◌}
use mathlib.Core.Path.{◌≡◌, refl, sym, ap, ◌∙◌, subst}
use mathlib.Core.Logic.{◌≢◌, inl, inr, ∥∥₁_elim}
use mathlib.Core.Bool.{true, false}
use mathlib.Core.List.{List, [], ◌∷◌, ◌++◌}
use native.Mathlib.Omega.{arith}
use mathlib.Core.List.{is_set}
use mini_plex.Base.Lists.{length, append_nil, append_assoc}
use mini_plex.Base.Tests.{if◌then◌else◌, ltb, Bool-cases}

module _ {A : Type 0} (key : A → ℕ) where
  -- Before the first element with a greater key.
  unfoldable pub place : A → List A → List A
  place f [] = f ∷ []
  place f (g ∷ q) = let rest = place f q in if ltb (key f) (key g) then f ∷ g ∷ q else g ∷ rest

  unfoldable pub place_all : List A → List A → List A
  unfolding place
  place_all q [] = q
  place_all q (f ∷ fs) = place_all (place f q) fs

  -- No element has the key `k`.
  unfoldable pub Differs : ℕ → List A → Type 0
  Differs k [] = Unit
  Differs k (g ∷ q) = (key g ≢ k) × Differs k q

  -- No two elements have the same key.
  unfoldable pub Apart : List A → Type 0
  Apart [] = Unit
  Apart (f ∷ fs) = Differs (key f) fs × Apart fs

  place_comm : (f g : A) (q : List A) → key f ≢ key g → place f (place g q) ≡ place g (place f q)
  unfolding place
  place_comm f g [] h = elim (Bool-cases (ltb (key f) (key g))) [
    | inl e ↦ let o : ltb (key g) (key f) ≡ false = ground arith in rw (e, o) refl
    | inr e ↦ let o : ltb (key g) (key f) ≡ true = ground arith in rw (e, o) refl
  ]
  place_comm f g (x ∷ q) h = ground (arith, place_comm f g q h)

  Differs-Permᴰ : {fs gs : List A} (k : ℕ) → Permᴰ fs gs → Differs k fs → Differs k gs
  unfolding Differs
  Differs-Permᴰ k Permᴰ.nil v = tt
  Differs-Permᴰ k (Permᴰ.cons e d) (h, v) = (subst (λ a. key a ≢ k) e h, Differs-Permᴰ k d v)
  Differs-Permᴰ k (Permᴰ.swap a b) (h, (i, v)) =
      (subst (λ x. key x ≢ k) b i, (subst (λ x. key x ≢ k) a h, v))
  Differs-Permᴰ k (Permᴰ.trans d e) v = Differs-Permᴰ k e (Differs-Permᴰ k d v)

  Apart-Permᴰ : {fs gs : List A} → Permᴰ fs gs → Apart fs → Apart gs
  unfolding Apart Differs
  Apart-Permᴰ Permᴰ.nil v = tt
  Apart-Permᴰ (Permᴰ.cons {l₂ = l₂} e d) (h, v) =
      (subst (λ a. Differs (key a) l₂) e (Differs-Permᴰ _ d h), Apart-Permᴰ d v)
  Apart-Permᴰ (Permᴰ.swap {l = l} a b) ((h, i), (j, v)) = (
    (λ e. h (ap key b ∙ sym e ∙ ap key (sym a)), subst (λ x. Differs (key x) l) b j),
    (subst (λ x. Differs (key x) l) a i, v),
  )
  Apart-Permᴰ (Permᴰ.trans d e) v = Apart-Permᴰ e (Apart-Permᴰ d v)

  -- The order in which elements with different keys arrive does not matter.
  place_all-Permᴰ :
      {fs gs : List A} (q : List A) → Permᴰ fs gs → Apart fs → place_all q fs ≡ place_all q gs
  unfolding place_all Apart Differs
  place_all-Permᴰ q Permᴰ.nil v = refl
  place_all-Permᴰ q (Permᴰ.cons {b = b} {l₁ = l₁} e d) (h, v) =
      ap (λ a. place_all (place a q) l₁) e ∙ place_all-Permᴰ (place b q) d v
  place_all-Permᴰ q (Permᴰ.swap {a = a} {b = b} {b' = b'} {l = l} c d) ((h, i), (j, v)) =
      ap (λ r. place_all r l) (place_comm b a q h)
      ∙ ap (λ x. place_all (place x (place b q)) l) c
      ∙ ap (λ x. place_all (place b' (place x q)) l) d
  place_all-Permᴰ q (Permᴰ.trans d e) v =
      place_all-Permᴰ q d v ∙ place_all-Permᴰ q e (Apart-Permᴰ d v)

  Differs-prop : (k : ℕ) (fs : List A) → IsProp (Differs k fs)
  unfolding Differs
  Differs-prop k [] = hlevel
  Differs-prop k (f ∷ fs) = let rest = Differs-prop k fs in hlevel

  Apart-prop : (fs : List A) → IsProp (Apart fs)
  unfolding Apart
  Apart-prop [] = hlevel
  Apart-prop (f ∷ fs) = let first = Differs-prop (key f) fs in let rest = Apart-prop fs in hlevel

  pub Apart-Perm : (fs gs : List A) → Perm fs gs → Apart gs → Apart fs
  Apart-Perm fs gs p v = ∥∥₁_elim p (Apart-prop fs) (λ d. Apart-Permᴰ (Permᴰ.symm d) v)

  Differs-place : (k : ℕ) (f : A) (q : List A) → key f ≢ k → Differs k q → Differs k (place f q)
  unfolding Differs place
  Differs-place k f [] h v = (h, tt)
  Differs-place k f (g ∷ q) h (i, v) = elim (Bool-cases (ltb (key f) (key g))) [
    | inl e ↦ rw e (h, (i, v))
    | inr e ↦ rw e (i, Differs-place k f q h v)
  ]

  -- No element of one list has the key of an element of the other.
  unfoldable pub Clear : List A → List A → Type 0
  Clear [] q = Unit
  Clear (f ∷ fs) q = Differs (key f) q × Clear fs q

  pub Clear-nil : (fs : List A) → Clear fs []
  unfolding Clear Differs
  Clear-nil [] = tt
  Clear-nil (f ∷ fs) = (tt, Clear-nil fs)

  pub Clear-place : (f : A) (fs q : List A) → Differs (key f) fs → Clear fs q → Clear fs (place f q)
  unfolding Clear Differs
  Clear-place f [] q d v = tt
  Clear-place f (g ∷ fs) q (h, d) (i, v) =
      (Differs-place (key g) f q (λ e. h (sym e)) i, Clear-place f fs q d v)

  pub length-place : (f : A) (q : List A) → length (place f q) ≡ suc (length q)
  unfolding place
  length-place f [] = refl
  length-place f (g ∷ q) = ground (arith, length-place f q)

  pub length-place_all : (q fs : List A) → length (place_all q fs) ≡ length q + length fs
  unfolding place_all
  length-place_all q [] = omega arith
  length-place_all q (f ∷ fs) = omega (arith, length-place_all (place f q) fs, length-place f q)

  -- All keys are less than `k`.
  unfoldable pub Below : ℕ → List A → Type 0
  Below k [] = Unit
  Below k (g ∷ q) = (key g < k) × Below k q

  -- The keys are at least `k`, and increase.
  unfoldable pub Increasing : ℕ → List A → Type 0
  Increasing k [] = Unit
  Increasing k (f ∷ fs) = (k ≤ key f) × Increasing (suc (key f)) fs

  Below-le : (k m : ℕ) (q : List A) → k ≤ m → Below k q → Below m q
  unfolding Below
  Below-le k m [] l v = tt
  Below-le k m (g ∷ q) l (h, v) = (omega arith, Below-le k m q l v)

  Below-last : (f : A) (q : List A) → Below (key f) q → Below (suc (key f)) (q ++ f ∷ [])
  unfolding Below
  Below-last f [] v = (omega arith, tt)
  Below-last f (g ∷ q) (h, v) = (omega arith, Below-last f q v)

  place-last : (f : A) (q : List A) → Below (key f) q → place f q ≡ q ++ f ∷ []
  unfolding place Below
  place-last f [] v = refl
  place-last f (g ∷ q) (h, v) =
      let e : ltb (key f) (key g) ≡ false = ground arith in
      rw e (ap (λ r. g ∷ r) (place-last f q v))

  -- Behind elements with smaller keys.
  pub place-append : (f : A) (w q : List A) → Below (key f) w → place f (w ++ q) ≡ w ++ place f q
  unfolding place Below
  place-append f [] q v = refl
  place-append f (g ∷ w) q (h, v) =
      let e : ltb (key f) (key g) ≡ false = ground arith in
      rw e (ap (λ r. g ∷ r) (place-append f w q v))

  pub Differs-append : (k : ℕ) (w q : List A) → Differs k (w ++ q) → Differs k w × Differs k q
  unfolding Differs
  Differs-append k [] q v = (tt, v)
  Differs-append k (g ∷ w) q (h, v) = let r = Differs-append k w q v in ((h, r.0), r.1)

  place_all-Increasing :
      (k : ℕ) (q fs : List A) → Below k q → Increasing k fs → place_all q fs ≡ q ++ fs
  unfolding place_all Increasing
  place_all-Increasing k q [] v w = sym (append_nil q)
  place_all-Increasing k q (f ∷ fs) v (l, w) =
      let below = Below-le k (key f) q l v in
      ap (λ r. place_all r fs) (place-last f q below)
      ∙ place_all-Increasing (suc (key f)) (q ++ f ∷ []) fs (Below-last f q below) w
      ∙ append_assoc q (f ∷ []) fs

  Differs-Increasing : (k m : ℕ) (fs : List A) → k < m → Increasing m fs → Differs k fs
  unfolding Increasing Differs
  Differs-Increasing k m [] l v = tt
  Differs-Increasing k m (f ∷ fs) l (h, v) =
      (λ e. omega (arith, e, l, h), Differs-Increasing k (suc (key f)) fs (omega arith) v)

  pub Increasing-Apart : (k : ℕ) (fs : List A) → Increasing k fs → Apart fs
  unfolding Increasing Apart
  Increasing-Apart k [] v = tt
  Increasing-Apart k (f ∷ fs) (h, v) = (
    Differs-Increasing (key f) (suc (key f)) fs (omega arith) v,
    Increasing-Apart (suc (key f)) fs v,
  )

  module _ (dec : IsSet A) where
    -- Elements with different keys, in any order of arrival, are put in the order of their keys.
    pub place_all-Perm :
        (k : ℕ) (fs gs : List A) → Perm fs gs → Increasing k gs → place_all [] fs ≡ gs
    place_all-Perm k fs gs p v = ∥∥₁_elim p (is_set dec _ _) (λ d.
        sym (place_all-Permᴰ [] (Permᴰ.symm d) (Increasing-Apart k gs v))
        ∙ place_all-Increasing k [] gs (unfold Below in tt) v)

-- ===== src/Base/Every.antt =====
-- A predicate of every element of a list, whatever their order.
use mathlib.Core.List.{Perm, Permᴰ}
use mathlib.Core.List.Permᴰ
use mathlib.Core.Path.{subst}
use mathlib.Core.Logic.{∥∥₁_elim}
use mathlib.Core.List.{List, [], ◌∷◌, ◌++◌}

module _ {A : Type 0} (P : A → Type 0) where
  unfoldable pub Every : List A → Type 0
  Every [] = Unit
  Every (x ∷ xs) = P x × Every xs

  Every-Permᴰ : {xs ys : List A} → Permᴰ xs ys → Every xs → Every ys
  unfolding Every
  Every-Permᴰ Permᴰ.nil v = tt
  Every-Permᴰ (Permᴰ.cons e d) (h, v) = (subst P e h, Every-Permᴰ d v)
  Every-Permᴰ (Permᴰ.swap a b) (h, (i, v)) = (subst P b i, (subst P a h, v))
  Every-Permᴰ (Permᴰ.trans d e) v = Every-Permᴰ e (Every-Permᴰ d v)

  pub Every-append : (xs ys : List A) → Every (xs ++ ys) → Every xs × Every ys
  unfolding Every
  Every-append [] ys v = (tt, v)
  Every-append (x ∷ xs) ys (h, v) = let r = Every-append xs ys v in ((h, r.0), r.1)

  module _ (proposition : (x : A) → IsProp (P x)) where
    Every-prop : (xs : List A) → IsProp (Every xs)
    unfolding Every
    Every-prop [] = hlevel
    Every-prop (x ∷ xs) = let first = proposition x in let rest = Every-prop xs in hlevel

    pub Every-Perm : (xs ys : List A) → Perm xs ys → Every ys → Every xs
    Every-Perm xs ys p v = ∥∥₁_elim p (Every-prop xs) (λ d. Every-Permᴰ (Permᴰ.symm d) v)

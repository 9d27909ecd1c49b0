-- ===== src/ProtoConv/Reorder/Runs.antt =====
-- src/ProtoConv/DelimFragHandler.h: runs of sequence numbers.
use mini_plex.Base.{
  ℕ, suc, ◌+◌, ◌%◌, ◌≤◌, ◌<◌, ◌^◌, ◌≡◌, sym, subst, List, [], ◌∷◌, ◌++◌, length, arith,
}
use mini_plex.Base.Every.{Every}
use mini_plex.Base.Placing.{Differs, Below, Increasing}
use mini_plex.ProtoConv.{Frame}
use mini_plex.ProtoConv.Reorder.Circular.{offset, IsWithin}
use mini_plex.ProtoConv.Reorder.Sequence.{IsRun}

pub IsRun-append : (a b c : ℕ) (w v : List Frame) → IsRun a w b → IsRun b v c → IsRun a (w ++ v) c
unfolding IsRun
IsRun-append a b c [] v h k = subst (λ x. IsRun x v c) (sym h) k
IsRun-append a b c (f ∷ w) v (h, i) k = (h, IsRun-append ((a + 1) % 2 ^ 32) b c w v i k)

pub IsRun-rest : (a b c : ℕ) (w v : List Frame) → IsRun a w b → IsRun a (w ++ v) c → IsRun b v c
unfolding IsRun
IsRun-rest a b c [] v h k = subst (λ x. IsRun x v c) h k
IsRun-rest a b c (f ∷ w) v (h, i) (j, k) = IsRun-rest ((a + 1) % 2 ^ 32) b c w v i k

module _ (e n : ℕ) (start : e < 2 ^ 32) (window : n ≤ 0x7fffffff) where
  next_number : (i : ℕ) → ((e + i) % 2 ^ 32 + 1) % 2 ^ 32 ≡ (e + suc i) % 2 ^ 32
  next_number i = omega arith

  offset_number : (i : ℕ) (f : Frame) → i < n → f.seq ≡ (e + i) % 2 ^ 32 → offset e f ≡ i
  offset_number i f h k = omega arith

  pub run-Every :
      (i x : ℕ) (w : List Frame)
      → i + length w ≤ n
      → IsRun ((e + i) % 2 ^ 32) w x
      → Every (IsWithin e n) w
  unfolding IsRun Every
  run-Every i x [] l v = tt
  run-Every i x (f ∷ w) l (h, v) =
      let o = offset_number i f (omega arith) h in
      (
        record { inside = omega (arith, o, l); word = omega (arith, h) },
        run-Every (suc i) x w (omega arith) (subst (λ a. IsRun a w x) (next_number i) v),
      )

  pub run-Increasing :
      (i x : ℕ) (w : List Frame)
      → i + length w ≤ n
      → IsRun ((e + i) % 2 ^ 32) w x
      → Increasing (offset e) i w
  unfolding IsRun Increasing
  run-Increasing i x [] l v = tt
  run-Increasing i x (f ∷ w) l (h, v) =
      let o = offset_number i f (omega arith) h in
      rw o (
        omega arith,
        run-Increasing (suc i) x w (omega arith) (subst (λ a. IsRun a w x) (next_number i) v),
      )

  -- A number that differs from those of a run comes after them.
  pub run-Below :
      (i x p : ℕ) (w : List Frame)
      → i + length w ≤ n
      → IsRun ((e + i) % 2 ^ 32) w x
      → Differs (offset e) p w
      → i ≤ p
      → Below (offset e) p w
  unfolding IsRun Differs Below
  run-Below i x p [] l v d h = tt
  run-Below i x p (f ∷ w) l (k, v) (c, d) h =
      let o = offset_number i f (omega arith) k in
      let less : i < p = omega (arith, o, c, h) in
      (
        omega (arith, o, less),
        run-Below (suc i) x p w (omega arith) (subst (λ a. IsRun a w x) (next_number i) v) d less,
      )

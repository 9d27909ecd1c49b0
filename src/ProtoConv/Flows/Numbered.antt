-- ===== src/ProtoConv/Flows/Numbered.antt =====
-- src/ProtoConv/DNP3FragHandler.cpp: the fragments of a message, numbered.
use mini_plex.Base.{
  ℕ, suc, ◌+◌, ◌%◌, ◌≤◌, ◌<◌, ◌≡◌, refl, false, List, [], ◌∷◌, length, ◌==◌, arith,
}
use mini_plex.Base.Placing.{Increasing}
use mini_plex.ProtoConv.{Frame}
use mini_plex.ProtoConv.Flows.Flags.{firs, fins}
use mini_plex.ProtoConv.Flows.Message.{position, AllParts}

-- The fragments of a message from number `i` on, of `n` with the sequence numbers from `start` on.
unfoldable pub IsNumbered : ℕ → ℕ → ℕ → List Frame → Type 0
IsNumbered start n i [] = i ≡ n
IsNumbered start n i (f ∷ fs) =
    (f.seq ≡ (start + i) % 64)
    × (f.fir ≡ (i == 0))
    × (f.fin ≡ (suc i == n))
    × IsNumbered start n (suc i) fs

module _ (start n : ℕ) (s : start < 64) (most : n ≤ 34) where
  numbered_position : (f : Frame) (i : ℕ) → i < n → f.seq ≡ (start + i) % 64 → position start f ≡ i
  numbered_position f i h e = omega arith

  IsNumbered-le : (i : ℕ) (fs : List Frame) → IsNumbered start n i fs → i + length fs ≡ n
  unfolding IsNumbered
  IsNumbered-le i [] v = omega arith
  IsNumbered-le i (f ∷ fs) (a, b, c, v) = omega (arith, IsNumbered-le (suc i) fs v)

  pub IsNumbered-AllParts :
      (i : ℕ) (fs : List Frame) → IsNumbered start n i fs → AllParts start n fs
  unfolding IsNumbered AllParts
  IsNumbered-AllParts i [] v = tt
  IsNumbered-AllParts i (f ∷ fs) (a, b, c, v) =
      let l : i < n = omega (arith, IsNumbered-le (suc i) fs v) in
      let p = numbered_position f i l a in
      (
        record {
          inside = omega (arith, p, l);
          number = omega (arith, a);
          first = rw p b;
          last = rw p c;
        },
        IsNumbered-AllParts (suc i) fs v,
      )

  pub IsNumbered-Increasing :
      (i : ℕ) (fs : List Frame) → IsNumbered start n i fs → Increasing (position start) i fs
  unfolding IsNumbered Increasing
  IsNumbered-Increasing i [] v = tt
  IsNumbered-Increasing i (f ∷ fs) (a, b, c, v) =
      let l : i < n = omega (arith, IsNumbered-le (suc i) fs v) in
      rw (numbered_position f i l a) (omega arith, IsNumbered-Increasing (suc i) fs v)

  IsNumbered-firs : (i : ℕ) (fs : List Frame) → IsNumbered start n (suc i) fs → firs fs ≡ 0
  unfolding IsNumbered firs
  IsNumbered-firs i [] v = refl
  IsNumbered-firs i (f ∷ fs) (a, b, c, v) = rw (b, IsNumbered-firs (suc i) fs v) (ground arith)

  pub IsNumbered-fins : (i : ℕ) (fs : List Frame) → IsNumbered start n i fs → i < n → fins fs ≡ 1
  unfolding IsNumbered fins
  IsNumbered-fins i [] v h = ground arith
  IsNumbered-fins i (f ∷ []) (a, b, c, v) h = rw c (ground (arith, v))
  IsNumbered-fins i (f ∷ g ∷ fs) (a, b, c, v) h =
      let l = IsNumbered-le (suc i) (g ∷ fs) v in
      let other : (suc i == n) ≡ false = ground (arith, l) in
      rw (c, other) (omega (arith, IsNumbered-fins (suc i) (g ∷ fs) v (omega (arith, l))))

  pub IsNumbered-one_first :
      (ms : List Frame) → 0 < length ms → IsNumbered start n 0 ms → firs ms ≡ 1
  unfolding IsNumbered firs
  IsNumbered-one_first [] h v = ground arith
  IsNumbered-one_first (f ∷ fs) h (a, b, c, v) = rw (b, IsNumbered-firs 0 fs v) refl

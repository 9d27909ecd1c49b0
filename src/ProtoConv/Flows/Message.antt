-- ===== src/ProtoConv/Flows/Message.antt =====
-- src/ProtoConv/DNP3FragHandler.h: the fragments of one message, and the order of `FragCmp` on them.
use mini_plex.Base.{
  ℕ, suc, ◌+◌, ◌-◌, ◌%◌, ◌≤◌, ◌<◌, ◌^◌, ◌≡◌, ◌≢◌, refl, inl, inr, Bool, true, false, not, List, [],
  ◌∷◌, ◌==◌, ltb, if◌then◌else◌, Bool-cases, arith,
}
use mini_plex.Base.Placing.{place, Differs}
use mini_plex.ProtoConv.{Frame}
use mini_plex.ProtoConv.Flows.{frag_cmp, emplace_frag}

-- The position of a fragment in a message whose first sequence number is `start`.
abbrev pub position : ℕ → Frame → ℕ
position start f = (f.seq + 64 - start) % 64

-- A fragment of a message of `n` fragments.
pub record IsPart (start n : ℕ) (f : Frame) : Type 0 where
  pub inside : position start f < n
  pub number : f.seq < 64
  pub first : f.fir ≡ (position start f == 0)
  pub last : f.fin ≡ (suc (position start f) == n)

unfoldable pub AllParts : ℕ → ℕ → List Frame → Type 0
AllParts start n [] = Unit
AllParts start n (f ∷ fs) = IsPart start n f × AllParts start n fs

-- The tests of `FragCmp` on positions, and `rest` for fragments in the middle.
compare_positions :
    (i j n : ℕ) (rest : Bool)
    → i < n
    → j < n
    → i ≢ j
    → (i + 1 < n → j + 1 < n → 0 < i → 0 < j → rest ≡ ltb j i)
    → (if j == 0
        then true
        else if i == 0
        then false
        else if suc j == n
        then false
        else if suc i == n
        then true
        else rest)
      ≡ ltb j i
compare_positions i j n rest h l d m = ground arith

module _ (start n : ℕ) (s : start < 64) (size : n ≤ 34) where
  -- Fragments in the middle of a message.
  middle :
      (l r : Frame)
      → l.seq < 64
      → r.seq < 64
      → position start l + 1 < n
      → position start r + 1 < n
      → 0 < position start l
      → 0 < position start r
      → position start l ≢ position start r
      → (if ltb r.seq l.seq
          then ltb (l.seq - r.seq) ((r.seq + 64 + 2 ^ 64 - l.seq) % 2 ^ 64)
          else not (ltb (r.seq - l.seq) ((l.seq + 64 + 2 ^ 64 - r.seq) % 2 ^ 64)))
        ≡ ltb (position start r) (position start l)
  middle l r a b c d e f h = ground arith

  -- `FragCmp` is the order of the positions.
  frag_cmp-position :
      (l r : Frame)
      → IsPart start n l
      → IsPart start n r
      → position start l ≢ position start r
      → frag_cmp l r ≡ ltb (position start r) (position start l)
  unfolding frag_cmp
  frag_cmp-position l r v w h =
      rw (w.first, v.first, w.last, v.last)
        (compare_positions (position start l) (position start r) n _ v.inside w.inside h
          (λ a b c d. middle l r v.number w.number a b c d h))

  -- The queue keeps the order of the positions.
  pub emplace_frag-place :
      (f : Frame) (q : List Frame)
      → IsPart start n f
      → AllParts start n q
      → Differs (position start) (position start f) q
      → emplace_frag f q ≡ place (position start) f q
  unfolding emplace_frag place AllParts Differs
  emplace_frag-place f [] v w d = refl
  emplace_frag-place f (g ∷ q) v (u, w) (h, d) =
      rw (frag_cmp-position g f u v h, emplace_frag-place f q v w d) refl

  pub emplace_frag-AllParts :
      (f : Frame) (q : List Frame)
      → IsPart start n f
      → AllParts start n q
      → AllParts start n (emplace_frag f q)
  unfolding emplace_frag AllParts
  emplace_frag-AllParts f [] v w = (v, tt)
  emplace_frag-AllParts f (g ∷ q) v (u, w) = elim (Bool-cases (frag_cmp g f)) [
    | inl e ↦ rw e (v, (u, w))
    | inr e ↦ rw e (u, emplace_frag-AllParts f q v w)
  ]

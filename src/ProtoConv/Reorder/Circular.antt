-- ===== src/ProtoConv/Reorder/Circular.antt =====
-- src/ProtoConv/DelimFragHandler.h: the order of `FrameCmp` on the frames of one run of sequence
-- numbers, which may wrap around.
use mini_plex.Base.{
  ℕ, ◌+◌, ◌-◌, ◌%◌, ◌≤◌, ◌<◌, ◌^◌, ◌≡◌, ◌≢◌, refl, not, List, [], ◌∷◌, ltb, if◌then◌else◌, arith,
}
use mini_plex.Base.Every.{Every}
use mini_plex.Base.Placing.{place, Differs}
use mini_plex.ProtoConv.{Frame}
use mini_plex.ProtoConv.Reorder.{frame_cmp, emplace}

-- The place of a frame in a run that begins with the sequence number `e`.
abbrev pub offset : ℕ → Frame → ℕ
offset e f = (f.seq + 2 ^ 32 - e) % 2 ^ 32

-- The frame is one of the `n` from the sequence number `e` on.
pub record IsWithin (e n : ℕ) (f : Frame) : Type 0 where
  pub inside : offset e f < n
  pub word : f.seq < 2 ^ 32

-- `FrameCmp` on numbers.
circular :
    (e n l r : ℕ)
    → e < 2 ^ 32
    → n ≤ 0x7fffffff
    → l < 2 ^ 32
    → r < 2 ^ 32
    → (l + 2 ^ 32 - e) % 2 ^ 32 < n
    → (r + 2 ^ 32 - e) % 2 ^ 32 < n
    → (l + 2 ^ 32 - e) % 2 ^ 32 ≢ (r + 2 ^ 32 - e) % 2 ^ 32
    → (if ltb r l then ltb (l - r) 0x7fffffff else not (ltb (r - l) 0x7fffffff))
      ≡ ltb ((r + 2 ^ 32 - e) % 2 ^ 32) ((l + 2 ^ 32 - e) % 2 ^ 32)
circular e n l r a b c d h k m = ground arith

module _ (e n : ℕ) (start : e < 2 ^ 32) (window : n ≤ 0x7fffffff) where
  frame_cmp-offset :
      (l r : Frame)
      → IsWithin e n l
      → IsWithin e n r
      → offset e l ≢ offset e r
      → frame_cmp l r ≡ ltb (offset e r) (offset e l)
  unfolding frame_cmp
  frame_cmp-offset l r v w h =
      circular e n l.seq r.seq start window v.word w.word v.inside w.inside h

  -- The queue keeps the order of the run.
  pub emplace-place :
      (f : Frame) (q : List Frame)
      → IsWithin e n f
      → Every (IsWithin e n) q
      → Differs (offset e) (offset e f) q
      → emplace f q ≡ place (offset e) f q
  unfolding emplace place Every Differs
  emplace-place f [] v w d = refl
  emplace-place f (g ∷ q) v (u, w) (h, d) =
      rw (frame_cmp-offset g f u v h, emplace-place f q v w d) refl

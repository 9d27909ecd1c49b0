-- ===== src/ProtoConv/Reorder/InTime.antt =====
-- src/ProtoConv/DelimFragHandler.h: calls while the queue is neither too long nor too late.
use mini_plex.Base.{
  ℕ, ◌+◌, ◌-◌, ◌%◌, ◌≤◌, ◌<◌, ◌^◌, ◌≡◌, ◌⊎◌, ap, ◌∙◌, inl, inr, true, List, [], ◌∷◌, map, length,
  ◌==◌, Bool-cases, arith,
}
use mini_plex.Base.Every.{Every}
use mini_plex.ProtoConv.{Frame}
use mini_plex.ProtoConv.Reorder.{
  DelimFragHandler, Write, drain, strip, note_top, start_seq, release,
}
use mini_plex.ProtoConv.Reorder.Circular.{IsWithin}
use mini_plex.ProtoConv.Reorder.Sequence.{note_top-kept, start_seq-jump}

-- After the first call of a time, the top has not waited for longer.
unfoldable pub IsTimely : ℕ → ℕ → ℕ → DelimFragHandler → Type 0
IsTimely e n from s = (n ≤ (s.last_top_seq + 2 ^ 32 - e) % 2 ^ 32) ⊎ (from ≤ s.latest_top_change)

-- A call that finds its queue neither too long nor too late.
pub record InTime (from : ℕ) (q : List Frame) (s : DelimFragHandler)
    (r : DelimFragHandler × List Write) : Type 0 where
  pub writes : r.1 ≡ map strip (drain s.expected_seq q).0
  pub left : r.0.frame_q ≡ (drain s.expected_seq q).1.0
  pub next : r.0.expected_seq ≡ (drain s.expected_seq q).1.1
  pub same_max : r.0.seq_max_q ≡ s.seq_max_q
  pub same_span : r.0.seq_max_tms ≡ s.seq_max_tms
  pub timely : from ≤ r.0.latest_top_change

module _ (e n : ℕ) (start : e < 2 ^ 32) (window : n ≤ 0x7fffffff) where
  note_top-timely :
      (from now : ℕ) (top : Frame) (s : DelimFragHandler)
      → from ≤ now
      → IsWithin e n top
      → IsTimely e n from s
      → from ≤ (note_top now top s).latest_top_change
  unfolding note_top IsTimely
  note_top-timely from now top s h v w = elim (Bool-cases (top.seq == s.last_top_seq)) [
    | inl a ↦ rw a (seen w a)
    | inr a ↦ rw a h
  ]
    where
      seen :
          (n ≤ (s.last_top_seq + 2 ^ 32 - e) % 2 ^ 32) ⊎ (from ≤ s.latest_top_change)
          → (top.seq == s.last_top_seq) ≡ true
          → from ≤ s.latest_top_change
      seen (inl b) a =
          let same : top.seq ≡ s.last_top_seq = ground arith in
          absurd (omega (arith, v.inside, ap (λ k. (k + 2 ^ 32 - e) % 2 ^ 32) same, b))
      seen (inr b) a = b

  pub release-InTime :
      (from now : ℕ) (q : List Frame) (s : DelimFragHandler)
      → 0 < length q
      → length q ≤ s.seq_max_q
      → Every (IsWithin e n) q
      → from ≤ now
      → now ≤ from + s.seq_max_tms
      → IsTimely e n from s
      → InTime from q s (release now q s)
  unfolding release Every
  release-InTime from now [] s p l v h m w = ground arith
  release-InTime from now (top ∷ q) s p l (v, vs) h m w =
      let s₁ = record s { frame_q = top ∷ q } in
      let t = note_top now top s₁ in
      let kept = note_top-kept now top s₁ in
      let since : from ≤ t.latest_top_change =
        note_top-timely from now top s₁ h v (unfold IsTimely in w) in
      let begins : start_seq now top t ≡ s.expected_seq = elim (start_seq-jump now top t) [
        | inl j ↦ j ∙ kept.2
        | inr (inl j) ↦ absurd (omega (arith, j, kept.0, ap length kept.3, l))
        | inr (inr j) ↦ absurd (omega (arith, j, kept.1, since, m))
      ] in
      record {
        writes = ap (λ k. map strip (drain k (top ∷ q)).0) begins;
        left = ap (λ k. (drain k (top ∷ q)).1.0) begins;
        next = ap (λ k. (drain k (top ∷ q)).1.1) begins;
        same_max = kept.0;
        same_span = kept.1;
        timely = since;
      }

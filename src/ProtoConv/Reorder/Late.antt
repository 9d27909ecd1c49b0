-- ===== src/ProtoConv/Reorder/Late.antt =====
-- src/ProtoConv/DelimFragHandler.h: a frame that comes too late.
use mini_plex.Base.{
  ℕ, ◌+◌, ◌≤◌, ◌<◌, ◌%◌, ◌^◌, ◌≡◌, ◌≢◌, refl, true, false, not, ◌||◌, [], ◌∷◌, ◌==◌, ltb, arith,
}
use mini_plex.ProtoConv.{Frame}
use mini_plex.ProtoConv.Reorder.{
  DelimFragHandler, frame_cmp, emplace, drain, note_top, start_seq, is_stuck, release, handle_frame,
  handle_all, is_framed,
}

late_waits :
    (now : ℕ) (f : Frame) (s : DelimFragHandler)
    → s.frame_q ≡ []
    → is_framed f ≡ true
    → f.seq < s.expected_seq
    → s.expected_seq < f.seq + 0x7fffffff
    → s.expected_seq < 2 ^ 32
    → 2 ≤ s.seq_max_q
    → f.seq ≢ s.last_top_seq
    → handle_frame now f s
      ≡ (record s { frame_q = f ∷ []; latest_top_change = now; last_top_seq = f.seq }, [])
unfolding handle_frame release emplace drain start_seq note_top is_stuck
late_waits now f s q h lt near word max other =
    let framed : (not (f.flow == 1) || ltb f.len 10) ≡ false = ground arith in
    let new_top : (f.seq == s.last_top_seq) ≡ false = ground arith in
    let behind : (f.seq == s.expected_seq) ≡ false = ground arith in
    let small : f.seq % 2 ^ 32 ≡ f.seq = omega arith in
    let room : ltb s.seq_max_q 1 ≡ false = ground arith in
    let early : ltb (now + s.seq_max_tms) now ≡ false = ground arith in
    rw (framed, q, new_top, behind, small, room, early, behind) refl

next_waits :
    (now : ℕ) (f g : Frame) (s : DelimFragHandler)
    → s.frame_q ≡ f ∷ []
    → s.last_top_seq ≡ f.seq
    → is_framed g ≡ true
    → f.seq < s.expected_seq
    → s.expected_seq < f.seq + 0x7fffffff
    → g.seq ≡ s.expected_seq
    → 2 ≤ s.seq_max_q
    → now ≤ s.latest_top_change + s.seq_max_tms
    → handle_frame now g s ≡ (record s { frame_q = f ∷ g ∷ [] }, [])
unfolding handle_frame release emplace frame_cmp drain start_seq note_top is_stuck
next_waits now f g s q last h lt near e max m =
    let framed : (not (g.flow == 1) || ltb g.len 10) ≡ false = ground arith in
    let top : frame_cmp f g ≡ false = ground arith in
    let same_top : (f.seq == s.last_top_seq) ≡ true = ground arith in
    let behind : (f.seq == s.expected_seq) ≡ false = ground arith in
    let room : ltb s.seq_max_q 2 ≡ false = ground arith in
    let early : ltb (s.latest_top_change + s.seq_max_tms) now ≡ false = ground arith in
    rw (framed, q, top, same_top, behind, room, early, behind) refl

-- A frame that comes after its sequence number has been passed waits at the top of the empty queue,
-- and the next frame in sequence is not written either, if it comes within `SeqMaxTms`, the queue
-- may hold two frames, and the late frame's number was not the top's before.
pub late_frame_blocks :
    (f g : Frame) (t₁ t₂ : ℕ) (s : DelimFragHandler)
    → s.frame_q ≡ []
    → is_framed f ≡ true
    → is_framed g ≡ true
    → f.seq < s.expected_seq
    → s.expected_seq < f.seq + 0x7fffffff
    → s.expected_seq < 2 ^ 32
    → g.seq ≡ s.expected_seq
    → 2 ≤ s.seq_max_q
    → f.seq ≢ s.last_top_seq
    → t₁ ≤ t₂
    → t₂ ≤ t₁ + s.seq_max_tms
    → let r = handle_all ((t₁, f) ∷ (t₂, g) ∷ []) s in
      (r.1 ≡ []) × (r.0.frame_q ≡ f ∷ g ∷ []) × (r.0.expected_seq ≡ s.expected_seq)
unfolding handle_all
late_frame_blocks f g t₁ t₂ s q h k lt near word e max other l m =
    let a = late_waits t₁ f s q h lt near word max other in
    let b =
      next_waits t₂ f g
        (record s { frame_q = f ∷ []; latest_top_change = t₁; last_top_seq = f.seq }) refl refl k lt
        near e max m in
    rw (a, b) (refl, refl, refl)

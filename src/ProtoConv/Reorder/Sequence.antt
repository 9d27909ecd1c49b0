-- ===== src/ProtoConv/Reorder/Sequence.antt =====
-- src/ProtoConv/DelimFragHandler.h: frames are released in sequence.
use mini_plex.Base.{
  ℕ, suc, ◌+◌, ◌<◌, ◌%◌, ◌^◌, ◌≡◌, ◌≢◌, ◌⊎◌, refl, sym, ap, ◌∙◌, subst, inl, inr, true, false, not,
  ◌||◌, List, [], ◌∷◌, ◌++◌, length, map, ◌==◌, ltb, Bool-cases, arith,
}
use mini_plex.ProtoConv.{Frame}
use mini_plex.ProtoConv.Reorder.Conserved.{length-emplace}
use mini_plex.ProtoConv.Reorder.{
  DelimFragHandler, Write, emplace, drain, strip, note_top, start_seq, is_stuck, release,
  handle_frame, handle_all, is_framed,
}

-- The sequence numbers of the frames are the 32-bit ones from the first number on, and the second
-- number comes after them.
unfoldable pub IsRun : ℕ → List Frame → ℕ → Type 0
IsRun e [] next = e ≡ next
IsRun e (f ∷ fs) next = (f.seq ≡ e) × IsRun ((e + 1) % 2 ^ 32) fs next

-- The queue does not begin with the frame of that sequence number.
unfoldable pub IsBlocked : ℕ → List Frame → Type 0
IsBlocked e [] = Unit
IsBlocked e (f ∷ q) = f.seq ≢ e

pub drain-IsRun : (e : ℕ) (q : List Frame) → IsRun e (drain e q).0 (drain e q).1.1
unfolding drain IsRun
drain-IsRun e [] = refl
drain-IsRun e (f ∷ q) = elim (Bool-cases (f.seq == e)) [
  | inl h ↦ rw h (ground arith, drain-IsRun ((e + 1) % 2 ^ 32) q)
  | inr h ↦ rw h refl
]

pub drain-IsBlocked : (e : ℕ) (q : List Frame) → IsBlocked (drain e q).1.1 (drain e q).1.0
unfolding drain IsBlocked
drain-IsBlocked e [] = tt
drain-IsBlocked e (f ∷ q) = elim (Bool-cases (f.seq == e)) [
  | inl h ↦ rw h (drain-IsBlocked ((e + 1) % 2 ^ 32) q)
  | inr h ↦ rw h (ground arith)
]

pub drain-split : (e : ℕ) (q : List Frame) → (drain e q).0 ++ (drain e q).1.0 ≡ q
unfolding drain
drain-split e [] = refl
drain-split e (f ∷ q) = elim (Bool-cases (f.seq == e)) [
  | inl h ↦ rw h (ap (λ r. f ∷ r) (drain-split ((e + 1) % 2 ^ 32) q))
  | inr h ↦ rw h refl
]

pub note_top-kept :
    (now : ℕ) (top : Frame) (s : DelimFragHandler)
    → ((note_top now top s).seq_max_q ≡ s.seq_max_q)
      × ((note_top now top s).seq_max_tms ≡ s.seq_max_tms)
      × ((note_top now top s).expected_seq ≡ s.expected_seq)
      × ((note_top now top s).frame_q ≡ s.frame_q)
unfolding note_top
note_top-kept now top s = elim (Bool-cases (top.seq == s.last_top_seq)) [
  | inl e ↦ rw e (refl, refl, refl, refl)
  | inr e ↦ rw e (refl, refl, refl, refl)
]

pub start_seq-jump :
    (now : ℕ) (top : Frame) (s : DelimFragHandler)
    → (start_seq now top s ≡ s.expected_seq)
      ⊎ ((s.seq_max_q < length s.frame_q) ⊎ (s.latest_top_change + s.seq_max_tms < now))
unfolding start_seq is_stuck
start_seq-jump now top s = ground arith

-- What a call of `HandleFrame` releases from the queue with the new frame in its place.
pub record Released (now : ℕ) (q : List Frame) (s t : DelimFragHandler) (writes : List Write)
    : Type 0 where
  pub frames : List Frame
  pub start : ℕ
  pub taken : frames ++ t.frame_q ≡ q
  pub stripped : writes ≡ map strip frames
  pub run : IsRun start frames t.expected_seq
  pub blocked : IsBlocked t.expected_seq t.frame_q
  pub jump :
      (start ≡ s.expected_seq)
      ⊎ ((s.seq_max_q < suc (length s.frame_q)) ⊎ (t.latest_top_change + s.seq_max_tms < now))

release-Released :
    (now : ℕ) (q : List Frame) (s : DelimFragHandler)
    → length q ≡ suc (length s.frame_q)
    → Released now q s (release now q s).0 (release now q s).1
release-Released now [] s l = ground arith
release-Released now (top ∷ q) s l =
    let s₁ = record s { frame_q = top ∷ q } in
    let t = note_top now top s₁ in
    let e = start_seq now top t in
    let (max, tms, expected, same) = note_top-kept now top s₁ in
    unfold release in
    record {
      frames = (drain e (top ∷ q)).0;
      start = e;
      taken = drain-split e (top ∷ q);
      stripped = refl;
      run = drain-IsRun e (top ∷ q);
      blocked = drain-IsBlocked e (top ∷ q);
      jump = elim (start_seq-jump now top t) [
        | inl j ↦ inl (j ∙ expected)
        | inr (inl j) ↦ inr (inl (omega (arith, max, ap length same, l)))
        | inr (inr j) ↦ inr (inr (omega (arith, tms)))
      ];
    }

-- A call for a framed frame puts the frame in its place in the queue and takes the first frames of
-- that queue: they have consecutive 32-bit sequence numbers and are written, stripped, in their order;
-- the others stay queued. After it `expected_seq` is the next number, and the queue does not begin
-- with that one. The first number is `expected_seq` before the call, unless more than `SeqMaxQ` frames were queued or
-- the top has not changed for more than `SeqMaxTms`.
pub handle_frame-Released :
    (now : ℕ) (f : Frame) (s : DelimFragHandler)
    → is_framed f ≡ true
    → Released now (emplace f s.frame_q) s (handle_frame now f s).0 (handle_frame now f s).1
unfolding handle_frame
handle_frame-Released now f s h =
    let e : (not (f.flow == 1) || ltb f.len 10) ≡ false = ground arith in
    rw e (release-Released now (emplace f s.frame_q) s (length-emplace f s.frame_q))

-- One frame that is next in sequence, while none waits.
handle_frame-next :
    (now : ℕ) (f : Frame) (s : DelimFragHandler)
    → s.frame_q ≡ []
    → is_framed f ≡ true
    → f.seq ≡ s.expected_seq
    → ((handle_frame now f s).1 ≡ strip f ∷ [])
      × ((handle_frame now f s).0.frame_q ≡ [])
      × ((handle_frame now f s).0.expected_seq ≡ (s.expected_seq + 1) % 2 ^ 32)
unfolding handle_frame release emplace drain start_seq
handle_frame-next now f s q h e = ground arith

unfoldable pub AllFramed : List (ℕ × Frame) → Type 0
AllFramed [] = Unit
AllFramed ((now, f) ∷ fs) = (is_framed f ≡ true) × AllFramed fs

-- While no frame waits: framed frames that arrive in sequence from `expected_seq` on, at whatever
-- times, are all written, stripped, in their order; none waits after them, and `expected_seq` is the
-- next number.
pub handle_all-in_order :
    (fs : List (ℕ × Frame)) (next : ℕ) (s : DelimFragHandler)
    → s.frame_q ≡ []
    → AllFramed fs
    → IsRun s.expected_seq (map (λ p. p.1) fs) next
    → ((handle_all fs s).1 ≡ map (λ p. strip p.1) fs)
      × ((handle_all fs s).0.frame_q ≡ [])
      × ((handle_all fs s).0.expected_seq ≡ next)
unfolding handle_all AllFramed IsRun
handle_all-in_order [] next s q v r = (refl, q, r)
handle_all-in_order ((now, f) ∷ fs) next s q (h, v) (e, r) =
    let (w, q₁, e₁) = handle_frame-next now f s q h e in
    let later =
      handle_all-in_order fs next (handle_frame now f s).0 q₁ v
        (subst (λ n. IsRun n (map (λ p. p.1) fs) next) (sym e₁) r) in
    (
      ap (λ t. t ++ (handle_all fs (handle_frame now f s).0).1) w ∙ ap (λ t. strip f ∷ t) later.0,
      later.1,
      later.2,
    )

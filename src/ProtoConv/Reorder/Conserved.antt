-- ===== src/ProtoConv/Reorder/Conserved.antt =====
-- src/ProtoConv/DelimFragHandler.h: every frame is written once or waits, and few wait.
use mathlib.Core.List.Perm
use mathlib.Core.List.{Perm, perm_middle, perm_append_comm}
use mini_plex.Base.{
  ℕ, suc, ◌+◌, ◌≤◌, ◌<◌, ◌%◌, ◌^◌, ◌≡◌, refl, sym, ap, ◌∙◌, subst, inl, inr, not, ◌||◌, List, [],
  ◌∷◌, ◌++◌, length, map, ◌==◌, ltb, Bool-cases, ltb→lt, map-append, append_assoc, arith,
}
use mini_plex.ProtoConv.{Frame}
use mini_plex.ProtoConv.Reorder.{
  DelimFragHandler, Write, frame_cmp, emplace, new_handler, drain, strip, note_top, start_seq,
  is_stuck, release, handle_frame, handle_all, written,
}

emplace-Perm : (f : Frame) (q : List Frame) → Perm (map strip (emplace f q)) (strip f ∷ map strip q)
unfolding emplace
emplace-Perm f [] = Perm.refl _
emplace-Perm f (g ∷ q) = elim (Bool-cases (frame_cmp g f)) [
  | inl e ↦ rw e (Perm.refl _)
  | inr e ↦ rw e (
      Perm.trans (Perm.cons (strip g) (emplace-Perm f q))
        (Perm.swap (strip f) (strip g) (map strip q)))
]

pub drain-append : (e : ℕ) (q : List Frame) → (drain e q).0 ++ (drain e q).1.0 ≡ q
unfolding drain
drain-append e [] = refl
drain-append e (f ∷ q) = elim (Bool-cases (f.seq == e)) [
  | inl h ↦ rw h (ap (λ t. f ∷ t) (drain-append ((e + 1) % 2 ^ 32) q))
  | inr h ↦ rw h refl
]

release-append :
    (now : ℕ) (q : List Frame) (s : DelimFragHandler)
    → (release now q s).1 ++ map strip (release now q s).0.frame_q ≡ map strip q
unfolding release
release-append now [] s = refl
release-append now (top ∷ q) s =
    let t = note_top now top (record s { frame_q = top ∷ q }) in
    let e = start_seq now top t in
    sym (map-append strip (drain e (top ∷ q)).0 (drain e (top ∷ q)).1.0)
    ∙ ap (map strip) (drain-append e (top ∷ q))

pub handle_frame-Perm :
    (now : ℕ) (f : Frame) (s : DelimFragHandler)
    → Perm
        ((handle_frame now f s).1 ++ map strip (handle_frame now f s).0.frame_q)
        (written f ∷ map strip s.frame_q)
unfolding handle_frame
handle_frame-Perm now f s = elim (Bool-cases (not (f.flow == 1) || ltb f.len 10)) [
  | inl e ↦ rw e (Perm.refl _)
  | inr e ↦ rw (e, release-append now (emplace f s.frame_q) s) (emplace-Perm f s.frame_q)
]

pub swap_front : (xs ys zs : List Write) → Perm (xs ++ (ys ++ zs)) (ys ++ (xs ++ zs))
swap_front xs ys zs =
    subst (λ t. Perm t (ys ++ (xs ++ zs))) (append_assoc xs ys zs)
      (subst (Perm ((xs ++ ys) ++ zs)) (append_assoc ys xs zs)
        (Perm.append (perm_append_comm xs ys) (Perm.refl zs)))

-- Whatever frames arrive, in whatever order and at whatever times: the writes, with the frames that
-- still wait, are the frames that arrived and those that waited before, each exactly once, framed
-- ones without their last ten bytes.
pub handle_all-Perm :
    (fs : List (ℕ × Frame)) (s : DelimFragHandler)
    → Perm
        ((handle_all fs s).1 ++ map strip (handle_all fs s).0.frame_q)
        (map (λ p. written p.1) fs ++ map strip s.frame_q)
unfolding handle_all
handle_all-Perm [] s = Perm.refl _
handle_all-Perm ((now, f) ∷ fs) s =
    let r = handle_frame now f s in
    let later = handle_all-Perm fs r.0 in
    rw (append_assoc r.1 (handle_all fs r.0).1 (map strip (handle_all fs r.0).0.frame_q)) (
      Perm.trans (Perm.append (Perm.refl r.1) later) (
        Perm.trans (swap_front r.1 (map (λ p. written p.1) fs) (map strip r.0.frame_q)) (
          Perm.trans
            (Perm.append (Perm.refl (map (λ p. written p.1) fs)) (handle_frame-Perm now f s))
            (perm_middle (map (λ p. written p.1) fs) (map strip s.frame_q)))))

-- Sequence numbers of 32 bits, as the frame checker makes them.
unfoldable pub AllWords : List Frame → Type 0
AllWords [] = Unit
AllWords (f ∷ fs) = (f.seq < 2 ^ 32) × AllWords fs

emplace-AllWords :
    (f : Frame) (q : List Frame) → f.seq < 2 ^ 32 → AllWords q → AllWords (emplace f q)
unfolding emplace AllWords
emplace-AllWords f [] h v = (h, tt)
emplace-AllWords f (g ∷ q) h (a, v) = elim (Bool-cases (frame_cmp g f)) [
  | inl e ↦ rw e (h, (a, v))
  | inr e ↦ rw e (a, emplace-AllWords f q h v)
]

drain-AllWords : (e : ℕ) (q : List Frame) → AllWords q → AllWords (drain e q).1.0
unfolding drain AllWords
drain-AllWords e [] v = tt
drain-AllWords e (f ∷ q) (a, v) = elim (Bool-cases (f.seq == e)) [
  | inl h ↦ rw h (drain-AllWords ((e + 1) % 2 ^ 32) q v)
  | inr h ↦ rw h (a, v)
]

pub length-emplace : (f : Frame) (q : List Frame) → length (emplace f q) ≡ suc (length q)
unfolding emplace
length-emplace f [] = refl
length-emplace f (g ∷ q) = ground (arith, length-emplace f q)

length-drain : (e : ℕ) (q : List Frame) → length (drain e q).1.0 ≤ length q
unfolding drain
length-drain e [] = omega arith
length-drain e (f ∷ q) = ground (arith, length-drain ((e + 1) % 2 ^ 32) q)

length-drain_head : (f : Frame) (q : List Frame) → length (drain f.seq (f ∷ q)).1.0 ≤ length q
unfolding drain
length-drain_head f q = ground (arith, length-drain ((f.seq + 1) % 2 ^ 32) q)

-- The top is released when the queue is too long.
start_seq-full :
    (now : ℕ) (top : Frame) (s : DelimFragHandler)
    → top.seq < 2 ^ 32
    → s.seq_max_q < length s.frame_q
    → start_seq now top s ≡ top.seq
unfolding start_seq is_stuck
start_seq-full now top s h l = ground arith

length-drain_full :
    (e max : ℕ) (top : Frame) (q : List Frame)
    → (max < suc (length q) → e ≡ top.seq)
    → length q ≤ max
    → length (drain e (top ∷ q)).1.0 ≤ max
length-drain_full e max top q full l = elim (Bool-cases (ltb max (suc (length q)))) [
  | inl h ↦
      subst (λ k. length (drain k (top ∷ q)).1.0 ≤ max) (sym (full (ltb→lt max (suc (length q)) h)))
        (omega (arith, length-drain_head top q))
  | inr h ↦
      let room : suc (length q) ≤ max = ground arith in omega (arith, length-drain e (top ∷ q))
]

note_top-queue :
    (now : ℕ) (top : Frame) (s : DelimFragHandler)
    → ((note_top now top s).seq_max_q ≡ s.seq_max_q) × ((note_top now top s).frame_q ≡ s.frame_q)
unfolding note_top
note_top-queue now top s = elim (Bool-cases (top.seq == s.last_top_seq)) [
  | inl e ↦ rw e (refl, refl)
  | inr e ↦ rw e (refl, refl)
]

-- What stays true of the queue between calls.
unfoldable pub IsBounded : ℕ → DelimFragHandler → Type 0
unfolding AllWords
IsBounded max s = (s.seq_max_q ≡ max) × AllWords s.frame_q × (length s.frame_q ≤ max)

release-IsBounded :
    (now max : ℕ) (q : List Frame) (s : DelimFragHandler)
    → s.seq_max_q ≡ max
    → AllWords q
    → length q ≤ suc max
    → IsBounded max (release now q s).0
unfolding release AllWords IsBounded
release-IsBounded now max [] s m v l = (m, tt, omega arith)
release-IsBounded now max (top ∷ q) s m (h, v) l =
    let s₁ = record s { frame_q = top ∷ q } in
    let t = note_top now top s₁ in
    let (k, same) = note_top-queue now top s₁ in
    let full : max < suc (length q) → start_seq now top t ≡ top.seq =
      λ more. start_seq-full now top t h (omega (arith, ap length same, k, m, more)) in
    (
      k ∙ m,
      drain-AllWords (start_seq now top t) (top ∷ q) (h, v),
      length-drain_full (start_seq now top t) max top q full (omega arith),
    )

handle_frame-IsBounded :
    (now max : ℕ) (f : Frame) (s : DelimFragHandler)
    → f.seq < 2 ^ 32
    → IsBounded max s
    → IsBounded max (handle_frame now f s).0
unfolding handle_frame IsBounded
handle_frame-IsBounded now max f s h v = elim (Bool-cases (not (f.flow == 1) || ltb f.len 10)) [
  | inl e ↦ rw e v
  | inr e ↦
      let (m, w, l) = v in
      rw e (
        release-IsBounded now max (emplace f s.frame_q) s m (emplace-AllWords f s.frame_q h w)
          (omega (arith, length-emplace f s.frame_q)))
]

handle_all-IsBounded :
    (max : ℕ) (fs : List (ℕ × Frame)) (s : DelimFragHandler)
    → AllWords (map (λ p. p.1) fs)
    → IsBounded max s
    → IsBounded max (handle_all fs s).0
unfolding handle_all AllWords
handle_all-IsBounded max [] s w v = v
handle_all-IsBounded max ((now, f) ∷ fs) s (h, w) v =
    handle_all-IsBounded max fs (handle_frame now f s).0 w (handle_frame-IsBounded now max f s h v)

-- The handler from its constructor on, with any frames whose sequence numbers have 32 bits: never
-- more than `SeqMaxQ` frames wait after a call.
pub handle_all-bound :
    (max tms start : ℕ) (fs : List (ℕ × Frame))
    → AllWords (map (λ p. p.1) fs)
    → length (handle_all fs (new_handler max tms start)).0.frame_q ≤ max
unfolding IsBounded AllWords new_handler
handle_all-bound max tms start fs v =
    (handle_all-IsBounded max fs (new_handler max tms start) v (refl, tt, omega arith)).2

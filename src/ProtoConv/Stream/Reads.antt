-- ===== src/ProtoConv/Stream/Reads.antt =====
-- `ProtoConv::RcvStreamHandler`: frames that arrive in any reads.
use mini_plex.Base.{
  ℕ, zero, suc, ◌≤◌, ◌<◌, ◌≡◌, refl, sym, ap, ◌∙◌, subst, inl, inr, List, [], ◌∷◌, ◌++◌, map,
  length, take, drop, Bool-cases, leb, map-append, length-append, append_assoc, append_nil, arith,
}
use mini_plex.Base.Every.{Every}
use native.Mathlib.Nat.{le_refl}
use mini_plex.ProtoConv.{Frame, FrameChecker}
use mini_plex.ProtoConv.Stream.Loop.{
  rcv_loop, rcv_loop-stop, rcv_loop-turn, rcv_stream_handler, taken,
}

pub take_all :
    (xs ys : List ℕ) (k : ℕ) → k ≡ length xs → (take k (xs ++ ys) ≡ xs) × (drop k (xs ++ ys) ≡ ys)
take_all [] ys zero e = (refl, refl)
take_all [] ys (suc k) e = ground arith
take_all (x ∷ xs) ys zero e = ground arith
take_all (x ∷ xs) ys (suc k) e =
    let (t, d) = take_all xs ys k (omega (arith, e)) in (ap (λ t. x ∷ t) t, d)

-- A turn of the loop on a buffer that begins with the bytes of its frame.
pub rcv_loop-found :
    (checker : FrameChecker) (fuel : ℕ) (xs rest : List ℕ) (f : Frame)
    → checker.check_frame (xs ++ rest) ≡ f
    → f.len ≡ length xs
    → 0 < f.len
    → rcv_loop checker (suc fuel) (xs ++ rest) ≡ (
      record f { buf = xs; len = length xs } ∷ (rcv_loop checker fuel rest).0,
      (rcv_loop checker fuel rest).1,
    )
rcv_loop-found checker fuel xs rest f e l p =
    let (t, d) = take_all xs rest f.len l in
    rcv_loop-turn checker fuel (xs ++ rest) (subst (λ g. 0 < g.len) (sym e) p)
    ∙ ap
        (λ g. (
          taken g (xs ++ rest) ∷ (rcv_loop checker fuel (drop g.len (xs ++ rest))).0,
          (rcv_loop checker fuel (drop g.len (xs ++ rest))).1,
        ))
        e
    ∙ ap
        (λ b. (
          record f { buf = b; len = length b }
              ∷ (rcv_loop checker fuel (drop f.len (xs ++ rest))).0,
          (rcv_loop checker fuel (drop f.len (xs ++ rest))).1,
        ))
        t
    ∙ ap
        (λ b. (
          record f { buf = xs; len = length xs } ∷ (rcv_loop checker fuel b).0,
          (rcv_loop checker fuel b).1,
        ))
        d

-- The bytes of a frame as its sender makes it, and the frame that a checker is to find in them.
pub record Sent : Type 0 where
  pub bytes : List ℕ
  pub found : Frame

-- The bytes on the stream.
unfoldable pub joined : List Sent → List ℕ
joined [] = []
joined (s ∷ ss) = s.bytes ++ joined ss

-- The frame as `HandleFrame` receives it.
abbrev pub delivered : Sent → Frame
delivered s = record s.found { buf = s.bytes; len = length s.bytes }

-- The checker finds the frame in its bytes, whatever comes after them, and nothing in a part of them.
pub record IsFound (checker : FrameChecker) (s : Sent) : Type 0 where
  pub whole : (rest : List ℕ) → checker.check_frame (s.bytes ++ rest) ≡ s.found
  pub part :
      (p more : List ℕ) → p ++ more ≡ s.bytes → 0 < length more → (checker.check_frame p).len ≡ 0
  pub size : s.found.len ≡ length s.bytes
  pub filled : 0 < length s.bytes

abbrev pub AllFound : FrameChecker → List Sent → Type 0
AllFound checker = Every (IsFound checker)

-- `RcvStreamHandler` after each read: the frames handed on, and the bytes that stay.
unfoldable pub rcv_all : FrameChecker → List (List ℕ) → List ℕ → List Frame × List ℕ
unfolding rcv_stream_handler
rcv_all checker [] buf = ([], buf)
rcv_all checker (c ∷ chunks) buf =
    let r = rcv_stream_handler checker (buf ++ c) in
    let rest = rcv_all checker chunks r.1 in (r.0 ++ rest.0, rest.1)

-- All bytes that are read.
unfoldable pub bytes_of : List (List ℕ) → List ℕ
bytes_of [] = []
bytes_of (c ∷ chunks) = c ++ bytes_of chunks

pub append_split :
    (a b c d : List ℕ)
    → a ++ b ≡ c ++ d
    → length c ≤ length a
    → (more : List ℕ) × (a ≡ c ++ more) × (more ++ b ≡ d)
append_split a b [] d e l = (a, refl, e)
append_split [] b (y ∷ c) d e l = ground arith
append_split (x ∷ a) b (y ∷ c) d e l =
    let head : x ≡ y = cc in
    let tail : a ++ b ≡ c ++ d = ap (drop 1) e in
    let (more, f, g) = append_split a b c d tail (omega arith) in (more, cc, g)

module _ (checker : FrameChecker) where
  -- What is left after the loop on the first bytes `p` of frames, of which `q` are still to come.
  Left : List Sent → List ℕ → List Frame × List ℕ → Type 0
  Left sent q r =
      (done left : List Sent) × (done ++ left ≡ sent)
      × (r.0 ≡ map delivered done)
      × (r.1 ++ q ≡ joined left)
      × AllFound checker left
      × ((checker.check_frame r.1).len ≡ 0)

  Left-stop :
      (fuel : ℕ) (sent : List Sent) (p q : List ℕ)
      → AllFound checker sent
      → p ++ q ≡ joined sent
      → (checker.check_frame p).len ≡ 0
      → Left sent q (rcv_loop checker fuel p)
  unfolding Left
  Left-stop zero sent p q v h e = unfold rcv_loop in ([], sent, refl, refl, h, v, e)
  Left-stop (suc fuel) sent p q v h e =
      rw (rcv_loop-stop checker fuel p e) ([], sent, refl, refl, h, v, e)

  Left-found :
      (fuel : ℕ) (s : Sent) (ss : List Sent) (more q : List ℕ)
      → IsFound checker s
      → Left ss q (rcv_loop checker fuel more)
      → Left (s ∷ ss) q (rcv_loop checker (suc fuel) (s.bytes ++ more))
  unfolding Left
  Left-found fuel s ss more q v (done, left, a, b, c, d, e) =
      rw
        (rcv_loop-found checker fuel s.bytes more s.found (v.whole more) v.size
          (omega (arith, v.size, v.filled)))
        (s ∷ done, left, ap (λ t. s ∷ t) a, ap (λ t. delivered s ∷ t) b, c, d, e)

  rcv_loop-Left :
      (fuel : ℕ) (sent : List Sent) (p q : List ℕ)
      → AllFound checker sent
      → p ++ q ≡ joined sent
      → length p ≤ fuel
      → Left sent q (rcv_loop checker fuel p)
  unfolding joined Every
  rcv_loop-Left fuel [] [] q v h l =
      Left-stop fuel [] [] q v h (omega (arith, checker.len-check_frame-le []))
  rcv_loop-Left fuel [] (x ∷ p) q v h l = ground arith
  rcv_loop-Left zero (s ∷ ss) p q v h l =
      Left-stop zero (s ∷ ss) p q v h (omega (arith, checker.len-check_frame-le p, l))
  rcv_loop-Left (suc fuel) (s ∷ ss) p q (v, w) h l =
      elim (Bool-cases (leb (length s.bytes) (length p))) [
        | inl e ↦
            let (more, a, b) = append_split p q s.bytes (joined ss) h (ground (arith, e)) in
            let size = ap length a ∙ length-append s.bytes more in
            let rest = rcv_loop-Left fuel ss more q w b (omega (arith, size, l, v.filled)) in
            rw a (Left-found fuel s ss more q v rest)
        | inr e ↦
            let (more, a, b) = append_split s.bytes (joined ss) p q (sym h) (ground (arith, e)) in
            let size = ap length a ∙ length-append p more in
            let nothing = v.part p more (sym a) (ground (arith, size, e)) in
            Left-stop (suc fuel) (s ∷ ss) p q (v, w) h nothing
      ]

  nothing_left :
      (left : List Sent)
      → AllFound checker left
      → (checker.check_frame (joined left)).len ≡ 0
      → left ≡ []
  unfolding joined Every
  nothing_left [] v e = refl
  nothing_left (s ∷ ss) (v, w) e =
      absurd (omega (arith, v.filled, v.size, ap (λ f. f.len) (v.whole (joined ss)), e))

  rcv_all-from :
      (chunks : List (List ℕ)) (sent : List Sent) (buf : List ℕ)
      → AllFound checker sent
      → buf ++ bytes_of chunks ≡ joined sent
      → (checker.check_frame buf).len ≡ 0
      → rcv_all checker chunks buf ≡ (map delivered sent, [])
  unfolding rcv_all bytes_of Left rcv_stream_handler
  rcv_all-from [] sent buf v h e =
      let all : buf ≡ joined sent = sym (append_nil buf) ∙ h in
      let none : sent ≡ [] = nothing_left sent v (rw (sym all) e) in
      rw (all, none) (unfold joined in refl)
  rcv_all-from (c ∷ chunks) sent buf v h e =
      let loop =
        rcv_loop-Left (length (buf ++ c)) sent (buf ++ c) (bytes_of chunks) v
          (append_assoc buf c (bytes_of chunks) ∙ h) (le_refl _) in
      let (done, left, a, b, joined_left, found, stop) = loop in
      let r = rcv_loop checker (length (buf ++ c)) (buf ++ c) in
      let rest = rcv_all-from chunks left r.1 found joined_left stop in
      ap (λ t. (r.0 ++ t.0, t.1)) rest
      ∙ ap (λ t. (t ++ map delivered left, [])) b
      ∙ ap (λ t. (t, [])) (sym (map-append delivered done left) ∙ ap (map delivered) a)

  -- Frames, each found by the checker in its bytes whatever comes after them and not in a part of
  -- them, on a stream without other bytes: however it is split into reads, the stream handler hands
  -- on exactly these frames, in their order, and no byte stays.
  pub rcv_all-Sent :
      (chunks : List (List ℕ)) (sent : List Sent)
      → AllFound checker sent
      → bytes_of chunks ≡ joined sent
      → rcv_all checker chunks [] ≡ (map delivered sent, [])
  rcv_all-Sent chunks sent v h =
      rcv_all-from chunks sent [] v h (omega (arith, checker.len-check_frame-le []))

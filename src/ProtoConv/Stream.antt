-- ===== src/ProtoConv/Stream.antt =====
-- `ProtoConv::RcvStreamHandler`, over the interface of a frame checker: what becomes of the bytes.
mod Loop
pub mod Reads
unfoldable pub use Loop.{rcv_loop, rcv_stream_handler}
pub use Loop.{taken, rcv_loop-stop, rcv_loop-turn}
use Loop.{zero_or_positive, empty_stops, left_after, rcv_loop-fuel}
use mini_plex.Base.{
  ℕ, zero, suc, ◌≤◌, ◌≡◌, ◌<◌, refl, sym, ap, ◌∙◌, inl, inr, false, List, [], ◌∷◌, ◌++◌, length,
  ltb, ◌==◌, take, drop, take-append-drop, take-append, drop-append, append_assoc, length-append,
  subst, length-take, length-drop, if◌then◌else◌, arith,
}
use mini_plex.Base.{◌⊎◌}
use native.Mathlib.Nat.{le_refl}
use mini_plex.ProtoConv.{Frame, FrameChecker}

-- The bytes of a sequence of frames.
unfoldable pub frames_bytes : List Frame → List ℕ
frames_bytes [] = []
frames_bytes (f ∷ fs) = f.buf ++ frames_bytes fs

-- The frames that the stream handler makes carry their bytes, at least one.
unfoldable pub AllFilled : List Frame → Type 0
AllFilled [] = Unit
AllFilled (f ∷ fs) = (f.len ≡ length f.buf) × (0 < f.len) × AllFilled fs

module _ (checker : FrameChecker) where
  Conserved : List ℕ → List Frame × List ℕ → Type 0
  Conserved buf r =
      (frames_bytes r.0 ++ r.1 ≡ buf) × AllFilled r.0 × ((checker.check_frame r.1).len ≡ 0)

  Conserved-turn :
      (buf : List ℕ) (r : List Frame × List ℕ)
      → 0 < (checker.check_frame buf).len
      → Conserved (drop (checker.check_frame buf).len buf) r
      → Conserved buf (taken (checker.check_frame buf) buf ∷ r.0, r.1)
  unfolding Conserved frames_bytes AllFilled
  Conserved-turn buf r h (joined, filled, stop) =
      let n = (checker.check_frame buf).len in
      let some_taken : 0 < length (take n buf) =
        omega (arith, length-take n buf, checker.len-check_frame-le buf) in
      (
        append_assoc (take n buf) (frames_bytes r.0) r.1
            ∙ ap (λ t. take n buf ++ t) joined
            ∙ take-append-drop n buf,
        (refl, some_taken, filled),
        stop,
      )

  rcv_loop-Conserved :
      (fuel : ℕ) (buf : List ℕ) → length buf ≤ fuel → Conserved buf (rcv_loop checker fuel buf)
  rcv_loop-Conserved zero buf l =
      unfold Conserved frames_bytes AllFilled rcv_loop in (refl, tt, empty_stops checker buf l)
  rcv_loop-Conserved (suc fuel) buf l = elim (zero_or_positive (checker.check_frame buf).len) [
    | inl e ↦
        subst (Conserved buf) (sym (rcv_loop-stop checker fuel buf e))
          (unfold Conserved frames_bytes AllFilled in (refl, tt, e))
    | inr h ↦
        subst (Conserved buf) (sym (rcv_loop-turn checker fuel buf h))
          (Conserved-turn buf _ h (rcv_loop-Conserved fuel _ (left_after checker fuel buf l h)))
  ]

  -- For every frame checker whose frames are no longer than the buffer: the bytes of the frames and
  -- then the bytes that stay are the bytes of the buffer, every frame carries as many bytes as it
  -- says and at least one, and the loop ends because no frame is found in the bytes that stay.
  pub rcv_stream_handler-bytes :
      (buf : List ℕ)
      → let r = rcv_stream_handler checker buf in
        (frames_bytes r.0 ++ r.1 ≡ buf) × AllFilled r.0 × ((checker.check_frame r.1).len ≡ 0)
  unfolding rcv_stream_handler Conserved
  rcv_stream_handler-bytes buf = rcv_loop-Conserved (length buf) buf (le_refl _)

-- What stays is no longer than the buffer.
rest_bound :
    (checker : FrameChecker) (buf : List ℕ)
    → length (rcv_loop checker (length buf) buf).1 ≤ length buf
unfolding Conserved
rest_bound checker buf =
    let r = rcv_loop checker (length buf) buf in
    let v = (rcv_loop-Conserved checker (length buf) buf (le_refl _)).0 in
    omega (arith, ap length v, length-append (frames_bytes r.0) r.1)

-- A checker that finds the same frame when more bytes have arrived.
unfoldable pub IsStable : FrameChecker → Type 0
IsStable checker =
    (buf more : List ℕ)
    → 0 < (checker.check_frame buf).len
    → checker.check_frame (buf ++ more) ≡ checker.check_frame buf

-- What two calls of the stream handler, one after the other, make together.
unfoldable pub rcv_twice : FrameChecker → List ℕ → List ℕ → List Frame × List ℕ
unfolding rcv_stream_handler
rcv_twice checker buf more =
    let first = rcv_stream_handler checker buf in
    let second = rcv_stream_handler checker (first.1 ++ more) in (first.0 ++ second.0, second.1)

after_turn : Frame → List Frame × List ℕ → List Frame × List ℕ
after_turn f r = (f ∷ r.0, r.1)

then_more : FrameChecker → ℕ → List ℕ → List Frame × List ℕ → List Frame × List ℕ
then_more checker k more r =
    let second = rcv_loop checker k (r.1 ++ more) in (r.0 ++ second.0, second.1)

module _ (checker : FrameChecker) (stable : IsStable checker) where
  taken-append :
      (buf more : List ℕ)
      → 0 < (checker.check_frame buf).len
      → taken (checker.check_frame (buf ++ more)) (buf ++ more)
        ≡ taken (checker.check_frame buf) buf
  unfolding IsStable
  taken-append buf more h =
      ap (λ f. taken f (buf ++ more)) (stable buf more h)
      ∙ ap (λ t. record (checker.check_frame buf) { buf = t; len = length t })
          (take-append (checker.check_frame buf).len buf more (checker.len-check_frame-le buf))

  dropped-append :
      (buf more : List ℕ)
      → 0 < (checker.check_frame buf).len
      → drop (checker.check_frame (buf ++ more)).len (buf ++ more)
        ≡ drop (checker.check_frame buf).len buf ++ more
  unfolding IsStable
  dropped-append buf more h =
      ap (λ f. drop f.len (buf ++ more)) (stable buf more h)
      ∙ drop-append (checker.check_frame buf).len buf more (checker.len-check_frame-le buf)

  later_stop :
      (n k : ℕ) (buf more : List ℕ)
      → (checker.check_frame buf).len ≡ 0
      → rcv_loop checker k (buf ++ more) ≡ then_more checker k more (rcv_loop checker (suc n) buf)
  later_stop n k buf more e =
      unfold then_more in ap (then_more checker k more) (sym (rcv_loop-stop checker n buf e))

  found_append :
      (buf more : List ℕ)
      → 0 < (checker.check_frame buf).len
      → 0 < (checker.check_frame (buf ++ more)).len
  unfolding IsStable
  found_append buf more p = subst (λ f. 0 < f.len) (sym (stable buf more p)) p

  left_append :
      (k : ℕ) (buf more : List ℕ)
      → 0 < (checker.check_frame buf).len
      → length (buf ++ more) ≤ suc k
      → length (drop (checker.check_frame buf).len buf ++ more) ≤ k
  left_append k buf more p h =
      subst (λ d. length d ≤ k) (dropped-append buf more p)
        (left_after checker k (buf ++ more) h (found_append buf more p))

  rcv_loop-append :
      (n k : ℕ) (buf more : List ℕ)
      → length buf ≤ n
      → length (buf ++ more) ≤ k
      → rcv_loop checker k (buf ++ more) ≡ then_more checker k more (rcv_loop checker n buf)
  unfolding then_more after_turn
  rcv_loop-append zero k [] more l h = unfold then_more rcv_loop in refl
  rcv_loop-append zero k (b ∷ buf) more l h = ground arith
  rcv_loop-append (suc n) zero buf more l h =
      later_stop n zero buf more (empty_stops checker buf (omega (arith, length-append buf more)))
  rcv_loop-append (suc n) (suc k) buf more l h =
      elim (zero_or_positive (checker.check_frame buf).len) [
        | inl e ↦ later_stop n (suc k) buf more e
        | inr p ↦
            let f = taken (checker.check_frame buf) buf in
            let d = drop (checker.check_frame buf).len buf in
            let m = left_append k buf more p h in
            rcv_loop-turn checker k (buf ++ more) (found_append buf more p)
            ∙ ap
                (λ t. (
                  t
                      ∷ (rcv_loop checker k
                          (drop (checker.check_frame (buf ++ more)).len (buf ++ more))).0,
                  (rcv_loop checker k
                      (drop (checker.check_frame (buf ++ more)).len (buf ++ more))).1,
                ))
                (taken-append buf more p)
            ∙ ap (λ t. after_turn f (rcv_loop checker k t)) (dropped-append buf more p)
            ∙ ap (after_turn f) (rcv_loop-fuel checker k (suc k) (d ++ more) m (omega arith))
            ∙ ap (after_turn f)
                (rcv_loop-append n (suc k) d more (left_after checker n buf l p) (omega arith))
            ∙ ap (then_more checker (suc k) more) (sym (rcv_loop-turn checker n buf p))
      ]

  -- For a checker that finds the same frame when more bytes have arrived: two calls of the stream
  -- handler, as the bytes arrive in two parts, make the frames that one call for all of them makes,
  -- and leave the same bytes.
  pub rcv_stream_handler-append :
      (buf more : List ℕ) → rcv_stream_handler checker (buf ++ more) ≡ rcv_twice checker buf more
  unfolding rcv_stream_handler rcv_twice then_more
  rcv_stream_handler-append buf more =
      let first = rcv_loop checker (length buf) buf in
      rcv_loop-append (length buf) (length (buf ++ more)) buf more (le_refl _) (le_refl _)
      ∙ ap (λ r. (first.0 ++ r.0, r.1))
          (rcv_loop-fuel checker (length (buf ++ more)) (length (first.1 ++ more)) (first.1 ++ more)
            (omega
              (arith, rest_bound checker buf, length-append first.1 more, length-append buf more))
            (le_refl _))

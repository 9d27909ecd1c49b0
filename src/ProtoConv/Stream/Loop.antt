-- ===== src/ProtoConv/Stream/Loop.antt =====
-- `ProtoConv::RcvStreamHandler`: the loop, over the interface of a frame checker.
use mini_plex.Base.{
  ℕ, zero, suc, ◌≤◌, ◌≡◌, ◌<◌, refl, sym, ap, ◌∙◌, inl, inr, false, List, [], ◌∷◌, length, ltb,
  ◌==◌, take, drop, length-drop, if◌then◌else◌, arith,
}
use mini_plex.Base.{◌⊎◌}
use mini_plex.ProtoConv.{Frame, FrameChecker}

-- `while(auto frame = CheckFrame(buf))`, at most `fuel` times: the frames handed to `HandleFrame`
-- in their order, and the bytes that stay in the buffer.
unfoldable pub rcv_loop : FrameChecker → ℕ → List ℕ → List Frame × List ℕ
rcv_loop checker zero buf = ([], buf)
rcv_loop checker (suc fuel) buf =
    let f = checker.check_frame buf in
    let n = if ltb (length buf) f.len then length buf else f.len in
    let rest = rcv_loop checker fuel (drop n buf) in
    if f.len == 0
    then ([], buf)
    else (record f { buf = take n buf; len = length (take n buf) } ∷ rest.0, rest.1)

-- A turn of the loop takes a byte at least.
unfoldable pub rcv_stream_handler : FrameChecker → List ℕ → List Frame × List ℕ
unfolding rcv_loop
rcv_stream_handler checker buf = rcv_loop checker (length buf) buf

pub zero_or_positive : (n : ℕ) → (n ≡ 0) ⊎ (0 < n)
zero_or_positive zero = inl refl
zero_or_positive (suc n) = inr (omega arith)

-- The frame as `HandleFrame` receives it.
abbrev pub taken : Frame → List ℕ → Frame
taken f buf = record f { buf = take f.len buf; len = length (take f.len buf) }

module _ (checker : FrameChecker) where
  pub rcv_loop-stop :
      (fuel : ℕ) (buf : List ℕ)
      → (checker.check_frame buf).len ≡ 0
      → rcv_loop checker (suc fuel) buf ≡ ([], buf)
  unfolding rcv_loop
  rcv_loop-stop fuel buf e = rw e

  pub rcv_loop-turn :
      (fuel : ℕ) (buf : List ℕ)
      → 0 < (checker.check_frame buf).len
      → let f = checker.check_frame buf in
        let rest = rcv_loop checker fuel (drop f.len buf) in
        rcv_loop checker (suc fuel) buf ≡ (taken f buf ∷ rest.0, rest.1)
  unfolding rcv_loop
  rcv_loop-turn fuel buf h =
      let e : ((checker.check_frame buf).len == 0) ≡ false = ground arith in
      let i : ltb (length buf) (checker.check_frame buf).len ≡ false =
        ground (arith, checker.len-check_frame-le buf) in
      rw (e, i)

  pub empty_stops : (buf : List ℕ) → length buf ≤ 0 → (checker.check_frame buf).len ≡ 0
  empty_stops buf l = ground (arith, checker.len-check_frame-le buf)

  pub left_after :
      (fuel : ℕ) (buf : List ℕ)
      → length buf ≤ suc fuel
      → 0 < (checker.check_frame buf).len
      → length (drop (checker.check_frame buf).len buf) ≤ fuel
  left_after fuel buf l h = omega (arith, length-drop (checker.check_frame buf).len buf)

  pub rcv_loop-fuel :
      (k n : ℕ) (buf : List ℕ)
      → length buf ≤ k
      → length buf ≤ n
      → rcv_loop checker k buf ≡ rcv_loop checker n buf
  unfolding rcv_loop
  rcv_loop-fuel zero zero buf a b = refl
  rcv_loop-fuel zero (suc n) buf a b = sym (rcv_loop-stop n buf (empty_stops buf a))
  rcv_loop-fuel (suc k) zero buf a b = rcv_loop-stop k buf (empty_stops buf b)
  rcv_loop-fuel (suc k) (suc n) buf a b = elim (zero_or_positive (checker.check_frame buf).len) [
    | inl e ↦ rcv_loop-stop k buf e ∙ sym (rcv_loop-stop n buf e)
    | inr h ↦
        rcv_loop-turn k buf h
        ∙ ap (λ r. (taken (checker.check_frame buf) buf ∷ r.0, r.1))
            (rcv_loop-fuel k n _ (left_after k buf a h) (left_after n buf b h))
        ∙ sym (rcv_loop-turn n buf h)
  ]

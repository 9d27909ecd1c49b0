-- ===== src/ProtoConv/Delim.antt =====
-- The packet delimiter: `ProtoConv::AddDelim` and `DelimFrameChecker::CheckFrame`.
use mini_plex.Base.{
  ℕ, suc, ◌+◌, ◌-◌, ◌≤◌, ◌≢◌, ◌%◌, ◌^◌, ◌<◌, ◌≡◌, refl, sym, ap, ◌∙◌, subst, true, false, ◌&&◌,
  List, [], ◌∷◌, ◌++◌, ◌==◌, length, inl, inr, ltb, leb, Bool-cases, Option-cases, Option, none,
  some, take, drop, length-append, length-drop, take-append, drop-append, if◌then◌else◌, arith,
}
use mini_plex.ProtoConv.{Frame, FrameChecker, frame, frame_of}
use mini_plex.ProtoConv.Bytes.{
  le_bytes, of_le_bytes, same_bytes, same_bytes_self, of_le_bytes_word, of_le_bytes_half,
}
use mini_plex.ProtoConv.Crc.{crc_ccitt, crc_ccitt-lt}

-- The test on the ten bytes at `byte_it - 3`: the sequence number when they are a trailer.
unfoldable pub trailer : ℕ → List ℕ → Option ℕ
trailer delim w =
    if same_bytes (take 4 w) (le_bytes 4 delim)
      && (of_le_bytes (take 2 (drop 8 w)) == crc_ccitt (take 8 w))
    then some (of_le_bytes (take 4 (drop 4 w)))
    else none

-- The loop of `CheckFrame`, with `frame_len` and the bytes from `byte_it - 3` on.
unfoldable pub scan : ℕ → ℕ → List ℕ → Frame
unfolding trailer
scan delim frame_len [] = frame_of 0
scan delim frame_len (b ∷ rest) =
    let next = scan delim (suc frame_len) rest in
    if ltb (length (b ∷ rest)) 10 then frame_of 0 else elim (trailer delim (b ∷ rest)) [
      | some seq ↦ frame frame_len true true 1 seq
      | none ↦ if leb 65536 frame_len then frame frame_len true true 0 0 else next
    ]

-- `DelimFrameChecker::CheckFrame`
unfoldable pub check_frame : ℕ → List ℕ → Frame
unfolding scan
check_frame delim readbuf = if ltb (length readbuf) 10 then frame_of 0 else scan delim 10 readbuf

-- The ten bytes that `AddDelim` inserts.
unfoldable pub delim_bytes : ℕ → ℕ → List ℕ
delim_bytes delim seq =
    let head = le_bytes 4 delim ++ le_bytes 4 seq in head ++ le_bytes 2 (crc_ccitt head)

-- `ProtoConv::AddDelim` on `DelimSeq` and the data: what they are after it.
unfoldable pub add_delim : ℕ → ℕ → List ℕ → ℕ × List ℕ
unfolding delim_bytes
add_delim delim delim_seq payload =
    if delim == 0
    then (delim_seq, payload)
    else ((delim_seq + 1) % 2 ^ 32, payload ++ delim_bytes delim delim_seq)

pub scan-len-le : (delim n : ℕ) (buf : List ℕ) → (scan delim n buf).len ≤ n + length buf - 10
unfolding scan
scan-len-le delim n [] = omega arith
scan-len-le delim n (b ∷ rest) = elim (Option-cases (trailer delim (b ∷ rest))) [
  | inl e ↦ ground (arith, e, scan-len-le delim (suc n) rest)
  | inr (s, e) ↦ ground (arith, e)
]

pub len-check_frame-le : (delim : ℕ) (buf : List ℕ) → (check_frame delim buf).len ≤ length buf
unfolding check_frame
len-check_frame-le delim buf = ground (arith, scan-len-le delim 10 buf)

pub length-delim_bytes : (delim seq : ℕ) → length (delim_bytes delim seq) ≡ 10
unfolding delim_bytes
length-delim_bytes delim seq = refl

==_self : (n : ℕ) → (n == n) ≡ true
==_self n = ground arith

trailer-append :
    (delim : ℕ) (w more : List ℕ) → 10 ≤ length w → trailer delim (w ++ more) ≡ trailer delim w
unfolding trailer
trailer-append delim w more l = rw (
  take-append 4 w more (omega arith),
  take-append 8 w more (omega arith),
  drop-append 4 w more (omega arith),
  drop-append 8 w more (omega arith),
  take-append 4 (drop 4 w) more (omega (arith, length-drop 4 w)),
  take-append 2 (drop 8 w) more (omega (arith, length-drop 8 w)),
)

-- What `scan` returns at a position with ten bytes, by the trailer found there.
scan_outcome : ℕ → Option ℕ → Frame → Frame
scan_outcome n (some seq) next = frame n true true 1 seq
scan_outcome n none next = if leb 65536 n then frame n true true 0 0 else next

scan_step :
    (delim n b : ℕ) (rest : List ℕ)
    → ltb (length (b ∷ rest)) 10 ≡ false
    → scan delim n (b ∷ rest) ≡ scan_outcome n (trailer delim (b ∷ rest)) (scan delim (suc n) rest)
unfolding scan scan_outcome
scan_step delim n b rest l = elim (Option-cases (trailer delim (b ∷ rest))) [
  | inl t ↦ rw (l, t)
  | inr (s, t) ↦ rw (l, t)
]

long-append :
    (buf more : List ℕ) → ltb (length buf) 10 ≡ false → ltb (length (buf ++ more)) 10 ≡ false
long-append buf more l = ground (arith, length-append buf more)

scan_outcome-stable :
    (n : ℕ) (t : Option ℕ) (next after : Frame)
    → (0 < next.len → after ≡ next)
    → 0 < (scan_outcome n t next).len
    → scan_outcome n t after ≡ scan_outcome n t next
unfolding scan_outcome
scan_outcome-stable n (some seq) next after same h = refl
scan_outcome-stable n none next after same h = elim (Bool-cases (leb 65536 n)) [
  | inl e ↦ rw e
  | inr e ↦ let h1 : 0 < next.len = rw e at h in rw (e, same h1)
]

scan_stable :
    (delim n : ℕ) (buf more : List ℕ)
    → 0 < (scan delim n buf).len
    → scan delim n (buf ++ more) ≡ scan delim n buf
scan_stable delim n [] more h = unfold scan in ground arith
scan_stable delim n (b ∷ rest) more h = elim (Bool-cases (ltb (length (b ∷ rest)) 10)) [
  | inl e ↦ let h1 : 0 < 0 = unfold scan in rw e at h in ground arith
  | inr e ↦
      let t = trailer-append delim (b ∷ rest) more (ground (arith, e)) in
      let h1 = subst (λ f. 0 < f.len) (scan_step delim n b rest e) h in
      scan_step delim n b (rest ++ more) (long-append (b ∷ rest) more e)
      ∙ ap (λ o. scan_outcome n o (scan delim (suc n) (rest ++ more))) t
      ∙ scan_outcome-stable n (trailer delim (b ∷ rest)) _ _ (scan_stable delim (suc n) rest more)
          h1
      ∙ sym (scan_step delim n b rest e)
]

-- A frame once found is found again when more bytes have arrived.
pub check_frame_stable :
    (delim : ℕ) (buf more : List ℕ)
    → 0 < (check_frame delim buf).len
    → check_frame delim (buf ++ more) ≡ check_frame delim buf
unfolding check_frame
check_frame_stable delim buf more h = elim (Bool-cases (ltb (length buf) 10)) [
  | inl e ↦ let h1 : 0 < 0 = rw e at h in ground arith
  | inr e ↦
      let h1 : 0 < (scan delim 10 buf).len = rw e at h in
      rw (e, long-append buf more e, scan_stable delim 10 buf more h1)
]

-- No ten bytes that begin in the payload are a trailer, with `tail` after it.
unfoldable pub HasNoTrailer : ℕ → List ℕ → List ℕ → Type 0
HasNoTrailer delim tail [] = Unit
HasNoTrailer delim tail (b ∷ rest) =
    (trailer delim (b ∷ rest ++ tail) ≡ none) × HasNoTrailer delim tail rest

trailer-delim_bytes :
    (delim seq : ℕ) → seq < 2 ^ 32 → trailer delim (delim_bytes delim seq) ≡ some seq
unfolding trailer delim_bytes
trailer-delim_bytes delim seq h =
    let crc =
      of_le_bytes_half (crc_ccitt (le_bytes 4 delim ++ le_bytes 4 seq))
        (crc_ccitt-lt (le_bytes 4 delim ++ le_bytes 4 seq)) in
    rw (
      same_bytes_self (le_bytes 4 delim),
      crc,
      ==_self (crc_ccitt (le_bytes 4 delim ++ le_bytes 4 seq)),
      of_le_bytes_word seq h,
    )

outcome_hit :
    (n seq : ℕ) (next : Frame) → scan_outcome n (some seq) next ≡ frame (n + 0) true true 1 seq
unfolding scan_outcome
outcome_hit n seq next = ap (λ k. frame k true true 1 seq) (omega arith)

outcome_miss : (n : ℕ) (next : Frame) → n < 65536 → scan_outcome n none next ≡ next
unfolding scan_outcome
outcome_miss n next h = let e : leb 65536 n ≡ false = ground arith in rw e

scan_ten :
    (delim n seq : ℕ) (w : List ℕ)
    → length w ≡ 10
    → trailer delim w ≡ some seq
    → scan delim n w ≡ frame (n + 0) true true 1 seq
scan_ten delim n seq [] l t = ground arith
scan_ten delim n seq (b ∷ rest) l t =
    scan_step delim n b rest (ground arith)
    ∙ ap (λ o. scan_outcome n o (scan delim (suc n) rest)) t
    ∙ outcome_hit n seq (scan delim (suc n) rest)

scan_finds :
    (delim n seq : ℕ) (payload : List ℕ)
    → seq < 2 ^ 32
    → n + length payload ≤ 65536
    → HasNoTrailer delim (delim_bytes delim seq) payload
    → scan delim n (payload ++ delim_bytes delim seq) ≡ frame (n + length payload) true true 1 seq
unfolding HasNoTrailer
scan_finds delim n seq [] h l v =
    scan_ten delim n seq (delim_bytes delim seq) (length-delim_bytes delim seq)
      (trailer-delim_bytes delim seq h)
scan_finds delim n seq (b ∷ rest) h l (t, v) =
    let size = length-append rest (delim_bytes delim seq) in
    scan_step delim n b (rest ++ delim_bytes delim seq)
      (ground (arith, size, length-delim_bytes delim seq))
    ∙ ap (λ o. scan_outcome n o (scan delim (suc n) (rest ++ delim_bytes delim seq))) t
    ∙ outcome_miss n _ (omega arith)
    ∙ scan_finds delim (suc n) seq rest h (omega arith) v
    ∙ ap (λ k. frame k true true 1 seq) (omega arith)

-- When `AddDelim` has added its trailer, for a delimiter that is not 0 and a 32-bit sequence
-- number, to a datagram of at most 65,526 bytes, and no ten bytes that begin in the payload are
-- themselves a valid trailer, `CheckFrame` finds the datagram with its trailer as one frame, with
-- that sequence number, whatever bytes follow.
pub check_frame-add_delim :
    (delim seq : ℕ) (payload rest : List ℕ)
    → delim ≢ 0
    → seq < 2 ^ 32
    → length payload ≤ 65526
    → HasNoTrailer delim (delim_bytes delim seq) payload
    → check_frame delim ((add_delim delim seq payload).1 ++ rest)
      ≡ frame (10 + length payload) true true 1 seq
unfolding check_frame add_delim
check_frame-add_delim delim seq payload rest d h l v =
    let d1 : (delim == 0) ≡ false = ground arith in
    let sent = payload ++ delim_bytes delim seq in
    let found = scan_finds delim 10 seq payload h (omega arith) v in
    let size = length-append payload (delim_bytes delim seq) in
    let long : ltb (length sent) 10 ≡ false = ground (arith, size, length-delim_bytes delim seq) in
    let some_len : 0 < (scan delim 10 sent).len =
      subst (λ f. 0 < f.len) (sym found) (omega arith) in
    rw (d1, long-append sent rest long, scan_stable delim 10 sent rest some_len, found)

-- `DelimFrameChecker` for a delimiter.
abbrev pub delim_checker : ℕ → FrameChecker
delim_checker delim = record {
  check_frame = check_frame delim;
  len-check_frame-le = len-check_frame-le delim;
}

-- ===== src/ProtoConv/Dnp3/Arriving.antt =====
-- src/ProtoConv/DNP3FrameChecker.cpp: the frames of a sender, while they arrive in any reads.
use mini_plex.Base.{
  ℕ, ◌+◌, ◌*◌, ◌≤◌, ◌<◌, ◌^◌, ◌≡◌, refl, sym, ap, ◌∙◌, inl, inr, Bool, true, List, [], ◌∷◌, ◌++◌,
  length, drop, leb, length-append, Bool-cases, arith,
}
use mini_plex.ProtoConv.{frame}
use mini_plex.ProtoConv.Stream.Reads.{Sent, IsFound, append_split}
use mini_plex.ProtoConv.Dnp3.{
  full_length, crc_checked_length, check_body, dnp3_check_frame, start_bytes_offset, scan_start,
}
use mini_plex.ProtoConv.Dnp3.Lengths.{dnp3_checker}
use mini_plex.ProtoConv.Dnp3.Encode.{with_crc, kept, crc_check-with_crc, link_frame, fragment}
use mini_plex.ProtoConv.Dnp3.RoundTrip.{
  header, blocks, length-link_frame, check-link_frame, src_dst-link_frame,
  dnp3_check_frame-fragment,
}

-- The start bytes are found as soon as they arrive.
start-part : (p more rest : List ℕ) → p ++ more ≡ 0x05 ∷ 0x64 ∷ rest → start_bytes_offset p ≡ 0
unfolding start_bytes_offset scan_start
start-part [] more rest e = refl
start-part (a ∷ []) more rest e = ground (arith, e)
start-part (a ∷ b ∷ p) more rest e =
    let first : a ≡ 0x05 = cc in let second : b ≡ 0x64 = cc in rw (first, second) refl

module _ (control dst src : ℕ) (user_data : List ℕ) where
  -- The header tells how many bytes to wait for.
  length-part :
      (p more : List ℕ)
      → p ++ more ≡ link_frame control dst src user_data
      → 10 ≤ length p
      → crc_checked_length p ≡ full_length (5 + length user_data)
  unfolding link_frame crc_checked_length kept
  length-part p more e l =
      let head = with_crc (header control dst src user_data) in
      let (rest, a, b) = append_split p more head (blocks control dst src user_data) e l in
      let good = crc_check-with_crc 0x05 (drop 1 (header control dst src user_data)) rest p 0 2 a in
      rw good refl

  start-sent :
      (p more : List ℕ)
      → p ++ more ≡ link_frame control dst src user_data
      → start_bytes_offset p ≡ 0
  unfolding link_frame with_crc
  start-sent p more e = start-part p more _ e

  part-nothing :
      (p more : List ℕ)
      → length user_data ≤ 250
      → p ++ more ≡ link_frame control dst src user_data
      → 0 < length more
      → (dnp3_check_frame p).len ≡ 0
  unfolding dnp3_check_frame check_body
  part-nothing p more h e l =
      let start : start_bytes_offset p ≡ 0 = start-sent p more e in
      let size = ap length e ∙ length-link_frame control dst src user_data h in
      elim (Bool-cases (leb 10 (length p))) [
        | inl t ↦
            let waits = length-part p more e (ground (arith, t)) in
            ground (arith, start, t, waits, size, length-append p more)
        | inr t ↦ ground (arith, start, t)
      ]

-- A fragment on the stream.
abbrev pub sent_fragment : ℕ → ℕ → ℕ → Bool → Bool → ℕ → List ℕ → Sent
sent_fragment control dst src fir fin seq app = record {
  bytes = fragment control dst src fir fin seq app;
  found =
      frame (length (fragment control dst src fir fin seq app)) fir fin (src * 2 ^ 16 + dst) seq;
}

link_frame-filled :
    (control dst src : ℕ) (user_data : List ℕ) → 0 < length (link_frame control dst src user_data)
unfolding link_frame with_crc
link_frame-filled control dst src user_data = omega arith

pub sent_fragment-IsFound :
    (control dst src : ℕ) (fir fin : Bool) (seq : ℕ) (app : List ℕ)
    → dst < 2 ^ 16
    → src < 2 ^ 16
    → seq < 64
    → length app ≤ 249
    → IsFound dnp3_checker (sent_fragment control dst src fir fin seq app)
sent_fragment-IsFound control dst src fir fin seq app d s q l = record {
  whole = λ rest. dnp3_check_frame-fragment control dst src fir fin seq app rest d s q l;
  part = λ p more e h. part-nothing control dst src _ p more (omega arith) e h;
  size = refl;
  filled = link_frame-filled control dst src _;
}

-- A frame without user data, as the link layer sends it.
abbrev pub sent_link : ℕ → ℕ → ℕ → Sent
sent_link control dst src = record {
  bytes = link_frame control dst src [];
  found = frame 10 true true (src * 2 ^ 16 + dst) 0;
}

length-sent_link : (control dst src : ℕ) → length (link_frame control dst src []) ≡ 10
unfolding full_length
length-sent_link control dst src = length-link_frame control dst src [] (omega arith)

dnp3_check_frame-link :
    (control dst src : ℕ) (rest : List ℕ)
    → dst < 2 ^ 16
    → src < 2 ^ 16
    → dnp3_check_frame (link_frame control dst src [] ++ rest)
      ≡ frame 10 true true (src * 2 ^ 16 + dst) 0
unfolding check_body
dnp3_check_frame-link control dst src rest d s =
    let sent = link_frame control dst src [] in
    check-link_frame control dst src [] rest (omega arith)
    ∙ ap (λ n. check_body n (sent ++ rest)) (length-sent_link control dst src)
    ∙ ground (
      arith,
      length-sent_link control dst src,
      length-append sent rest,
      src_dst-link_frame control dst src [] rest d s,
    )

pub sent_link-IsFound :
    (control dst src : ℕ)
    → dst < 2 ^ 16
    → src < 2 ^ 16
    → IsFound dnp3_checker (sent_link control dst src)
sent_link-IsFound control dst src d s = record {
  whole = λ rest. dnp3_check_frame-link control dst src rest d s;
  part = λ p more e h. part-nothing control dst src [] p more (omega arith) e h;
  size = sym (length-sent_link control dst src);
  filled = link_frame-filled control dst src [];
}

-- ===== src/ProtoConv/Wire.antt =====
-- src/ProtoConv/ProtoConv.cpp: datagrams with a delimiter, through a byte stream, to datagrams.
use mini_plex.Base.{
  ℕ, zero, suc, ◌+◌, ◌≤◌, ◌<◌, ◌%◌, ◌^◌, ◌≡◌, ◌≢◌, refl, sym, ap, ◌∙◌, true, false, List, [], ◌∷◌,
  ◌++◌, length, ◌==◌, length-append, arith,
}
use native.Mathlib.Nat.{le_refl}
use mini_plex.ProtoConv.{Frame, frame}
use mini_plex.ProtoConv.Delim.{
  add_delim, delim_bytes, check_frame, check_frame-add_delim, len-check_frame-le, delim_checker,
  HasNoTrailer, length-delim_bytes,
}
use mini_plex.ProtoConv.Stream.{rcv_loop, rcv_loop-stop, rcv_stream_handler}
use mini_plex.ProtoConv.Stream.Reads.{rcv_loop-found}

-- `RcvUDPHandler` for each datagram: what `Write` puts on the stream, from a value of `DelimSeq` on.
unfoldable pub rcv_udp_all : ℕ → ℕ → List (List ℕ) → List ℕ
rcv_udp_all delim seq [] = []
rcv_udp_all delim seq (d ∷ ds) = let r = add_delim delim seq d in r.1 ++ rcv_udp_all delim r.0 ds

-- No datagram is longer than 65,526 bytes or has a valid trailer that begins in its own bytes.
unfoldable pub AllClean : ℕ → ℕ → List (List ℕ) → Type 0
AllClean delim seq [] = Unit
AllClean delim seq (d ∷ ds) =
    (length d ≤ 65526)
    × HasNoTrailer delim (delim_bytes delim seq) d
    × AllClean delim ((seq + 1) % 2 ^ 32) ds

-- The datagrams with their trailers, as frames.
unfoldable pub sent_frames : ℕ → ℕ → List (List ℕ) → List Frame
sent_frames delim seq [] = []
sent_frames delim seq (d ∷ ds) =
    record {
      buf = d ++ delim_bytes delim seq;
      len = 10 + length d;
      fir = true;
      fin = true;
      flow = 1;
      seq = seq;
    }
    ∷ sent_frames delim ((seq + 1) % 2 ^ 32) ds

pub add_delim-unfolded :
    (delim seq : ℕ) (d : List ℕ)
    → delim ≢ 0
    → add_delim delim seq d ≡ ((seq + 1) % 2 ^ 32, d ++ delim_bytes delim seq)
unfolding add_delim
add_delim-unfolded delim seq d h = let e : (delim == 0) ≡ false = ground arith in rw e refl

rcv_udp_all-step :
    (delim seq : ℕ) (d : List ℕ) (ds : List (List ℕ))
    → delim ≢ 0
    → rcv_udp_all delim seq (d ∷ ds)
      ≡ (d ++ delim_bytes delim seq) ++ rcv_udp_all delim ((seq + 1) % 2 ^ 32) ds
unfolding rcv_udp_all
rcv_udp_all-step delim seq d ds h = rw (add_delim-unfolded delim seq d h) refl

pub length-sent : (delim seq : ℕ) (d : List ℕ) → length (d ++ delim_bytes delim seq) ≡ 10 + length d
length-sent delim seq d =
    omega (arith, length-append d (delim_bytes delim seq), length-delim_bytes delim seq)

abbrev prepend : Frame → List Frame × List ℕ → List Frame × List ℕ
prepend f r = (f ∷ r.0, r.1)

rcv_loop-sent :
    (delim seq fuel : ℕ) (ds : List (List ℕ))
    → delim ≢ 0
    → seq < 2 ^ 32
    → AllClean delim seq ds
    → length (rcv_udp_all delim seq ds) ≤ fuel
    → rcv_loop (delim_checker delim) fuel (rcv_udp_all delim seq ds)
      ≡ (sent_frames delim seq ds, [])
unfolding AllClean sent_frames
rcv_loop-sent delim seq zero [] nz h v l = unfold rcv_loop rcv_udp_all in refl
rcv_loop-sent delim seq (suc fuel) [] nz h v l =
    unfold rcv_udp_all in
    rcv_loop-stop (delim_checker delim) fuel [] (omega (arith, len-check_frame-le delim []))
rcv_loop-sent delim seq zero (d ∷ ds) nz h v l = ground (
  arith,
  ap length (rcv_udp_all-step delim seq d ds nz),
  length-append (d ++ delim_bytes delim seq) (rcv_udp_all delim ((seq + 1) % 2 ^ 32) ds),
  length-sent delim seq d,
)
rcv_loop-sent delim seq (suc fuel) (d ∷ ds) nz h (s, t, v) l =
    let rest = rcv_udp_all delim ((seq + 1) % 2 ^ 32) ds in
    let xs = d ++ delim_bytes delim seq in
    let found : check_frame delim (xs ++ rest) ≡ frame (10 + length d) true true 1 seq =
      ap (λ p. check_frame delim (p.1 ++ rest)) (sym (add_delim-unfolded delim seq d nz))
      ∙ check_frame-add_delim delim seq d rest nz h s t in
    let left : length rest ≤ fuel = omega (
      arith,
      l,
      ap length (rcv_udp_all-step delim seq d ds nz),
      length-append xs rest,
      length-sent delim seq d,
    ) in
    ap (rcv_loop (delim_checker delim) (suc fuel)) (rcv_udp_all-step delim seq d ds nz)
    ∙ rcv_loop-found (delim_checker delim) fuel xs rest (frame (10 + length d) true true 1 seq)
        found (sym (length-sent delim seq d)) (omega arith)
    ∙ ap
        (λ k.
          prepend (record (frame k true true 1 seq) { buf = xs })
            (rcv_loop (delim_checker delim) fuel rest))
        (length-sent delim seq d)
    ∙ ap (prepend (record (frame (10 + length d) true true 1 seq) { buf = xs }))
        (rcv_loop-sent delim ((seq + 1) % 2 ^ 32) fuel ds nz (omega arith) v left)

-- Datagrams of at most 65,526 bytes, none with a valid trailer that begins in its own bytes, each
-- with its delimiter (not 0) and sequence number, in one byte stream: the stream handler makes each datagram with its trailer a
-- frame, with its number, in their order, and no byte stays.
pub rcv_stream_handler-rcv_udp_all :
    (delim seq : ℕ) (ds : List (List ℕ))
    → delim ≢ 0
    → seq < 2 ^ 32
    → AllClean delim seq ds
    → rcv_stream_handler (delim_checker delim) (rcv_udp_all delim seq ds)
      ≡ (sent_frames delim seq ds, [])
unfolding rcv_stream_handler
rcv_stream_handler-rcv_udp_all delim seq ds nz h v =
    rcv_loop-sent delim seq (length (rcv_udp_all delim seq ds)) ds nz h v (le_refl _)

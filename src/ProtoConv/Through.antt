-- ===== src/ProtoConv/Through.antt =====
-- src/ProtoConv/ProtoConv.cpp: what goes in as datagrams at one end comes out at the other.
use mini_plex.Base.{
  ℕ, ◌+◌, ◌-◌, ◌%◌, ◌^◌, ◌≡◌, ◌≢◌, refl, ap, ◌∙◌, List, [], ◌∷◌, length, map, take, arith,
}
use mini_plex.ProtoConv.{Frame}
use mini_plex.ProtoConv.Delim.{delim_bytes, delim_checker}
use mini_plex.ProtoConv.Stream.{rcv_stream_handler}
use mini_plex.ProtoConv.Stream.Reads.{take_all}
use mini_plex.ProtoConv.Wire.{rcv_udp_all, AllClean, sent_frames, rcv_stream_handler-rcv_udp_all}
use mini_plex.ProtoConv.Reorder.{Write, new_handler, handle_all, strip}
use mini_plex.ProtoConv.Reorder.Sequence.{IsRun, AllFramed, handle_all-in_order}

-- The bytes that `async_send` takes from a write.
abbrev pub datagram : Write → List ℕ
datagram w = take w.sz w.buf

-- The frames of one read of the stream reach the handler at one time.
abbrev pub at_time : ℕ → List Frame → List (ℕ × Frame)
at_time now = map (λ f. (now, f))

abbrev next_seq : ℕ → List (List ℕ) → ℕ
next_seq seq [] = seq
next_seq seq (d ∷ ds) = next_seq ((seq + 1) % 2 ^ 32) ds

sent_frames-IsRun :
    (now delim seq : ℕ) (ds : List (List ℕ))
    → IsRun seq (map (λ p. p.1) (at_time now (sent_frames delim seq ds))) (next_seq seq ds)
unfolding IsRun sent_frames
sent_frames-IsRun now delim seq [] = refl
sent_frames-IsRun now delim seq (d ∷ ds) =
    (refl, sent_frames-IsRun now delim ((seq + 1) % 2 ^ 32) ds)

sent_frames-AllFramed :
    (now delim seq : ℕ) (ds : List (List ℕ)) → AllFramed (at_time now (sent_frames delim seq ds))
unfolding AllFramed sent_frames
sent_frames-AllFramed now delim seq [] = tt
sent_frames-AllFramed now delim seq (d ∷ ds) =
    (ground arith, sent_frames-AllFramed now delim ((seq + 1) % 2 ^ 32) ds)

sent_frames-datagram :
    (now delim seq : ℕ) (ds : List (List ℕ))
    → map datagram (map (λ p. strip p.1) (at_time now (sent_frames delim seq ds))) ≡ ds
unfolding sent_frames
sent_frames-datagram now delim seq [] = refl
sent_frames-datagram now delim seq (d ∷ ds) =
    ap
      (λ b.
        b
        ∷ map datagram
            (map (λ p. strip p.1) (at_time now (sent_frames delim ((seq + 1) % 2 ^ 32) ds))))
      ((take_all d (delim_bytes delim seq) (10 + length d - 10) (omega arith)).0)
    ∙ ap (λ t. d ∷ t) (sent_frames-datagram now delim ((seq + 1) % 2 ^ 32) ds)

-- Datagrams of at most 65,526 bytes, none with a valid trailer that begins in its own bytes, sent
-- from `DelimSeq` 0 on with a delimiter that is not 0: at the other end, with a new fragment handler
-- and the same delimiter, the datagrams written are those that were sent, in their order, and no
-- frame waits.
pub datagrams-through :
    (delim max tms start now : ℕ) (ds : List (List ℕ))
    → delim ≢ 0
    → AllClean delim 0 ds
    → let frames = (rcv_stream_handler (delim_checker delim) (rcv_udp_all delim 0 ds)).0 in
      let r = handle_all (at_time now frames) (new_handler max tms start) in
      (map datagram r.1 ≡ ds) × (r.0.frame_q ≡ [])
datagrams-through delim max tms start now ds nz v =
    let same = rcv_stream_handler-rcv_udp_all delim 0 ds nz (omega arith) v in
    let (w, q, e) =
      handle_all-in_order (at_time now (sent_frames delim 0 ds)) (next_seq 0 ds)
        (new_handler max tms start) (unfold new_handler in refl)
        (sent_frames-AllFramed now delim 0 ds)
        (unfold new_handler in sent_frames-IsRun now delim 0 ds) in
    rw same (ap (map datagram) w ∙ sent_frames-datagram now delim 0 ds, q)

-- ===== src/ProtoConv/Tests.antt =====
-- src/ProtoConv: runs of the delimiter and of the stream handler.
use mini_plex.Base.{◌≡◌, refl, true, List, [], ◌∷◌, ◌++◌, ℕ, arith}
use mini_plex.ProtoConv.{frame}
use mini_plex.ProtoConv.Crc.{crc_ccitt}
use mini_plex.ProtoConv.Delim.{
  add_delim, check_frame, check_frame_stable, check_frame-add_delim, delim_bytes, delim_checker,
  HasNoTrailer, trailer,
}
use mini_plex.Base.{map}
use mini_plex.ProtoConv.Reorder.{handle_all, new_handler}
use mini_plex.ProtoConv.Wire.{rcv_udp_all, AllClean, sent_frames, rcv_stream_handler-rcv_udp_all}
use mini_plex.ProtoConv.Through.{datagram, at_time, datagrams-through}
use mini_plex.ProtoConv.Stream.{
  IsStable, AllFilled, frames_bytes, rcv_stream_handler, rcv_stream_handler-bytes,
  rcv_stream_handler-append, rcv_twice,
}

-- Three bytes with sequence number 7 and the delimiter 0x01020304.
abbrev payload : List ℕ
payload = 1 ∷ 2 ∷ 3 ∷ []

abbrev delim : ℕ
delim = 0x01020304

payload-HasNoTrailer : HasNoTrailer delim (delim_bytes delim 7) payload
unfolding HasNoTrailer delim_bytes trailer crc_ccitt
payload-HasNoTrailer = (refl, (refl, (refl, tt)))

trailer_found : check_frame delim ((add_delim delim 7 payload).1 ++ 9 ∷ []) ≡ frame 13 true true 1 7
trailer_found =
    check_frame-add_delim delim 7 payload (9 ∷ []) (omega arith) (omega arith) (omega arith)
      payload-HasNoTrailer

-- The datagram on the wire, and the first bytes of the next one.
abbrev wire : List ℕ
wire = (add_delim delim 7 payload).1 ++ 9 ∷ []

rcv_stream_handler-bytes_example :
    (frames_bytes (rcv_stream_handler (delim_checker delim) wire).0
        ++ (rcv_stream_handler (delim_checker delim) wire).1
      ≡ wire)
    × AllFilled (rcv_stream_handler (delim_checker delim) wire).0
    × ((check_frame delim (rcv_stream_handler (delim_checker delim) wire).1).len ≡ 0)
rcv_stream_handler-bytes_example = rcv_stream_handler-bytes (delim_checker delim) wire

delim-IsStable : IsStable (delim_checker delim)
unfolding IsStable
delim-IsStable = check_frame_stable delim

-- The datagram arrives in two parts.
rcv_stream_handler-append_example :
    rcv_stream_handler (delim_checker delim) ((1 ∷ 2 ∷ []) ++ 3 ∷ 4 ∷ [])
    ≡ rcv_twice (delim_checker delim) (1 ∷ 2 ∷ []) (3 ∷ 4 ∷ [])
rcv_stream_handler-append_example =
    rcv_stream_handler-append (delim_checker delim) delim-IsStable (1 ∷ 2 ∷ []) (3 ∷ 4 ∷ [])

-- Two datagrams.
abbrev pair : List (List ℕ)
pair = (1 ∷ 2 ∷ []) ∷ (3 ∷ []) ∷ []

pair-AllClean : AllClean delim 0 pair
unfolding AllClean HasNoTrailer delim_bytes trailer crc_ccitt
pair-AllClean = (omega arith, (refl, (refl, tt)), (omega arith, (refl, tt), tt))

sent_datagrams_found :
    rcv_stream_handler (delim_checker delim) (rcv_udp_all delim 0 pair)
    ≡ (sent_frames delim 0 pair, [])
sent_datagrams_found =
    rcv_stream_handler-rcv_udp_all delim 0 pair (omega arith) (omega arith) pair-AllClean

pair_through :
    (map datagram
        (handle_all
          (at_time 5 (rcv_stream_handler (delim_checker delim) (rcv_udp_all delim 0 pair)).0)
          (new_handler 10 100 0)).1
      ≡ pair)
    × ((handle_all
          (at_time 5 (rcv_stream_handler (delim_checker delim) (rcv_udp_all delim 0 pair)).0)
          (new_handler 10 100 0)).0.frame_q
        ≡ [])
pair_through = datagrams-through delim 10 100 0 5 pair (omega arith) pair-AllClean

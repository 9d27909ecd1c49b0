-- ===== src/ProtoConv/System/Tests.antt =====
-- src/ProtoConv/ProtoConv.cpp: runs of a whole converter.
use mini_plex.Base.{ℕ, ◌≡◌, refl, List, [], ◌∷◌, ◌++◌}
use mini_plex.ProtoConv.{null_check_frame}
use mini_plex.ProtoConv.Construct.{Framing, delim_framing, null_framing}
use mini_plex.ProtoConv.Delim.{delim_bytes}
use mini_plex.ProtoConv.Reorder.{new_handler}
use mini_plex.ProtoConv.Stream.{rcv_stream_handler, rcv_loop}
use mini_plex.ProtoConv.System.{rcv_streams, rcv_stream, handle_each, handle, nop_handle_frame}
use mini_plex.ProtoConv.System.Conserved.{IsConserved, all_bytes, rcv_streams-IsConserved}
use mathlib.Core.List.Perm
use mini_plex.Base.{map, take, drop, arith}
use mini_plex.Base.Every.{Every}
use mini_plex.ProtoConv.Construct.{dnp3_framing}
use mini_plex.ProtoConv.Dnp3.Arriving.{sent_fragment}
use mini_plex.ProtoConv.Dnp3.Encode.{link_frame}
use mini_plex.ProtoConv.Flows.{TransportFlow, whole}
use mini_plex.ProtoConv.Flows.Flags.{handle_frames}
use mini_plex.ProtoConv.Flows.Isolated.{flow_of}
use mini_plex.ProtoConv.Flows.Reassembled.{IsIdle}
use mini_plex.ProtoConv.Stream.Reads.{Sent, joined, delivered, bytes_of}
use mini_plex.ProtoConv.System.Messages.{fragments, rcv_streams-fragments}
use mini_plex.Base.{true, false}
use mini_plex.ProtoConv.Delim.{HasNoTrailer, trailer, add_delim}
use mini_plex.ProtoConv.Crc.{crc_ccitt}
use mini_plex.ProtoConv.Reorder.{DelimFragHandler}
use mini_plex.ProtoConv.System.Datagrams.{sent_datagram, sent_datagrams}
use mini_plex.ProtoConv.System.Delivered.{rcv_streams-datagrams}
use mini_plex.ProtoConv.System.Timed.{AllReads}
use mini_plex.ProtoConv.Through.{datagram}
use mini_plex.ProtoConv.Wire.{AllClean}

-- A framed datagram in two reads.
abbrev reads : List (ℕ × List ℕ)
reads = (1, 5 ∷ 6 ∷ []) ∷ (2, delim_bytes 9 0) ∷ []

abbrev framing : Framing
framing = delim_framing 9 (new_handler 10 100 0)

rcv_streams-IsConserved_example :
    IsConserved ([] ++ all_bytes reads) framing (rcv_streams reads [] framing)
rcv_streams-IsConserved_example = rcv_streams-IsConserved reads [] framing

-- Without a checker each read is a datagram.
null-reads :
    (rcv_streams ((1, 5 ∷ []) ∷ (2, 6 ∷ 7 ∷ []) ∷ []) [] null_framing).1.1
    ≡ record { buf = 5 ∷ []; sz = 1 } ∷ record { buf = 6 ∷ 7 ∷ []; sz = 2 } ∷ []
unfolding rcv_streams rcv_stream handle_each handle nop_handle_frame rcv_stream_handler rcv_loop
    null_check_frame
null-reads = refl

-- The two fragments of a message, the last one first, in two reads.
abbrev one : Sent
one = sent_fragment 0xc4 1 2 true false 63 (1 ∷ 2 ∷ [])

abbrev two : Sent
two = sent_fragment 0xc4 1 2 false true 0 (3 ∷ [])

abbrev late_reads : List (ℕ × List ℕ)
late_reads = (1, take 11 (joined (two ∷ one ∷ []))) ∷ (5, drop 11 (joined (two ∷ one ∷ []))) ∷ []

abbrev after_both : List (ℕ × TransportFlow)
after_both = handle_frames (map delivered (two ∷ one ∷ [])) []

rcv_streams-fragments_example :
    (rcv_streams late_reads [] (dnp3_framing [])
      ≡ (dnp3_framing after_both, ([], map whole (map delivered (one ∷ two ∷ [])))))
    × IsIdle (flow_of 0x20001 after_both)
unfolding fragments Every bytes_of joined link_frame flow_of
rcv_streams-fragments_example =
    rcv_streams-fragments 0xc4 1 2 63 ((1 ∷ 2 ∷ []) ∷ (3 ∷ []) ∷ []) (two ∷ one ∷ []) late_reads []
      (omega arith) (omega arith) (omega arith) (omega arith) (omega arith) (omega arith)
      (omega arith, (omega arith, tt)) (Perm.swap one two []) refl
      (record { no_frag = refl; no_next = refl; no_seq = refl; no_fin = refl; no_fir = refl })

-- Two datagrams, the second one first, in two reads.
abbrev datagrams : List (List ℕ)
datagrams = (7 ∷ []) ∷ (8 ∷ 9 ∷ []) ∷ []

abbrev swapped : List Sent
swapped = sent_datagram 9 1 (8 ∷ 9 ∷ []) ∷ sent_datagram 9 0 (7 ∷ []) ∷ []

abbrev swapped_reads : List (ℕ × List ℕ)
swapped_reads = (4, take 13 (joined swapped)) ∷ (6, drop 13 (joined swapped)) ∷ []

datagrams-AllClean : AllClean 9 0 datagrams
unfolding AllClean HasNoTrailer delim_bytes trailer crc_ccitt
datagrams-AllClean = (omega arith, (refl, tt), (omega arith, (refl, (refl, tt)), tt))

rcv_streams-datagrams_example :
    (t : DelimFragHandler) × ((rcv_streams swapped_reads [] framing).0 ≡ delim_framing 9 t)
    × (t.frame_q ≡ [])
    × ((rcv_streams swapped_reads [] framing).1.0 ≡ [])
    × (map datagram (rcv_streams swapped_reads [] framing).1.1 ≡ datagrams)
unfolding sent_datagrams add_delim bytes_of joined delim_bytes AllReads new_handler
rcv_streams-datagrams_example =
    rcv_streams-datagrams 9 4 datagrams swapped swapped_reads (new_handler 10 100 0) (omega arith)
      (omega arith) datagrams-AllClean
      (Perm.swap (sent_datagram 9 0 (7 ∷ [])) (sent_datagram 9 1 (8 ∷ 9 ∷ [])) []) refl refl
      (omega arith) (omega arith) (omega arith, omega arith, (omega arith, omega arith, tt))
      (omega arith)

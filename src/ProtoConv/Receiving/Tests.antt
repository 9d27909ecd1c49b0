-- ===== src/ProtoConv/Receiving/Tests.antt =====
-- src/ProtoConv/ProtoConv.cpp: runs of the receiver of datagrams.
use mini_plex.Base.{◌≡◌, refl, true, false, [], ◌∷◌, arith}
use mini_plex.ProtoConv.Crc.{crc_ccitt}
use mini_plex.ProtoConv.Delim.{delim_bytes, HasNoTrailer, trailer}
use mini_plex.ProtoConv.Wire.{AllClean}
use mini_plex.ProtoConv.Receiving.{
  Receiver, new_receiver, rcv_udp, rcv_udp_with, udp_received, process, process_with, give_back,
  Reach, here, receive, run_process, run_give_back,
}
use mini_plex.ProtoConv.Receiving.Ordered.{IsReceiving, Reach-IsReceiving}
use mini_plex.ProtoConv.Receiving.Through.{at_other_end, received-through}

-- A datagram, a receive that fails, and a buffer that is given back before both are handled.
abbrev one_fails : Receiver
one_fails =
    process
      (give_back (process (udp_received true [] (udp_received false (7 ∷ []) (new_receiver 9)))))

one_fails-Reach : Reach (new_receiver 9) ((7 ∷ []) ∷ [] ∷ []) one_fails
one_fails-Reach =
    run_process (run_give_back (run_process (receive (receive here false (7 ∷ [])) true [])))

Reach-IsReceiving_example : IsReceiving 9 ((7 ∷ []) ∷ [] ∷ []) one_fails
Reach-IsReceiving_example = Reach-IsReceiving 9 one_fails-Reach

received-AllClean : AllClean 9 0 ((7 ∷ []) ∷ [] ∷ [])
unfolding AllClean HasNoTrailer delim_bytes trailer crc_ccitt
received-AllClean = (omega arith, (refl, tt), (omega arith, tt, tt))

-- The failed receive comes out as an empty datagram.
received-through_example : at_other_end 9 10 100 0 5 one_fails.stream ≡ (7 ∷ []) ∷ [] ∷ []
received-through_example =
    received-through 9 10 100 0 5 ((7 ∷ []) ∷ [] ∷ []) one_fails (omega arith) one_fails-Reach
      (unfold new_receiver rcv_udp rcv_udp_with udp_received process process_with give_back in refl)
      received-AllClean

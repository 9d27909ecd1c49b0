-- ===== src/ProtoConv/Receiving/Through.antt =====
-- src/ProtoConv/ProtoConv.cpp: what is received at one end is written at the other, errors included.
use mini_plex.Base.{ℕ, ◌≡◌, ◌≢◌, sym, ap, ◌∙◌, List, [], ◌++◌, map, append_nil}
use mini_plex.ProtoConv.Delim.{delim_checker}
use mini_plex.ProtoConv.Stream.{rcv_stream_handler}
use mini_plex.ProtoConv.Wire.{rcv_udp_all, AllClean}
use mini_plex.ProtoConv.Through.{datagram, at_time, datagrams-through}
use mini_plex.ProtoConv.Reorder.{new_handler, handle_all}
use mini_plex.ProtoConv.Receiving.{Receiver, new_receiver, Reach}
use mini_plex.ProtoConv.Receiving.Ordered.{Reach-IsReceiving, all_read}

-- The datagrams that come out of a stream at the other end, with a new fragment handler.
abbrev pub at_other_end : ℕ → ℕ → ℕ → ℕ → ℕ → List ℕ → List (List ℕ)
at_other_end delim max tms start now stream =
    map datagram
      (handle_all (at_time now (rcv_stream_handler (delim_checker delim) stream).0)
        (new_handler max tms start)).1

nothing_waits :
    (delim : ℕ) (s : Receiver)
    → s.handling ≡ []
    → rcv_udp_all delim s.delim_seq (all_read s.handling) ≡ []
unfolding rcv_udp_all
nothing_waits delim s h = ap (λ t. rcv_udp_all delim s.delim_seq (all_read t)) h

-- However the socket and the strands run, once no result waits to be handled: when the other end
-- reads the bytes that were handed to the stream, it writes a datagram for each receive, in order, and a receive that failed counts too, with the bytes that it
-- reported. The delimiter is not 0, and no bytes received are longer than 65,526 or have a valid
-- trailer that begins in them.
pub received-through :
    (delim max tms start now : ℕ) (got : List (List ℕ)) (s : Receiver)
    → delim ≢ 0
    → Reach (new_receiver delim) got s
    → s.handling ≡ []
    → AllClean delim 0 got
    → at_other_end delim max tms start now s.stream ≡ got
received-through delim max tms start now got s nz r h v =
    let i = Reach-IsReceiving delim r in
    let sent : s.stream ≡ rcv_udp_all delim 0 got =
      sym (append_nil s.stream)
      ∙ ap (λ t. s.stream ++ t) (sym (nothing_waits delim s h))
      ∙ i.in_order in
    ap (at_other_end delim max tms start now) sent
    ∙ (datagrams-through delim max tms start now got nz v).0

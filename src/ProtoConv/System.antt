-- ===== src/ProtoConv/System.antt =====
-- src/ProtoConv/ProtoConv.cpp and src/ProtoConv/NopFragHandler.h: the frame checker and the fragment
-- handler that the constructor chose, behind `RcvStreamHandler`; the handler of a received datagram.
pub mod Conserved
pub mod Messages
pub mod Timed
pub mod Datagrams
pub mod Delivered
mod Tests
use mini_plex.Base.{ℕ, Bool, List, [], ◌∷◌, ◌++◌, map}
use mini_plex.ProtoConv.{Frame, FrameChecker, null_checker}
use mini_plex.ProtoConv.Construct.{Framing, delim_framing, dnp3_framing, null_framing}
use mini_plex.ProtoConv.Delim.{delim_checker, add_delim}
use mini_plex.ProtoConv.Dnp3.Lengths.{dnp3_checker}
use mini_plex.ProtoConv.Flows.{dnp3_handle_frame, whole}
use mini_plex.ProtoConv.Flows.Pending.{all_pending}
use mini_plex.ProtoConv.Reorder.{Write, handle_frame, strip, written}
use mini_plex.ProtoConv.Stream.{rcv_stream_handler}

-- `NopFragHandler::HandleFrame`
unfoldable pub nop_handle_frame : Frame → List Write
nop_handle_frame f = whole f ∷ []

-- `pFramer`
abbrev pub checker_of : Framing → FrameChecker
checker_of (delim_framing delim handler) = delim_checker delim
checker_of (dnp3_framing flows) = dnp3_checker
checker_of null_framing = null_checker

-- `pFragHandler->HandleFrame`, at a time.
unfoldable pub handle : ℕ → Frame → Framing → Framing × List Write
unfolding handle_frame dnp3_handle_frame nop_handle_frame
handle now f (delim_framing delim handler) =
    let r = handle_frame now f handler in (delim_framing delim r.0, r.1)
handle now f (dnp3_framing flows) = let r = dnp3_handle_frame f flows in (dnp3_framing r.0, r.1)
handle now f null_framing = (null_framing, nop_handle_frame f)

unfoldable pub handle_each : ℕ → List Frame → Framing → Framing × List Write
unfolding handle
handle_each now [] framing = (framing, [])
handle_each now (f ∷ fs) framing =
    let r = handle now f framing in let rest = handle_each now fs r.0 in (rest.0, r.1 ++ rest.1)

-- `RcvStreamHandler` (`HandleFrame` does not read the stream buffer), for a stream buffer with the bytes that were read: the handler's state, the
-- bytes that stay, and the calls of `WriteUDPHandler`.
unfoldable pub rcv_stream : ℕ → List ℕ → Framing → Framing × (List ℕ × List Write)
unfolding rcv_stream_handler handle_each
rcv_stream now buf framing =
    let found = rcv_stream_handler (checker_of framing) buf in
    let r = handle_each now found.0 framing in (r.0, (found.1, r.1))

-- A sequence of reads on one stream, each at a time.
unfoldable pub rcv_streams : List (ℕ × List ℕ) → List ℕ → Framing → Framing × (List ℕ × List Write)
unfolding rcv_stream
rcv_streams [] buf framing = (framing, (buf, []))
rcv_streams ((now, bytes) ∷ chunks) buf framing =
    let r = rcv_stream now (buf ++ bytes) framing in
    let rest = rcv_streams chunks r.1.0 r.0 in (rest.0, (rest.1.0, r.1.1 ++ rest.1.1))

-- What a handler has not written yet.
abbrev pub held_back : Framing → List Write
held_back (delim_framing delim handler) = map strip handler.frame_q
held_back (dnp3_framing flows) = all_pending flows
held_back null_framing = []

-- What a frame is written as.
abbrev pub written_as : Framing → Frame → Write
written_as (delim_framing delim handler) f = written f
written_as (dnp3_framing flows) f = whole f
written_as null_framing f = whole f

-- `RcvUDPHandler` on `DelimSeq`: what it writes to the stream. The error is only logged.
unfoldable pub rcv_udp_handler : ℕ → Bool → List ℕ → ℕ → ℕ × List ℕ
unfolding add_delim
rcv_udp_handler delim err bytes delim_seq = add_delim delim delim_seq bytes

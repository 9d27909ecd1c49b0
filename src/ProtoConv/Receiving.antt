-- ===== src/ProtoConv/Receiving.antt =====
-- src/ProtoConv/ProtoConv.cpp: the buffers of received datagrams. A buffer is named by the number of
-- buffers that were allocated before it.
pub mod Ordered
pub mod Through
mod Tests
use mini_plex.Base.{ℕ, suc, Bool, List, [], ◌∷◌, ◌++◌, map}
use mini_plex.ProtoConv.System.{rcv_udp_handler}

-- A result of `async_receive`: the buffer, whether it is an error, and the bytes.
pub record Result : Type 0 where
  pub buffer : ℕ
  pub err : Bool
  pub bytes : List ℕ

-- `rcv_buf_q`, how many buffers there are, the one that the socket receives into, and what is posted:
-- results to the process strand, and buffers to the socket strand; then `DelimSeq` and the bytes that
-- were handed to `Write` of the stream, one call after the other.
pub record Receiver : Type 0 where
  pub delim : ℕ
  pub rcv_buf_q : List ℕ
  pub allocated : ℕ
  pub receiving : ℕ
  pub handling : List Result
  pub returning : List ℕ
  pub delim_seq : ℕ
  pub stream : List ℕ

-- `RcvUDP`, on the queue of buffers.
unfoldable pub rcv_udp_with : List ℕ → Receiver → Receiver
rcv_udp_with (b ∷ q) s = record s { rcv_buf_q = q; receiving = b }
rcv_udp_with [] s = record s {
  rcv_buf_q = [];
  allocated = suc s.allocated;
  receiving = s.allocated;
}

unfoldable pub rcv_udp : Receiver → Receiver
unfolding rcv_udp_with
rcv_udp s = rcv_udp_with s.rcv_buf_q s

-- The constructor's state, once it has run the posted `RcvUDP`.
unfoldable pub new_receiver : ℕ → Receiver
unfolding rcv_udp
new_receiver delim = rcv_udp (record {
  delim = delim;
  rcv_buf_q = [];
  allocated = 0;
  receiving = 0;
  handling = [];
  returning = [];
  delim_seq = 0;
  stream = [];
})

-- The handler of `async_receive` posts the result and receives again.
unfoldable pub udp_received : Bool → List ℕ → Receiver → Receiver
unfolding rcv_udp
udp_received err bytes s =
    let result : Result = record { buffer = s.receiving; err = err; bytes = bytes } in
    rcv_udp (record s { handling = s.handling ++ result ∷ [] })

-- The process strand runs the oldest posted function, if there is one, which posts the buffer back.
unfoldable pub process_with : List Result → Receiver → Receiver
unfolding rcv_udp_handler
process_with [] s = s
process_with (result ∷ results) s =
    let r = rcv_udp_handler s.delim result.err result.bytes s.delim_seq in
    record s {
      handling = results;
      returning = s.returning ++ result.buffer ∷ [];
      delim_seq = r.0;
      stream = s.stream ++ r.1;
    }

unfoldable pub process : Receiver → Receiver
unfolding process_with
process s = process_with s.handling s

-- The socket strand runs the oldest posted return of a buffer.
unfoldable pub give_back_with : List ℕ → Receiver → Receiver
give_back_with [] s = s
give_back_with (b ∷ bs) s = record s { rcv_buf_q = s.rcv_buf_q ++ b ∷ []; returning = bs }

unfoldable pub give_back : Receiver → Receiver
unfolding give_back_with
give_back s = give_back_with s.returning s

-- What the socket and the two strands do, in any order; the bytes of the receives stand beside it.
pub data Reach (s : Receiver) : List (List ℕ) → Receiver → Type 0 where
  here : Reach s [] s
  receive :
      {got : List (List ℕ)} {t : Receiver}
      → Reach s got t
      → (err : Bool) (bytes : List ℕ) → Reach s (got ++ bytes ∷ []) (udp_received err bytes t)
  run_process : {got : List (List ℕ)} {t : Receiver} → Reach s got t → Reach s got (process t)
  run_give_back : {got : List (List ℕ)} {t : Receiver} → Reach s got t → Reach s got (give_back t)

-- ===== src/ProtoConv/Receiving/Ordered.antt =====
-- src/ProtoConv/ProtoConv.cpp: each buffer is in one place, and datagrams go to the stream in the order
-- in which they are received.
use mini_plex.Base.{
  ℕ, ◌+◌, ◌≡◌, refl, sym, ap, ◌∙◌, Bool, List, [], ◌∷◌, ◌++◌, map, ite, ltb, if◌then◌else◌,
  map-append, append_assoc, ℕ_discrete, arith,
}
use mini_plex.Base.Sets.{count, count-append}
use mini_plex.ProtoConv.Delim.{add_delim}
use mini_plex.ProtoConv.Wire.{rcv_udp_all}
use mini_plex.ProtoConv.System.{rcv_udp_handler}
use mini_plex.ProtoConv.Receiving.{
  Result, Receiver, rcv_udp_with, rcv_udp, new_receiver, udp_received, process_with, process,
  give_back_with, give_back, Reach, here, receive, run_process, run_give_back,
}

-- `DelimSeq` after some datagrams.
abbrev pub seq_after : ℕ → ℕ → List (List ℕ) → ℕ
seq_after delim seq [] = seq
seq_after delim seq (d ∷ ds) = seq_after delim (add_delim delim seq d).0 ds

rcv_udp_all-append :
    (delim seq : ℕ) (xs ys : List (List ℕ))
    → rcv_udp_all delim seq (xs ++ ys)
      ≡ rcv_udp_all delim seq xs ++ rcv_udp_all delim (seq_after delim seq xs) ys
unfolding rcv_udp_all
rcv_udp_all-append delim seq [] ys = refl
rcv_udp_all-append delim seq (x ∷ xs) ys =
    let r = add_delim delim seq x in
    ap (λ t. r.1 ++ t) (rcv_udp_all-append delim r.0 xs ys)
    ∙ sym (
        append_assoc r.1 (rcv_udp_all delim r.0 xs) (rcv_udp_all delim (seq_after delim r.0 xs) ys))

seq_after-append :
    (delim seq : ℕ) (xs ys : List (List ℕ))
    → seq_after delim seq (xs ++ ys) ≡ seq_after delim (seq_after delim seq xs) ys
seq_after-append delim seq [] ys = refl
seq_after-append delim seq (x ∷ xs) ys = seq_after-append delim (add_delim delim seq x).0 xs ys

abbrev pub all_read : List Result → List (List ℕ)
all_read results = map (λ r. r.bytes) results

abbrev pub buffers : List Result → List ℕ
buffers results = map (λ r. r.buffer) results

-- Each buffer is in exactly one place. What was written to the stream, and then what the results
-- that wait will write, is what `RcvUDPHandler` writes for all that was received, in that order.
pub record IsReceiving (delim : ℕ) (got : List (List ℕ)) (s : Receiver) : Type 0 where
  pub owned :
      (i : ℕ)
      → count ℕ_discrete i s.rcv_buf_q
          + ite (ℕ_discrete s.receiving i) 1 0
          + count ℕ_discrete i (buffers s.handling)
          + count ℕ_discrete i s.returning
        ≡ (if ltb i s.allocated then 1 else 0)
  pub same : s.delim ≡ delim
  pub in_order :
      s.stream ++ rcv_udp_all delim s.delim_seq (all_read s.handling) ≡ rcv_udp_all delim 0 got
  pub numbered : seq_after delim s.delim_seq (all_read s.handling) ≡ seq_after delim 0 got

new_receiver-IsReceiving : (delim : ℕ) → IsReceiving delim [] (new_receiver delim)
unfolding new_receiver rcv_udp rcv_udp_with rcv_udp_all
new_receiver-IsReceiving delim = record {
  owned = λ i. ground arith;
  same = refl;
  in_order = refl;
  numbered = refl;
}

-- The next receive keeps all but the queue and the buffer of the socket.
rcv_udp_with-IsReceiving :
    (delim : ℕ) (got : List (List ℕ)) (q : List ℕ) (s : Receiver)
    → ((i : ℕ)
        → count ℕ_discrete i q
            + count ℕ_discrete i (buffers s.handling)
            + count ℕ_discrete i s.returning
          ≡ (if ltb i s.allocated then 1 else 0))
    → s.delim ≡ delim
    → s.stream ++ rcv_udp_all delim s.delim_seq (all_read s.handling) ≡ rcv_udp_all delim 0 got
    → seq_after delim s.delim_seq (all_read s.handling) ≡ seq_after delim 0 got
    → IsReceiving delim got (rcv_udp_with q s)
unfolding rcv_udp_with
rcv_udp_with-IsReceiving delim got (b ∷ q) s o d e n = record {
  owned = λ i. omega (arith, o i);
  same = d;
  in_order = e;
  numbered = n;
}
rcv_udp_with-IsReceiving delim got [] s o d e n = record {
  owned = λ i. ground (arith, o i);
  same = d;
  in_order = e;
  numbered = n;
}

udp_received-IsReceiving :
    (delim : ℕ) (got : List (List ℕ)) (err : Bool) (bytes : List ℕ) (s : Receiver)
    → IsReceiving delim got s
    → IsReceiving delim (got ++ bytes ∷ []) (udp_received err bytes s)
unfolding udp_received rcv_udp
udp_received-IsReceiving delim got err bytes s r =
    let result : Result = record { buffer = s.receiving; err = err; bytes = bytes } in
    let held = map-append (λ x. x.buffer) s.handling (result ∷ []) in
    let read = map-append (λ x. x.bytes) s.handling (result ∷ []) in
    let seq = seq_after delim s.delim_seq (all_read s.handling) in
    rcv_udp_with-IsReceiving delim (got ++ bytes ∷ []) s.rcv_buf_q
      (record s { handling = s.handling ++ result ∷ [] })
      (λ i. omega (
        arith,
        r.owned i,
        ap (count ℕ_discrete i) held,
        count-append ℕ_discrete i (buffers s.handling) (s.receiving ∷ []),
      ))
      r.same
      (ap (λ t. s.stream ++ rcv_udp_all delim s.delim_seq t) read
        ∙ ap (λ t. s.stream ++ t)
            (rcv_udp_all-append delim s.delim_seq (all_read s.handling) (bytes ∷ []))
        ∙ sym (
            append_assoc s.stream (rcv_udp_all delim s.delim_seq (all_read s.handling))
              (rcv_udp_all delim seq (bytes ∷ [])))
        ∙ ap (λ t. t ++ rcv_udp_all delim seq (bytes ∷ [])) r.in_order
        ∙ ap (λ t. rcv_udp_all delim 0 got ++ rcv_udp_all delim t (bytes ∷ [])) r.numbered
        ∙ sym (rcv_udp_all-append delim 0 got (bytes ∷ [])))
      (ap (seq_after delim s.delim_seq) read
        ∙ seq_after-append delim s.delim_seq (all_read s.handling) (bytes ∷ [])
        ∙ ap (λ t. seq_after delim t (bytes ∷ [])) r.numbered
        ∙ sym (seq_after-append delim 0 got (bytes ∷ [])))

process_with-IsReceiving :
    (delim : ℕ) (got : List (List ℕ)) (results : List Result) (s : Receiver)
    → s.handling ≡ results
    → IsReceiving delim got s
    → IsReceiving delim got (process_with results s)
unfolding process_with rcv_udp_handler rcv_udp_all
process_with-IsReceiving delim got [] s e r = r
process_with-IsReceiving delim got (x ∷ xs) s e r =
    let step = add_delim s.delim s.delim_seq x.bytes in
    let q = ap (λ d. add_delim d s.delim_seq x.bytes) r.same in
    let order =
      ap (λ t. s.stream ++ rcv_udp_all delim s.delim_seq (all_read t)) (sym e) ∙ r.in_order in
    record {
      owned = λ i. omega (
        arith,
        r.owned i,
        ap (λ t. count ℕ_discrete i (buffers t)) e,
        count-append ℕ_discrete i s.returning (x.buffer ∷ []),
      );
      same = r.same;
      in_order =
          append_assoc s.stream step.1 (rcv_udp_all delim step.0 (all_read xs))
          ∙ ap (λ p. s.stream ++ (p.1 ++ rcv_udp_all delim p.0 (all_read xs))) q
          ∙ order;
      numbered =
          ap (λ p. seq_after delim p.0 (all_read xs)) q
          ∙ ap (λ t. seq_after delim s.delim_seq (all_read t)) (sym e)
          ∙ r.numbered;
    }

give_back_with-IsReceiving :
    (delim : ℕ) (got : List (List ℕ)) (bs : List ℕ) (s : Receiver)
    → s.returning ≡ bs
    → IsReceiving delim got s
    → IsReceiving delim got (give_back_with bs s)
unfolding give_back_with
give_back_with-IsReceiving delim got [] s e r = r
give_back_with-IsReceiving delim got (b ∷ bs) s e r = record {
  owned = λ i.
      omega (
        arith,
        r.owned i,
        ap (count ℕ_discrete i) e,
        count-append ℕ_discrete i s.rcv_buf_q (b ∷ []),
      );
  same = r.same;
  in_order = r.in_order;
  numbered = r.numbered;
}

-- From the constructor's state, whatever the socket receives and however the two strands run: each
-- buffer is in exactly one place (the queue, the socket, a posted result, a posted return), so that
-- no datagram is overwritten before it is handled; and what was handed to the stream, with what the
-- posted results will write, is what `RcvUDPHandler` writes for all that was received, in that
-- order, with consecutive values of `DelimSeq` from 0.
pub Reach-IsReceiving :
    (delim : ℕ) {got : List (List ℕ)} {s : Receiver}
    → Reach (new_receiver delim) got s
    → IsReceiving delim got s
unfolding process give_back
Reach-IsReceiving delim here = new_receiver-IsReceiving delim
Reach-IsReceiving delim (receive r err bytes) =
    udp_received-IsReceiving delim _ err bytes _ (Reach-IsReceiving delim r)
Reach-IsReceiving delim (run_process r) =
    process_with-IsReceiving delim _ _ _ refl (Reach-IsReceiving delim r)
Reach-IsReceiving delim (run_give_back r) =
    give_back_with-IsReceiving delim _ _ _ refl (Reach-IsReceiving delim r)

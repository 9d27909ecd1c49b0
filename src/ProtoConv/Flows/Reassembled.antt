-- ===== src/ProtoConv/Flows/Reassembled.antt =====
-- src/ProtoConv/DNP3FragHandler.cpp: messages whose fragments arrive in any order.
use mathlib.Core.List.{Perm}
use mini_plex.Base.{
  ℕ, ◌+◌, ◌≤◌, ◌<◌, ◌≡◌, refl, sym, ap, ◌∙◌, inl, inr, false, List, [], ◌∷◌, ◌++◌, map, length,
  Bool-cases, ltb, none, append_nil, arith,
}
use mini_plex.Base.Placing.{
  place, place_all, Apart, Apart-Perm, Increasing-Apart, place_all-Perm, length-place_all, Clear,
  Clear-nil, Clear-place,
}
use mini_plex.ProtoConv.{Frame, Frame_set}
use mini_plex.ProtoConv.Reorder.{Write}
use mini_plex.ProtoConv.Flows.{
  TransportFlow, whole, waiting, contains_seq, emplace_frag, queue_frag, flush, handle_flow,
}
use mini_plex.ProtoConv.Flows.Flags.{firs, fins}
use mini_plex.ProtoConv.Flows.Numbered.{
  IsNumbered, IsNumbered-AllParts, IsNumbered-Increasing, IsNumbered-fins, IsNumbered-one_first,
}
use mini_plex.ProtoConv.Flows.Message.{position, IsPart, AllParts, emplace_frag-place}
use mini_plex.ProtoConv.Flows.Collecting.{
  IsCollecting, queue_frag-IsCollecting, handle_flow-waits, handle_flow-full, length-emplace_frag,
}

-- The functions that are posted to a flow's strand for frames, one after the other.
unfoldable pub handle_flow_all : List Frame → TransportFlow → TransportFlow × List Write
unfolding handle_flow
handle_flow_all [] t = (t, [])
handle_flow_all (f ∷ fs) t =
    let r = handle_flow f t in let rest = handle_flow_all fs r.0 in (rest.0, r.1 ++ rest.1)

-- A message of at least two fragments, the first with FIR and the last with FIN.
pub record IsMessage (start : ℕ) (ms : List Frame) : Type 0 where
  pub number : start < 64
  pub many : 2 ≤ length ms
  pub most : length ms ≤ 34
  pub numbered : IsNumbered start (length ms) 0 ms

-- The flow holds nothing.
pub record IsIdle (t : TransportFlow) : Type 0 where
  pub no_frag : t.frag_q ≡ []
  pub no_next : t.next_frame ≡ none
  pub no_seq : t.has_seq ≡ []
  pub no_fin : t.has_fin ≡ false
  pub no_fir : t.has_fir ≡ false

flush-IsIdle : (t : TransportFlow) → IsIdle (flush t).0
unfolding flush
flush-IsIdle t = record {
  no_frag = refl;
  no_next = refl;
  no_seq = refl;
  no_fin = refl;
  no_fir = refl;
}

flushed : (q : List Frame) → (map whole q ++ waiting none) ++ [] ≡ map whole q
flushed q = append_nil (map whole q ++ []) ∙ append_nil (map whole q)

module _ (start n : ℕ) (s : start < 64) (most : n ≤ 34) (least : 2 ≤ n) where
  collect :
      (fs : List Frame) (t : TransportFlow)
      → 0 < length fs
      → IsCollecting start n t
      → AllParts start n fs
      → Apart (position start) fs
      → Clear (position start) fs t.frag_q
      → length t.frag_q + length fs ≡ n
      → firs (place_all (position start) t.frag_q fs) ≡ 1
      → fins (place_all (position start) t.frag_q fs) ≡ 1
      → ((handle_flow_all fs t).1 ≡ map whole (place_all (position start) t.frag_q fs))
        × IsIdle (handle_flow_all fs t).0
  unfolding handle_flow_all AllParts Apart Clear place_all queue_frag
  collect [] t p v w d c l a b = ground arith
  collect (f ∷ []) t p v (u, w) (d, e) (c, g) l a b =
      let put = emplace_frag-place start n s most f t.frag_q u v.parts c in
      let done =
        handle_flow-full start n s most least f t u v c (omega (arith, l)) (rw put a) (rw put b) in
      rw done (
        rw (sym put, v.nothing_next) (flushed (emplace_frag f t.frag_q)),
        flush-IsIdle (queue_frag f t),
      )
  collect (f ∷ g ∷ fs) t p v (u, w) (d, e) (c, h) l a b =
      let put = emplace_frag-place start n s most f t.frag_q u v.parts c in
      let waits = handle_flow-waits start n s most least f t u v c (omega (arith, l)) in
      let order = position start in
      let more =
        collect (g ∷ fs) (queue_frag f t) (omega arith)
          (queue_frag-IsCollecting start n s most least f t u v c) w e
          (rw put (Clear-place order f (g ∷ fs) t.frag_q d h))
          (omega (arith, length-emplace_frag f t.frag_q, l)) (rw put a) (rw put b) in
      rw waits (more.0 ∙ ap (λ q. map whole (place_all order q (g ∷ fs))) put, more.1)

IsIdle-IsCollecting : (start n : ℕ) (t : TransportFlow) → IsIdle t → IsCollecting start n t
unfolding AllParts firs fins contains_seq
IsIdle-IsCollecting start n t v = record {
  parts = rw v.no_frag tt;
  nothing_next = v.no_next;
  first = rw (v.no_frag, v.no_fir) refl;
  last = rw (v.no_frag, v.no_fin) refl;
  from = λ h. ground (arith, v.no_fir, h);
  to = λ h. ground (arith, v.no_fin, h);
  seqs = λ x. rw (v.no_seq, v.no_frag) refl;
}

module _ (start n : ℕ) (key : Frame → ℕ) where
  AllParts-place :
      (f : Frame) (q : List Frame)
      → AllParts start n (place key f q)
      → IsPart start n f × AllParts start n q
  unfolding AllParts place
  AllParts-place f [] v = v
  AllParts-place f (g ∷ q) v = elim (Bool-cases (ltb (key f) (key g))) [
    | inl e ↦ rw e at v
    | inr e ↦
        let w : IsPart start n g × AllParts start n (place key f q) = rw e at v in
        let r = AllParts-place f q w.1 in (r.0, (w.0, r.1))
  ]

  AllParts-place_all :
      (q fs : List Frame)
      → AllParts start n (place_all key q fs)
      → AllParts start n q × AllParts start n fs
  unfolding AllParts place_all
  AllParts-place_all q [] v = (v, tt)
  AllParts-place_all q (f ∷ fs) v =
      let r = AllParts-place_all (place key f q) fs v in
      let w = AllParts-place f q r.0 in (w.1, (w.0, r.1))

-- All fragments of a message of 2 to 34 fragments, in any order of arrival, on a flow that holds
-- nothing: they are written whole in the order of the message, and the flow holds nothing again.
pub handle_flow_all-IsMessage :
    (start : ℕ) (ms fs : List Frame) (t : TransportFlow)
    → IsMessage start ms
    → Perm fs ms
    → IsIdle t
    → ((handle_flow_all fs t).1 ≡ map whole ms) × IsIdle (handle_flow_all fs t).0
handle_flow_all-IsMessage start ms fs t m p v =
    let n = length ms in
    let rising = IsNumbered-Increasing start n m.number m.most 0 ms m.numbered in
    let sorted = place_all-Perm (position start) Frame_set 0 fs ms p rising in
    let apart =
      Apart-Perm (position start) fs ms p (Increasing-Apart (position start) 0 ms rising) in
    let parts =
      AllParts-place_all start n (position start) [] fs
        (rw sorted (IsNumbered-AllParts start n m.number m.most 0 ms m.numbered)) in
    let size : length ms ≡ length fs =
      omega (arith, ap length sorted, length-place_all (position start) [] fs) in
    let one_first : firs ms ≡ 1 =
      IsNumbered-one_first start n m.number m.most ms (omega (arith, m.many)) m.numbered in
    let one_last : fins ms ≡ 1 =
      IsNumbered-fins start n m.number m.most 0 ms m.numbered (omega (arith, m.many)) in
    let r =
      collect start n m.number m.most m.many fs t (omega (arith, size, m.many))
        (IsIdle-IsCollecting start n t v) parts.1 apart
        (rw v.no_frag (Clear-nil (position start) fs)) (rw v.no_frag (omega (arith, size)))
        (rw (v.no_frag, sorted) one_first) (rw (v.no_frag, sorted) one_last) in
    (r.0 ∙ rw v.no_frag (ap (map whole) sorted), r.1)

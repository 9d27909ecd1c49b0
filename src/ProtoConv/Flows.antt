-- ===== src/ProtoConv/Flows.antt =====
-- src/ProtoConv/DNP3FragHandler.h and src/ProtoConv/DNP3FragHandler.cpp: the fragments of each
-- transport flow wait until the message is whole. A posted function runs at once: the strands of the
-- handler and of a flow keep the order of the frames of that flow.
pub mod Pending
pub mod Flags
pub mod Message
pub mod Collecting
pub mod Numbered
pub mod Reassembled
pub mod Isolated
mod Tests
use mini_plex.Base.{
  ℕ, ◌+◌, ◌-◌, ◌%◌, ◌^◌, Bool, true, false, not, ◌&&◌, ◌||◌, List, [], ◌∷◌, ◌++◌, length, map, ◌==◌,
  ltb, if◌then◌else◌, Option, none, some,
}
use mini_plex.ProtoConv.{Frame, is_fragment}
use mini_plex.ProtoConv.Reorder.{Write}

-- `FragCmp`: `l` comes out of the queue after `r`.
unfoldable pub frag_cmp : Frame → Frame → Bool
frag_cmp l r =
    let above = ltb (l.seq - r.seq) ((r.seq + 64 + 2 ^ 64 - l.seq) % 2 ^ 64) in
    let below = not (ltb (r.seq - l.seq) ((l.seq + 64 + 2 ^ 64 - r.seq) % 2 ^ 64)) in
    if r.fir
    then true
    else if l.fir
    then false
    else if r.fin
    then false
    else if l.fin
    then true
    else if ltb r.seq l.seq
    then above
    else below

-- `frag_q`, as the list of its frames in the order in which they come out.
unfoldable pub emplace_frag : Frame → List Frame → List Frame
unfolding frag_cmp
emplace_frag f [] = f ∷ []
emplace_frag f (g ∷ q) = let rest = emplace_frag f q in if frag_cmp g f then f ∷ g ∷ q else g ∷ rest

-- `TransportFlow`; `hasSeq` is a list, and its members have 8 bits.
pub record TransportFlow : Type 0 where
  pub frag_q : List Frame
  pub next_frame : Option Frame
  pub has_seq : List ℕ
  pub has_fin : Bool
  pub has_fir : Bool
  pub fin_seq : ℕ
  pub fir_seq : ℕ

abbrev pub new_flow : TransportFlow
new_flow = record {
  frag_q = [];
  next_frame = none;
  has_seq = [];
  has_fin = false;
  has_fir = false;
  fin_seq = 0;
  fir_seq = 0;
}

abbrev pub whole : Frame → Write
whole f = record { buf = f.buf; sz = f.len }

abbrev pub waiting : Option Frame → List Write
waiting none = []
waiting (some f) = whole f ∷ []

-- `hasSeq.contains`
unfoldable pub contains_seq : ℕ → List ℕ → Bool
contains_seq x [] = false
contains_seq x (y ∷ ys) = x == y || contains_seq x ys

-- `Flush`
unfoldable pub flush : TransportFlow → TransportFlow × List Write
flush t = (
  record t { frag_q = []; next_frame = none; has_seq = []; has_fin = false; has_fir = false },
  map whole t.frag_q ++ waiting t.next_frame,
)

-- The fragment is a second one of its kind.
unfoldable pub is_duplicate : Frame → TransportFlow → Bool
unfolding contains_seq
is_duplicate f t =
    (t.has_fir && f.fir) || (t.has_fin && f.fin) || contains_seq (f.seq % 256) t.has_seq

-- The fragment is queued.
unfoldable pub queue_frag : Frame → TransportFlow → TransportFlow
unfolding emplace_frag
queue_frag f t = record t {
  frag_q = emplace_frag f t.frag_q;
  has_seq = f.seq % 256 ∷ t.has_seq;
  has_fin = f.fin || t.has_fin;
  has_fir = f.fir || t.has_fir;
  fin_seq = if f.fin then f.seq % 256 else t.fin_seq;
  fir_seq = if f.fir then f.seq % 256 else t.fir_seq;
}

-- All fragments of the message are there.
unfoldable pub is_full : TransportFlow → Bool
is_full t = t.has_fir && t.has_fin && ((t.fir_seq + length t.frag_q - 1) % 64 == t.fin_seq)

-- The two branches of `HandleFrame` on a flow.
unfoldable pub handle_fragment : Frame → TransportFlow → TransportFlow × List Write
unfolding flush is_duplicate queue_frag is_full
handle_fragment f t =
    let a = if is_duplicate f t then flush t else (t, []) in
    let u = queue_frag f a.0 in let b = if is_full u then flush u else (u, []) in (b.0, a.1 ++ b.1)

abbrev pub is_some : Option Frame → Bool
is_some none = false
is_some (some f) = true

abbrev pub is_empty : List Frame → Bool
is_empty [] = true
is_empty (f ∷ q) = false

unfoldable pub handle_whole : Frame → TransportFlow → TransportFlow × List Write
unfolding flush
handle_whole f t =
    let a = flush t in
    if is_some t.next_frame
    then (a.0, a.1 ++ whole f ∷ [])
    else if is_empty t.frag_q
    then (t, whole f ∷ [])
    else (record t { next_frame = some f }, [])

unfoldable pub handle_flow : Frame → TransportFlow → TransportFlow × List Write
unfolding handle_fragment handle_whole
handle_flow f t = if is_fragment f then handle_fragment f t else handle_whole f t

-- `TransportFlows[frame.flow]`, with a new flow where there is none.
unfoldable pub handle_at : Frame → List (ℕ × TransportFlow) → List (ℕ × TransportFlow) × List Write
unfolding handle_flow
handle_at f [] = let r = handle_flow f new_flow in ((f.flow, r.0) ∷ [], r.1)
handle_at f ((i, t) ∷ flows) =
    let rest = handle_at f flows in
    let r = handle_flow f t in
    if i == f.flow then ((i, r.0) ∷ flows, r.1) else ((i, t) ∷ rest.0, rest.1)

-- `DNP3FragHandler::HandleFrame`
unfoldable pub dnp3_handle_frame :
    Frame → List (ℕ × TransportFlow) → List (ℕ × TransportFlow) × List Write
unfolding handle_at
dnp3_handle_frame f flows = if f.flow == 0 then (flows, whole f ∷ []) else handle_at f flows

-- ===== src/ProtoConv/Reorder.antt =====
-- src/ProtoConv/DelimFragHandler.h: frames that arrive out of sequence wait in a queue, and are
-- released in sequence. Times are in one unit. A call of `write_handler` is a `Write`.
pub mod Conserved
pub mod Sequence
pub mod Late
pub mod Circular
pub mod Runs
pub mod InTime
pub mod Restoring
pub mod Restored
mod Tests
use mini_plex.Base.{
  ℕ, suc, ◌+◌, ◌-◌, ◌%◌, ◌^◌, Bool, true, false, not, ◌||◌, List, [], ◌∷◌, ◌++◌, length, map, ◌==◌,
  ltb, if◌then◌else◌,
}
use mini_plex.ProtoConv.{Frame}

-- The arguments of `WriteHandler`.
pub record Write : Type 0 where
  pub buf : List ℕ
  pub sz : ℕ

-- `FrameCmp`: `l` comes out of the queue after `r`. A `size_t` is below 2 ^ 64, and no difference
-- wraps.
unfoldable pub frame_cmp : Frame → Frame → Bool
frame_cmp l r =
    if ltb r.seq l.seq then ltb (l.seq - r.seq) 0x7fffffff else not (ltb (r.seq - l.seq) 0x7fffffff)

-- `frame_q`, as the list of its frames in the order in which they come out: frames that `FrameCmp`
-- does not order come out in the order of arrival. The top is the head.
unfoldable pub emplace : Frame → List Frame → List Frame
unfolding frame_cmp
emplace f [] = f ∷ []
emplace f (g ∷ q) = let rest = emplace f q in if frame_cmp g f then f ∷ g ∷ q else g ∷ rest

-- The object's fields.
pub record DelimFragHandler : Type 0 where
  pub seq_max_q : ℕ
  pub seq_max_tms : ℕ
  pub expected_seq : ℕ
  pub frame_q : List Frame
  pub latest_top_change : ℕ
  pub last_top_seq : ℕ

-- The constructor.
unfoldable pub new_handler : ℕ → ℕ → ℕ → DelimFragHandler
new_handler seq_max_q seq_max_tms now = record {
  seq_max_q = seq_max_q;
  seq_max_tms = seq_max_tms;
  expected_seq = 0;
  frame_q = [];
  latest_top_change = now;
  last_top_seq = 2 ^ 32 - 1;
}

-- The frames that the loop of `HandleFrame` takes, those that stay, and `expected_seq` after it.
unfoldable pub drain : ℕ → List Frame → List Frame × (List Frame × ℕ)
drain expected [] = ([], ([], expected))
drain expected (f ∷ q) =
    let r = drain ((expected + 1) % 2 ^ 32) q in
    if f.seq == expected then (f ∷ r.0, r.1) else ([], (f ∷ q, expected))

-- Past the delimiter, the sequence number and the CRC.
abbrev pub strip : Frame → Write
strip f = record { buf = f.buf; sz = f.len - 10 }

-- The top changes.
unfoldable pub note_top : ℕ → Frame → DelimFragHandler → DelimFragHandler
note_top now top s =
    if top.seq == s.last_top_seq
    then s
    else record s { latest_top_change = now; last_top_seq = top.seq % 2 ^ 32 }

-- Too many frames are out of sequence, or the top has waited for too long.
unfoldable pub is_stuck : ℕ → DelimFragHandler → Bool
is_stuck now s = ltb s.seq_max_q (length s.frame_q) || ltb (s.latest_top_change + s.seq_max_tms) now

-- The value of `expected_seq` with which the loop begins.
unfoldable pub start_seq : ℕ → Frame → DelimFragHandler → ℕ
unfolding is_stuck
start_seq now top s =
    if top.seq == s.expected_seq
    then s.expected_seq
    else if is_stuck now s
    then top.seq % 2 ^ 32
    else s.expected_seq

-- The posted part of `HandleFrame`, from the reads of the top on, for the queue with the new frame.
unfoldable pub release : ℕ → List Frame → DelimFragHandler → DelimFragHandler × List Write
unfolding note_top start_seq drain
release now [] s = (record s { frame_q = [] }, [])
release now (top ∷ q) s =
    let t = note_top now top (record s { frame_q = top ∷ q }) in
    let r = drain (start_seq now top t) (top ∷ q) in
    (record t { frame_q = r.1.0; expected_seq = r.1.1 }, map strip r.0)

-- `HandleFrame`
unfoldable pub handle_frame : ℕ → Frame → DelimFragHandler → DelimFragHandler × List Write
unfolding release emplace
handle_frame now frame s =
    if not (frame.flow == 1) || ltb frame.len 10
    then (s, record { buf = frame.buf; sz = frame.len } ∷ [])
    else release now (emplace frame s.frame_q) s

-- What a frame is written as: stripped, or as it is when it is not framed.
abbrev pub written : Frame → Write
written f =
    if not (f.flow == 1) || ltb f.len 10 then record { buf = f.buf; sz = f.len } else strip f

-- A sequence of calls, each at a time, and the writes that they make.
unfoldable pub handle_all : List (ℕ × Frame) → DelimFragHandler → DelimFragHandler × List Write
unfolding handle_frame
handle_all [] s = (s, [])
handle_all ((now, f) ∷ fs) s =
    let r = handle_frame now f s in let rest = handle_all fs r.0 in (rest.0, r.1 ++ rest.1)

-- A frame that goes through the queue.
abbrev pub is_framed : Frame → Bool
is_framed f = not (not (f.flow == 1) || ltb f.len 10)

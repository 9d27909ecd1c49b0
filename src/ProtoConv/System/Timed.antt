-- ===== src/ProtoConv/System/Timed.antt =====
-- src/ProtoConv/ProtoConv.cpp with a delimiter: the frames of reads, with the times of the reads.
use mini_plex.Base.{ℕ, ◌≤◌, ◌+◌, ◌≡◌, refl, sym, ap, ◌∙◌, true, List, [], ◌∷◌, ◌++◌, append_assoc}
use mini_plex.Base.Every.{Every}
use mini_plex.ProtoConv.{Frame}
use mini_plex.ProtoConv.Construct.{delim_framing}
use mini_plex.ProtoConv.Delim.{delim_checker}
use mini_plex.ProtoConv.Reorder.{DelimFragHandler, handle_frame, handle_all, is_framed}
use mini_plex.ProtoConv.Reorder.Sequence.{AllFramed}
use mini_plex.ProtoConv.Reorder.Restoring.{AllTimely, frames_of}
use mini_plex.ProtoConv.Stream.{rcv_stream_handler}
use mini_plex.ProtoConv.Stream.Reads.{rcv_all}
use mini_plex.ProtoConv.System.{handle, handle_each, rcv_stream, rcv_streams}
use mini_plex.ProtoConv.System.Messages.{read_bytes}
use mini_plex.ProtoConv.Through.{at_time}

-- The frames that reads make, each at the time of the read that completes it.
unfoldable pub timed : ℕ → List (ℕ × List ℕ) → List ℕ → List (ℕ × Frame)
timed delim [] buf = []
timed delim ((now, bytes) ∷ chunks) buf =
    let found = rcv_stream_handler (delim_checker delim) (buf ++ bytes) in
    at_time now found.0 ++ timed delim chunks found.1

-- The times of reads are within a span.
unfoldable pub AllReads : ℕ → ℕ → List (ℕ × List ℕ) → Type 0
AllReads from span [] = Unit
AllReads from span ((now, bytes) ∷ chunks) =
    (from ≤ now) × (now ≤ from + span) × AllReads from span chunks

handle_each-delim :
    (delim now : ℕ) (fs : List Frame) (s : DelimFragHandler)
    → handle_each now fs (delim_framing delim s)
      ≡ (delim_framing delim (handle_all (at_time now fs) s).0, (handle_all (at_time now fs) s).1)
unfolding handle_each handle handle_all
handle_each-delim delim now [] s = refl
handle_each-delim delim now (f ∷ fs) s =
    ap (λ r. (r.0, (handle_frame now f s).1 ++ r.1))
      (handle_each-delim delim now fs (handle_frame now f s).0)

handle_all-append :
    (fs gs : List (ℕ × Frame)) (s : DelimFragHandler)
    → handle_all (fs ++ gs) s ≡ (
      (handle_all gs (handle_all fs s).0).0,
      (handle_all fs s).1 ++ (handle_all gs (handle_all fs s).0).1,
    )
unfolding handle_all
handle_all-append [] gs s = refl
handle_all-append ((now, f) ∷ fs) gs s =
    let r = handle_frame now f s in
    ap (λ t. (t.0, r.1 ++ t.1)) (handle_all-append fs gs r.0)
    ∙ ap (λ w. ((handle_all gs (handle_all fs r.0).0).0, w))
        (sym (append_assoc r.1 (handle_all fs r.0).1 (handle_all gs (handle_all fs r.0).0).1))

-- The frames of the reads go through the fragment handler at their times.
pub rcv_streams-timed :
    (delim : ℕ) (chunks : List (ℕ × List ℕ)) (buf : List ℕ) (s : DelimFragHandler)
    → let r = handle_all (timed delim chunks buf) s in
      rcv_streams chunks buf (delim_framing delim s)
      ≡ (delim_framing delim r.0, ((rcv_all (delim_checker delim) (read_bytes chunks) buf).1, r.1))
unfolding rcv_streams rcv_stream rcv_all timed handle_all
rcv_streams-timed delim [] buf s = refl
rcv_streams-timed delim ((now, bytes) ∷ chunks) buf s =
    let found = rcv_stream_handler (delim_checker delim) (buf ++ bytes) in
    let done = handle_each-delim delim now found.0 s in
    let rest = rcv_streams-timed delim chunks found.1 (handle_all (at_time now found.0) s).0 in
    rw (done, rest, handle_all-append (at_time now found.0) (timed delim chunks found.1) s) refl

frames_of-append :
    (now : ℕ) (fs : List Frame) (gs : List (ℕ × Frame))
    → frames_of (at_time now fs ++ gs) ≡ fs ++ frames_of gs
frames_of-append now [] gs = refl
frames_of-append now (f ∷ fs) gs = ap (λ t. f ∷ t) (frames_of-append now fs gs)

pub frames_of-timed :
    (delim : ℕ) (chunks : List (ℕ × List ℕ)) (buf : List ℕ)
    → frames_of (timed delim chunks buf) ≡ (rcv_all (delim_checker delim) (read_bytes chunks) buf).0
unfolding timed rcv_all
frames_of-timed delim [] buf = refl
frames_of-timed delim ((now, bytes) ∷ chunks) buf =
    let found = rcv_stream_handler (delim_checker delim) (buf ++ bytes) in
    frames_of-append now found.0 (timed delim chunks found.1)
    ∙ ap (λ t. found.0 ++ t) (frames_of-timed delim chunks found.1)

AllTimely-append :
    (from span now : ℕ) (fs : List Frame) (gs : List (ℕ × Frame))
    → from ≤ now
    → now ≤ from + span
    → AllTimely from span gs
    → AllTimely from span (at_time now fs ++ gs)
unfolding AllTimely
AllTimely-append from span now [] gs a b v = v
AllTimely-append from span now (f ∷ fs) gs a b v =
    (a, b, AllTimely-append from span now fs gs a b v)

pub timed-AllTimely :
    (delim from span : ℕ) (chunks : List (ℕ × List ℕ)) (buf : List ℕ)
    → AllReads from span chunks
    → AllTimely from span (timed delim chunks buf)
unfolding timed AllReads AllTimely
timed-AllTimely delim from span [] buf v = tt
timed-AllTimely delim from span ((now, bytes) ∷ chunks) buf (a, b, v) =
    let found = rcv_stream_handler (delim_checker delim) (buf ++ bytes) in
    AllTimely-append from span now found.0 (timed delim chunks found.1) a b
      (timed-AllTimely delim from span chunks found.1 v)

pub frames_of-AllFramed :
    (fs : List (ℕ × Frame)) → Every (λ f. is_framed f ≡ true) (frames_of fs) → AllFramed fs
unfolding Every AllFramed
frames_of-AllFramed [] v = tt
frames_of-AllFramed ((now, f) ∷ fs) (h, v) = (h, frames_of-AllFramed fs v)

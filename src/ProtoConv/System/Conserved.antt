-- ===== src/ProtoConv/System/Conserved.antt =====
-- src/ProtoConv/ProtoConv.cpp: what is read from a stream is written as datagrams, whatever the
-- framing.
use mathlib.Core.List.Perm
use mathlib.Core.List.{Perm}
use mini_plex.Base.{
  ℕ, ◌≡◌, refl, sym, ap, ◌∙◌, subst, List, [], ◌∷◌, ◌++◌, map, map-append, append_assoc, append_nil,
  arith,
}
use mini_plex.ProtoConv.{Frame}
use mini_plex.ProtoConv.Construct.{Framing, delim_framing, dnp3_framing, null_framing}
use mini_plex.ProtoConv.Flows.Pending.{dnp3_handle_frame-Perm}
use mini_plex.ProtoConv.Reorder.{Write}
use mini_plex.ProtoConv.Reorder.Conserved.{handle_frame-Perm, swap_front}
use mini_plex.ProtoConv.Stream.{
  rcv_stream_handler, frames_bytes, AllFilled, rcv_stream_handler-bytes,
}
use mini_plex.ProtoConv.System.{
  checker_of, nop_handle_frame, handle, handle_each, rcv_stream, rcv_streams, held_back, written_as,
}

-- The framing stays the one that the constructor chose.
handle-written_as :
    (now : ℕ) (f g : Frame) (framing : Framing)
    → written_as (handle now f framing).0 g ≡ written_as framing g
unfolding handle
handle-written_as now f g (delim_framing delim handler) = refl
handle-written_as now f g (dnp3_framing flows) = refl
handle-written_as now f g null_framing = refl

handle-Perm :
    (now : ℕ) (f : Frame) (framing : Framing)
    → Perm
        ((handle now f framing).1 ++ held_back (handle now f framing).0)
        (written_as framing f ∷ held_back framing)
unfolding handle
handle-Perm now f (delim_framing delim handler) = handle_frame-Perm now f handler
handle-Perm now f (dnp3_framing flows) = dnp3_handle_frame-Perm f flows
handle-Perm now f null_framing = unfold nop_handle_frame in Perm.refl _

map-written_as :
    (g h : Framing) (fs : List Frame)
    → ((f : Frame) → written_as g f ≡ written_as h f)
    → map (written_as g) fs ≡ map (written_as h) fs
map-written_as g h [] e = refl
map-written_as g h (f ∷ fs) e = ground (arith, e f, map-written_as g h fs e)

handle_each-written_as :
    (now : ℕ) (fs : List Frame) (g : Frame) (framing : Framing)
    → written_as (handle_each now fs framing).0 g ≡ written_as framing g
unfolding handle_each
handle_each-written_as now [] g framing = refl
handle_each-written_as now (f ∷ fs) g framing =
    handle_each-written_as now fs g (handle now f framing).0 ∙ handle-written_as now f g framing

-- Writes before writes: what two handlers in turn write and hold back.
perm_in_turn :
    (first later last given given_later held : List Write)
    → Perm (later ++ last) (given_later ++ held)
    → (before : List Write) → Perm (first ++ held) (given ++ before)
    → Perm ((first ++ later) ++ last) ((given ++ given_later) ++ before)
perm_in_turn first later last given given_later held p before q =
    subst (λ t. Perm t ((given ++ given_later) ++ before)) (sym (append_assoc first later last))
      (subst (Perm (first ++ (later ++ last))) (sym (append_assoc given given_later before)) (
        Perm.trans (Perm.append (Perm.refl first) p) (
          Perm.trans (swap_front first given_later held) (
            Perm.trans (Perm.append (Perm.refl given_later) q)
              (swap_front given_later given before)))))

handle_each-Perm :
    (now : ℕ) (fs : List Frame) (framing : Framing)
    → Perm
        ((handle_each now fs framing).1 ++ held_back (handle_each now fs framing).0)
        (map (written_as framing) fs ++ held_back framing)
unfolding handle_each
handle_each-Perm now [] framing = Perm.refl _
handle_each-Perm now (f ∷ fs) framing =
    let r = handle now f framing in
    let rest = handle_each now fs r.0 in
    let same = map-written_as r.0 framing fs (λ g. handle-written_as now f g framing) in
    perm_in_turn r.1 rest.1 (held_back rest.0) (written_as framing f ∷ [])
      (map (written_as framing) fs) (held_back r.0)
      (subst (λ t. Perm (rest.1 ++ held_back rest.0) (t ++ held_back r.0)) same
        (handle_each-Perm now fs r.0))
      (held_back framing) (handle-Perm now f framing)

frames_bytes-append :
    (xs ys : List Frame) → frames_bytes (xs ++ ys) ≡ frames_bytes xs ++ frames_bytes ys
unfolding frames_bytes
frames_bytes-append [] ys = refl
frames_bytes-append (x ∷ xs) ys =
    ap (λ t. x.buf ++ t) (frames_bytes-append xs ys)
    ∙ sym (append_assoc x.buf (frames_bytes xs) (frames_bytes ys))

AllFilled-append : (xs ys : List Frame) → AllFilled xs → AllFilled ys → AllFilled (xs ++ ys)
unfolding AllFilled
AllFilled-append [] ys a b = b
AllFilled-append (x ∷ xs) ys a b = (a.0, a.1, AllFilled-append xs ys a.2 b)

-- The bytes of the reads, in order.
abbrev pub all_bytes : List (ℕ × List ℕ) → List ℕ
all_bytes [] = []
all_bytes ((now, bytes) ∷ chunks) = bytes ++ all_bytes chunks

-- Some frames, none of them empty, are what was read, but for what stays in the buffer; the writes,
-- with what the handler holds back, are these frames and what it held back before.
abbrev pub IsConserved : List ℕ → Framing → Framing × (List ℕ × List Write) → Type 0
IsConserved given framing r =
    (fs : List Frame) × (frames_bytes fs ++ r.1.0 ≡ given)
    × AllFilled fs
    × Perm (r.1.1 ++ held_back r.0) (map (written_as framing) fs ++ held_back framing)

rcv_stream-IsConserved :
    (now : ℕ) (buf : List ℕ) (framing : Framing)
    → IsConserved buf framing (rcv_stream now buf framing)
unfolding rcv_stream
rcv_stream-IsConserved now buf framing =
    let found = rcv_stream_handler (checker_of framing) buf in
    let (bytes, filled, stops) = rcv_stream_handler-bytes (checker_of framing) buf in
    (found.0, bytes, filled, handle_each-Perm now found.0 framing)

rcv_stream-written_as :
    (now : ℕ) (buf : List ℕ) (framing : Framing) (g : Frame)
    → written_as (rcv_stream now buf framing).0 g ≡ written_as framing g
unfolding rcv_stream
rcv_stream-written_as now buf framing g =
    handle_each-written_as now (rcv_stream_handler (checker_of framing) buf).0 g framing

-- Whatever the framing and however the bytes of a stream are split into reads, at whatever times:
-- the bytes read, with those that were in the buffer, are the bytes of a sequence of frames, none
-- empty, and then those that stay; the datagrams written, with the frames that the handler holds
-- back, are these frames and those it held back before, each exactly once.
pub rcv_streams-IsConserved :
    (chunks : List (ℕ × List ℕ)) (buf : List ℕ) (framing : Framing)
    → IsConserved (buf ++ all_bytes chunks) framing (rcv_streams chunks buf framing)
unfolding rcv_streams
rcv_streams-IsConserved [] buf framing =
    ([], unfold frames_bytes in sym (append_nil buf), unfold AllFilled in tt, Perm.refl _)
rcv_streams-IsConserved ((now, bytes) ∷ chunks) buf framing =
    let r = rcv_stream now (buf ++ bytes) framing in
    let rest = rcv_streams chunks r.1.0 r.0 in
    let (fs, b, a, p) = rcv_stream-IsConserved now (buf ++ bytes) framing in
    let (gs, c, d, q) = rcv_streams-IsConserved chunks r.1.0 r.0 in
    let same = map-written_as r.0 framing gs (rcv_stream-written_as now (buf ++ bytes) framing) in
    (
      fs ++ gs,
      ap (λ t. t ++ rest.1.0) (frames_bytes-append fs gs)
          ∙ append_assoc (frames_bytes fs) (frames_bytes gs) rest.1.0
          ∙ ap (λ t. frames_bytes fs ++ t) c
          ∙ sym (append_assoc (frames_bytes fs) r.1.0 (all_bytes chunks))
          ∙ ap (λ t. t ++ all_bytes chunks) b
          ∙ append_assoc buf bytes (all_bytes chunks),
      AllFilled-append fs gs a d,
      subst (λ t. Perm ((r.1.1 ++ rest.1.1) ++ held_back rest.0) (t ++ held_back framing))
          (sym (map-append (written_as framing) fs gs))
          (perm_in_turn r.1.1 rest.1.1 (held_back rest.0) (map (written_as framing) fs)
            (map (written_as framing) gs) (held_back r.0)
            (subst (λ t. Perm (rest.1.1 ++ held_back rest.0) (t ++ held_back r.0)) same q)
            (held_back framing) p),
    )

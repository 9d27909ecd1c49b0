-- ===== src/ProtoConv/System/Messages.antt =====
-- src/ProtoConv/ProtoConv.cpp with the framing of DNP3: messages from a stream to datagrams.
use mathlib.Core.List.{Perm}
use mathlib.Core.List.Perm
use mini_plex.Base.{
  ℕ, suc, ◌+◌, ◌*◌, ◌≤◌, ◌<◌, ◌%◌, ◌^◌, ◌≡◌, ◌≢◌, refl, sym, ap, ◌∙◌, true, List, [], ◌∷◌, ◌++◌,
  map, length, ◌==◌, append_assoc, arith,
}
use native.Mathlib.Bridge.{le_prop}
use mini_plex.Base.Every.{Every, Every-Perm}
use mini_plex.ProtoConv.{Frame, FrameChecker}
use mini_plex.ProtoConv.Construct.{dnp3_framing}
use mini_plex.ProtoConv.Dnp3.Lengths.{dnp3_checker}
use mini_plex.ProtoConv.Dnp3.Arriving.{sent_fragment, sent_fragment-IsFound}
use mini_plex.ProtoConv.Flows.{TransportFlow, whole, dnp3_handle_frame}
use mini_plex.ProtoConv.Flows.Flags.{handle_frames}
use mini_plex.ProtoConv.Flows.Isolated.{flow_of, only, writes_of, writes_of-IsMessage}
use mini_plex.ProtoConv.Flows.Numbered.{IsNumbered}
use mini_plex.ProtoConv.Flows.Reassembled.{IsMessage, IsIdle}
use mini_plex.ProtoConv.Reorder.{Write}
use mini_plex.ProtoConv.Stream.{rcv_stream_handler}
use mini_plex.ProtoConv.Stream.Reads.{
  Sent, IsFound, AllFound, joined, delivered, rcv_all, bytes_of, rcv_all-Sent,
}
use mini_plex.ProtoConv.System.{handle, handle_each, rcv_stream, rcv_streams}

-- What `HandleFrame` writes for frames, one after the other.
unfoldable pub writes_all : List Frame → List (ℕ × TransportFlow) → List Write
unfolding dnp3_handle_frame
writes_all [] flows = []
writes_all (f ∷ fs) flows = let r = dnp3_handle_frame f flows in r.1 ++ writes_all fs r.0

-- The bytes of reads at their times.
abbrev pub read_bytes : List (ℕ × List ℕ) → List (List ℕ)
read_bytes [] = []
read_bytes ((now, bytes) ∷ chunks) = bytes ∷ read_bytes chunks

handle_each-dnp3 :
    (now : ℕ) (fs : List Frame) (flows : List (ℕ × TransportFlow))
    → handle_each now fs (dnp3_framing flows)
      ≡ (dnp3_framing (handle_frames fs flows), writes_all fs flows)
unfolding handle_each handle handle_frames writes_all
handle_each-dnp3 now [] flows = refl
handle_each-dnp3 now (f ∷ fs) flows =
    ap (λ r. (r.0, (dnp3_handle_frame f flows).1 ++ r.1))
      (handle_each-dnp3 now fs (dnp3_handle_frame f flows).0)

handle_frames-append :
    (fs gs : List Frame) (flows : List (ℕ × TransportFlow))
    → handle_frames (fs ++ gs) flows ≡ handle_frames gs (handle_frames fs flows)
unfolding handle_frames
handle_frames-append [] gs flows = refl
handle_frames-append (f ∷ fs) gs flows = handle_frames-append fs gs (dnp3_handle_frame f flows).0

writes_all-append :
    (fs gs : List Frame) (flows : List (ℕ × TransportFlow))
    → writes_all (fs ++ gs) flows ≡ writes_all fs flows ++ writes_all gs (handle_frames fs flows)
unfolding writes_all handle_frames
writes_all-append [] gs flows = refl
writes_all-append (f ∷ fs) gs flows =
    let r = dnp3_handle_frame f flows in
    ap (λ w. r.1 ++ w) (writes_all-append fs gs r.0)
    ∙ sym (append_assoc r.1 (writes_all fs r.0) (writes_all gs (handle_frames fs r.0)))

-- The frames that the reads make, handled one after the other.
rcv_streams-rcv_all :
    (chunks : List (ℕ × List ℕ)) (buf : List ℕ) (flows : List (ℕ × TransportFlow))
    → let r = rcv_all dnp3_checker (read_bytes chunks) buf in
      rcv_streams chunks buf (dnp3_framing flows)
      ≡ (dnp3_framing (handle_frames r.0 flows), (r.1, writes_all r.0 flows))
unfolding rcv_streams rcv_stream rcv_all handle_frames writes_all
rcv_streams-rcv_all [] buf flows = refl
rcv_streams-rcv_all ((now, bytes) ∷ chunks) buf flows =
    let found = rcv_stream_handler dnp3_checker (buf ++ bytes) in
    let done = handle_each-dnp3 now found.0 flows in
    let rest = rcv_streams-rcv_all chunks found.1 (handle_frames found.0 flows) in
    let r = rcv_all dnp3_checker (read_bytes chunks) found.1 in
    rw (done, rest, handle_frames-append found.0 r.0 flows, writes_all-append found.0 r.0 flows)
      refl

-- The fragments of a message from number `i` on, of `n`, as a sender makes them.
unfoldable pub fragments : ℕ → ℕ → ℕ → ℕ → ℕ → ℕ → List (List ℕ) → List Sent
fragments control dst src start n i [] = []
fragments control dst src start n i (app ∷ apps) =
    sent_fragment control dst src (i == 0) (suc i == n) ((start + i) % 64) app
    ∷ fragments control dst src start n (suc i) apps

-- The data of a fragment fits into a frame.
abbrev pub Fits : List ℕ → Type 0
Fits app = length app ≤ 249

-- The frame is one of a flow.
abbrev pub IsOfFlow : ℕ → Sent → Type 0
IsOfFlow k s = s.found.flow ≡ k

pub IsFound-prop : (checker : FrameChecker) (s : Sent) → IsProp (IsFound checker s)
IsFound-prop checker s = let filled : IsProp (0 < length s.bytes) = le_prop in hlevel

module _ (control dst src start n : ℕ) where
  fragments-AllFound :
      (i : ℕ) (apps : List (List ℕ))
      → dst < 2 ^ 16
      → src < 2 ^ 16
      → Every Fits apps
      → AllFound dnp3_checker (fragments control dst src start n i apps)
  unfolding Every fragments
  fragments-AllFound i [] d s v = tt
  fragments-AllFound i (app ∷ apps) d s (h, v) = (
    sent_fragment-IsFound control dst src (i == 0) (suc i == n) ((start + i) % 64) app d s
        (omega arith) h,
    fragments-AllFound (suc i) apps d s v,
  )

  fragments-IsOfFlow :
      (i : ℕ) (apps : List (List ℕ))
      → Every (IsOfFlow (src * 2 ^ 16 + dst)) (fragments control dst src start n i apps)
  unfolding Every fragments
  fragments-IsOfFlow i [] = tt
  fragments-IsOfFlow i (app ∷ apps) = (refl, fragments-IsOfFlow (suc i) apps)

  fragments-IsNumbered :
      (i : ℕ) (apps : List (List ℕ))
      → i + length apps ≡ n
      → IsNumbered start n i (map delivered (fragments control dst src start n i apps))
  unfolding IsNumbered fragments
  fragments-IsNumbered i [] h = omega (arith, h)
  fragments-IsNumbered i (app ∷ apps) h =
      (refl, refl, refl, fragments-IsNumbered (suc i) apps (omega (arith, h)))

  length-fragments :
      (i : ℕ) (apps : List (List ℕ))
      → length (map delivered (fragments control dst src start n i apps)) ≡ length apps
  unfolding fragments
  length-fragments i [] = refl
  length-fragments i (app ∷ apps) = ap suc (length-fragments (suc i) apps)

only-IsOfFlow :
    (k : ℕ) (sent : List Sent) (flows : List (ℕ × TransportFlow))
    → Every (IsOfFlow k) sent
    → (only k (map delivered sent) ≡ map delivered sent)
      × (writes_of k (map delivered sent) flows ≡ writes_all (map delivered sent) flows)
unfolding only writes_of writes_all Every
only-IsOfFlow k [] flows v = (refl, refl)
only-IsOfFlow k (s ∷ sent) flows (h, v) =
    let same : (s.found.flow == k) ≡ true = ground (arith, h) in
    let rest = only-IsOfFlow k sent (dnp3_handle_frame (delivered s) flows).0 v in
    rw same (
      ap (λ q. delivered s ∷ q) rest.0,
      ap (λ w. (dnp3_handle_frame (delivered s) flows).1 ++ w) rest.1,
    )

-- With the framing of DNP3: a message of 2 to 34 fragments of at most 249 bytes each, which a sender
-- encodes with addresses that are not both 0 and numbers from `start` on, and which arrive on the
-- stream in any order, in any reads at any times, while nothing of its flow waits. All fragments are
-- written to UDP whole, in the order of the message, no byte stays in the stream's buffer, and
-- nothing of the flow waits.
pub rcv_streams-fragments :
    (control dst src start : ℕ) (apps : List (List ℕ)) (arrival : List Sent)
    → (chunks : List (ℕ × List ℕ)) (flows : List (ℕ × TransportFlow)) → dst < 2 ^ 16
    → src < 2 ^ 16
    → src * 2 ^ 16 + dst ≢ 0
    → start < 64
    → 2 ≤ length apps
    → length apps ≤ 34
    → Every Fits apps
    → Perm arrival (fragments control dst src start (length apps) 0 apps)
    → bytes_of (read_bytes chunks) ≡ joined arrival
    → IsIdle (flow_of (src * 2 ^ 16 + dst) flows)
    → let sent = fragments control dst src start (length apps) 0 apps in
      let flow = src * 2 ^ 16 + dst in
      let after = handle_frames (map delivered arrival) flows in
      (rcv_streams chunks [] (dnp3_framing flows)
        ≡ (dnp3_framing after, ([], map whole (map delivered sent))))
      × IsIdle (flow_of flow after)
rcv_streams-fragments control dst src start apps arrival chunks flows d s nz st many most fits p b
      v =
    let n = length apps in
    let sent = fragments control dst src start n 0 apps in
    let flow = src * 2 ^ 16 + dst in
    let all =
      Every-Perm (IsFound dnp3_checker) (IsFound-prop dnp3_checker) arrival sent p
        (fragments-AllFound control dst src start n 0 apps d s fits) in
    let of_flow =
      Every-Perm (IsOfFlow flow) (λ x. hlevel) arrival sent p
        (fragments-IsOfFlow control dst src start n 0 apps) in
    let found = rcv_all-Sent dnp3_checker (read_bytes chunks) arrival all b in
    let own = only-IsOfFlow flow arrival flows of_flow in
    let size = length-fragments control dst src start n 0 apps in
    let message : IsMessage start (map delivered sent) = record {
      number = st;
      many = rw size many;
      most = rw size most;
      numbered = rw size (fragments-IsNumbered control dst src start n 0 apps (omega arith));
    } in
    let r =
      writes_of-IsMessage flow start (map delivered sent) (map delivered arrival) flows nz message
        (rw own.0 (Perm.map delivered p)) v in
    (rcv_streams-rcv_all chunks [] flows ∙ rw (found, sym own.1, r.0) refl, r.1)

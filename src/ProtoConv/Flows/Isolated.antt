-- ===== src/ProtoConv/Flows/Isolated.antt =====
-- src/ProtoConv/DNP3FragHandler.cpp: flows do not affect each other.
use mathlib.Core.List.{Perm}
use mini_plex.Base.{
  ℕ, ◌≡◌, ◌≢◌, refl, ap, ◌∙◌, inl, inr, true, false, List, [], ◌∷◌, ◌++◌, map, ◌==◌, if◌then◌else◌,
  Bool-cases, arith,
}
use mini_plex.ProtoConv.{Frame}
use mini_plex.ProtoConv.Reorder.{Write}
use mini_plex.ProtoConv.Flows.{
  TransportFlow, new_flow, whole, handle_flow, handle_at, dnp3_handle_frame,
}
use mini_plex.ProtoConv.Flows.Flags.{handle_frames}
use mini_plex.ProtoConv.Flows.Reassembled.{
  handle_flow_all, IsMessage, IsIdle, handle_flow_all-IsMessage,
}

-- The flow at a key, new where there is none.
unfoldable pub flow_of : ℕ → List (ℕ × TransportFlow) → TransportFlow
flow_of k [] = new_flow
flow_of k ((i, t) ∷ flows) = if i == k then t else flow_of k flows

-- The frames of one flow, in their order.
unfoldable pub only : ℕ → List Frame → List Frame
only k [] = []
only k (f ∷ fs) = let rest = only k fs in if f.flow == k then f ∷ rest else rest

-- What is written while frames of one flow are handled, among frames of any flows.
unfoldable pub writes_of : ℕ → List Frame → List (ℕ × TransportFlow) → List Write
unfolding dnp3_handle_frame
writes_of k [] flows = []
writes_of k (f ∷ fs) flows =
    let r = dnp3_handle_frame f flows in
    let rest = writes_of k fs r.0 in if f.flow == k then r.1 ++ rest else rest

handle_at-writes :
    (f : Frame) (flows : List (ℕ × TransportFlow))
    → (handle_at f flows).1 ≡ (handle_flow f (flow_of f.flow flows)).1
unfolding handle_at flow_of
handle_at-writes f [] = refl
handle_at-writes f ((i, t) ∷ flows) = elim (Bool-cases (i == f.flow)) [
  | inl e ↦ rw e refl
  | inr e ↦ rw e (handle_at-writes f flows)
]

handle_at-same :
    (f : Frame) (flows : List (ℕ × TransportFlow))
    → flow_of f.flow (handle_at f flows).0 ≡ (handle_flow f (flow_of f.flow flows)).0
unfolding handle_at flow_of
handle_at-same f [] = let e : (f.flow == f.flow) ≡ true = ground arith in rw e refl
handle_at-same f ((i, t) ∷ flows) = elim (Bool-cases (i == f.flow)) [
  | inl e ↦ rw (e, e) refl
  | inr e ↦ rw (e, e) (handle_at-same f flows)
]

handle_at-other :
    (k : ℕ) (f : Frame) (flows : List (ℕ × TransportFlow))
    → (f.flow == k) ≡ false
    → flow_of k (handle_at f flows).0 ≡ flow_of k flows
unfolding handle_at flow_of
handle_at-other k f [] h = rw h refl
handle_at-other k f ((i, t) ∷ flows) h = elim (Bool-cases (i == f.flow)) [
  | inl e ↦ let o : (i == k) ≡ false = ground arith in rw (e, o) refl
  | inr e ↦ rw e (ap (λ r. if i == k then t else r) (handle_at-other k f flows h))
]

dnp3_handle_frame-same :
    (k : ℕ) (f : Frame) (flows : List (ℕ × TransportFlow))
    → k ≢ 0
    → (f.flow == k) ≡ true
    → ((dnp3_handle_frame f flows).1 ≡ (handle_flow f (flow_of k flows)).1)
      × (flow_of k (dnp3_handle_frame f flows).0 ≡ (handle_flow f (flow_of k flows)).0)
unfolding dnp3_handle_frame
dnp3_handle_frame-same k f flows nz h =
    let same : k ≡ f.flow = ground arith in
    let framed : (f.flow == 0) ≡ false = ground arith in
    rw (framed, same) (handle_at-writes f flows, handle_at-same f flows)

dnp3_handle_frame-other :
    (k : ℕ) (f : Frame) (flows : List (ℕ × TransportFlow))
    → (f.flow == k) ≡ false
    → flow_of k (dnp3_handle_frame f flows).0 ≡ flow_of k flows
unfolding dnp3_handle_frame
dnp3_handle_frame-other k f flows h = elim (Bool-cases (f.flow == 0)) [
  | inl e ↦ rw e refl
  | inr e ↦ rw e (handle_at-other k f flows h)
]

-- Whatever frames of other flows stand between them, the frames of a flow with an identifier other
-- than 0 have the writes and the state of their flow that they have alone.
pub writes_of-only :
    (k : ℕ) (fs : List Frame) (flows : List (ℕ × TransportFlow))
    → k ≢ 0
    → (writes_of k fs flows ≡ (handle_flow_all (only k fs) (flow_of k flows)).1)
      × (flow_of k (handle_frames fs flows) ≡ (handle_flow_all (only k fs) (flow_of k flows)).0)
unfolding writes_of only handle_frames handle_flow_all
writes_of-only k [] flows nz = (refl, refl)
writes_of-only k (f ∷ fs) flows nz = elim (Bool-cases (f.flow == k)) [
  | inl e ↦
      let same = dnp3_handle_frame-same k f flows nz e in
      let rest = writes_of-only k fs (dnp3_handle_frame f flows).0 nz in
      rw e (rw (rest.0, same.0, same.1) refl, rw (rest.1, same.1) refl)
  | inr e ↦
      let other = dnp3_handle_frame-other k f flows e in
      let rest = writes_of-only k fs (dnp3_handle_frame f flows).0 nz in
      rw e (rw (rest.0, other) refl, rw (rest.1, other) refl)
]

-- A message of 2 to 34 fragments, with consecutive sequence numbers modulo 64, whose fragments arrive
-- in any order, among any frames of other flows, on a flow that holds nothing: its fragments are
-- written whole, in the order of the message, and the flow holds nothing again.
pub writes_of-IsMessage :
    (k start : ℕ) (ms fs : List Frame) (flows : List (ℕ × TransportFlow))
    → k ≢ 0
    → IsMessage start ms
    → Perm (only k fs) ms
    → IsIdle (flow_of k flows)
    → (writes_of k fs flows ≡ map whole ms) × IsIdle (flow_of k (handle_frames fs flows))
writes_of-IsMessage k start ms fs flows nz m p v =
    let alone = writes_of-only k fs flows nz in
    let r = handle_flow_all-IsMessage start ms (only k fs) (flow_of k flows) m p v in
    (alone.0 ∙ r.0, rw alone.1 r.1)

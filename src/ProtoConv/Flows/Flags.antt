-- ===== src/ProtoConv/Flows/Flags.antt =====
-- src/ProtoConv/DNP3FragHandler.cpp: what the fields of a flow say about its queue.
use mini_plex.Base.{
  ℕ, ◌+◌, ◌≡◌, refl, inl, inr, Bool, true, false, ◌&&◌, List, [], ◌∷◌, ◌==◌, if◌then◌else◌,
  Bool-cases, arith,
}
use mini_plex.ProtoConv.{Frame, is_fragment}
use mini_plex.ProtoConv.Flows.{
  TransportFlow, new_flow, is_some, is_empty, emplace_frag, flush, is_duplicate, queue_frag,
  is_full, handle_fragment, handle_whole, handle_flow, handle_at, dnp3_handle_frame,
}

abbrev pub one_if : Bool → ℕ
one_if true = 1
one_if false = 0

-- How many first and last fragments a queue holds.
unfoldable pub firs : List Frame → ℕ
firs [] = 0
firs (f ∷ q) = one_if f.fir + firs q

unfoldable pub fins : List Frame → ℕ
fins [] = 0
fins (f ∷ q) = one_if f.fin + fins q

-- The flags say whether the queue holds its one first and its one last fragment, and a frame that is
-- no fragment waits only behind fragments.
pub record IsFlow (t : TransportFlow) : Type 0 where
  pub first : firs t.frag_q ≡ one_if t.has_fir
  pub last : fins t.frag_q ≡ one_if t.has_fin
  pub behind : is_some t.next_frame ≡ true → is_empty t.frag_q ≡ false

pub firs-emplace_frag :
    (f : Frame) (q : List Frame) → firs (emplace_frag f q) ≡ one_if f.fir + firs q
unfolding firs emplace_frag
firs-emplace_frag f [] = refl
firs-emplace_frag f (g ∷ q) = ground (arith, firs-emplace_frag f q)

pub fins-emplace_frag :
    (f : Frame) (q : List Frame) → fins (emplace_frag f q) ≡ one_if f.fin + fins q
unfolding fins emplace_frag
fins-emplace_frag f [] = refl
fins-emplace_frag f (g ∷ q) = ground (arith, fins-emplace_frag f q)

filled-emplace_frag : (f : Frame) (q : List Frame) → is_empty (emplace_frag f q) ≡ false
unfolding emplace_frag
filled-emplace_frag f [] = refl
filled-emplace_frag f (g ∷ q) = ground arith

flush-IsFlow : (t : TransportFlow) → IsFlow (flush t).0
unfolding flush firs fins
flush-IsFlow t = record { first = refl; last = refl; behind = λ h. ground arith }

new_flow-IsFlow : IsFlow new_flow
unfolding firs fins
new_flow-IsFlow = record { first = refl; last = refl; behind = λ h. ground arith }

-- After the flush of a duplicate the fragment is the only one of its kind.
queue_frag-IsFlow :
    (f : Frame) (t : TransportFlow)
    → IsFlow t
    → (t.has_fir && f.fir) ≡ false
    → (t.has_fin && f.fin) ≡ false
    → IsFlow (queue_frag f t)
unfolding queue_frag
queue_frag-IsFlow f t v a b = record {
  first = ground (arith, v.first, firs-emplace_frag f t.frag_q);
  last = ground (arith, v.last, fins-emplace_frag f t.frag_q);
  behind = λ h. filled-emplace_frag f t.frag_q;
}

no_duplicate :
    (f : Frame) (t : TransportFlow)
    → is_duplicate f t ≡ false
    → ((t.has_fir && f.fir) ≡ false) × ((t.has_fin && f.fin) ≡ false)
unfolding is_duplicate
no_duplicate f t e = ground arith

queued :
    (f : Frame) (t : TransportFlow)
    → IsFlow t
    → IsFlow (queue_frag f (if is_duplicate f t then flush t else (t, [])).0)
unfolding flush
queued f t v = elim (Bool-cases (is_duplicate f t)) [
  | inl e ↦ rw e (queue_frag-IsFlow f (flush t).0 (flush-IsFlow t) refl refl)
  | inr e ↦ let (a, b) = no_duplicate f t e in rw e (queue_frag-IsFlow f t v a b)
]

handle_fragment-IsFlow : (f : Frame) (t : TransportFlow) → IsFlow t → IsFlow (handle_fragment f t).0
unfolding handle_fragment
handle_fragment-IsFlow f t v =
    let u = queue_frag f (if is_duplicate f t then flush t else (t, [])).0 in
    let w = queued f t v in
    elim (Bool-cases (is_full u)) [ inl e ↦ rw e (flush-IsFlow u) | inr e ↦ rw e w ]

handle_whole-IsFlow : (f : Frame) (t : TransportFlow) → IsFlow t → IsFlow (handle_whole f t).0
unfolding handle_whole
handle_whole-IsFlow f t v = elim (Bool-cases (is_some t.next_frame)) [
  | inl e ↦ rw e (flush-IsFlow t)
  | inr e ↦ elim (Bool-cases (is_empty t.frag_q)) [
    | inl n ↦ rw (e, n) v
    | inr n ↦ rw (e, n) (record { first = v.first; last = v.last; behind = λ h. n })
  ]
]

handle_flow-IsFlow : (f : Frame) (t : TransportFlow) → IsFlow t → IsFlow (handle_flow f t).0
unfolding handle_flow
handle_flow-IsFlow f t v = elim (Bool-cases (is_fragment f)) [
  | inl e ↦ rw e (handle_fragment-IsFlow f t v)
  | inr e ↦ rw e (handle_whole-IsFlow f t v)
]

unfoldable pub AllFlows : List (ℕ × TransportFlow) → Type 0
AllFlows [] = Unit
AllFlows ((i, t) ∷ flows) = IsFlow t × AllFlows flows

handle_at-AllFlows :
    (f : Frame) (flows : List (ℕ × TransportFlow)) → AllFlows flows → AllFlows (handle_at f flows).0
unfolding handle_at AllFlows
handle_at-AllFlows f [] v = (handle_flow-IsFlow f new_flow new_flow-IsFlow, tt)
handle_at-AllFlows f ((i, t) ∷ flows) (v, w) = elim (Bool-cases (i == f.flow)) [
  | inl e ↦ rw e (handle_flow-IsFlow f t v, w)
  | inr e ↦ rw e (v, handle_at-AllFlows f flows w)
]

-- The flows after a sequence of frames.
unfoldable pub handle_frames : List Frame → List (ℕ × TransportFlow) → List (ℕ × TransportFlow)
unfolding dnp3_handle_frame
handle_frames [] flows = flows
handle_frames (f ∷ fs) flows = handle_frames fs (dnp3_handle_frame f flows).0

-- After any frames, from flows that satisfy this and so from none: in every flow `hasFir` and
-- `hasFin` say whether the queue holds a first and a last fragment, of which it never holds two, and
-- a frame that is no fragment waits only behind fragments.
pub handle_frames-AllFlows :
    (fs : List Frame) (flows : List (ℕ × TransportFlow))
    → AllFlows flows
    → AllFlows (handle_frames fs flows)
unfolding handle_frames dnp3_handle_frame
handle_frames-AllFlows [] flows v = v
handle_frames-AllFlows (f ∷ fs) flows v = elim (Bool-cases (f.flow == 0)) [
  | inl e ↦ rw e (handle_frames-AllFlows fs flows v)
  | inr e ↦ rw e (handle_frames-AllFlows fs (handle_at f flows).0 (handle_at-AllFlows f flows v))
]

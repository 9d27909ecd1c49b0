-- ===== src/ProtoConv/Flows/Pending.antt =====
-- src/ProtoConv/DNP3FragHandler.cpp: which frames are written and which wait.
use mathlib.Core.List.Perm
use mathlib.Core.List.{Perm, perm_middle, perm_append_singleton}
use mini_plex.Base.{
  ℕ, ◌≡◌, refl, sym, subst, inl, inr, Bool, true, false, List, [], ◌∷◌, ◌++◌, map, ◌==◌,
  if◌then◌else◌, Option, none, some, Bool-cases, append_assoc, append_nil, arith,
}
use mini_plex.ProtoConv.{Frame, is_fragment}
use mini_plex.ProtoConv.Reorder.{Write}
use mini_plex.ProtoConv.Reorder.Conserved.{swap_front}
use mini_plex.ProtoConv.Flows.{
  TransportFlow, new_flow, whole, waiting, is_some, is_empty, frag_cmp, emplace_frag, flush,
  is_duplicate, queue_frag, is_full, handle_fragment, handle_whole, handle_flow, handle_at,
  dnp3_handle_frame,
}

-- What a flow holds back.
abbrev pub pending : TransportFlow → List Write
pending t = map whole t.frag_q ++ waiting t.next_frame

abbrev pub all_pending : List (ℕ × TransportFlow) → List Write
all_pending [] = []
all_pending ((i, t) ∷ flows) = pending t ++ all_pending flows

emplace_frag-Perm :
    (f : Frame) (q : List Frame) → Perm (map whole (emplace_frag f q)) (whole f ∷ map whole q)
unfolding emplace_frag
emplace_frag-Perm f [] = Perm.refl _
emplace_frag-Perm f (g ∷ q) = elim (Bool-cases (frag_cmp g f)) [
  | inl e ↦ rw e (Perm.refl _)
  | inr e ↦ rw e (
      Perm.trans (Perm.cons (whole g) (emplace_frag-Perm f q))
        (Perm.swap (whole f) (whole g) (map whole q)))
]

flush_if :
    (c : Bool) (t : TransportFlow)
    → (if c then flush t else (t, [])).1 ++ pending (if c then flush t else (t, [])).0 ≡ pending t
unfolding flush
flush_if true t = append_nil (pending t)
flush_if false t = refl

queue_frag-Perm :
    (f : Frame) (t : TransportFlow) → Perm (pending (queue_frag f t)) (whole f ∷ pending t)
unfolding queue_frag
queue_frag-Perm f t = Perm.append (emplace_frag-Perm f t.frag_q) (Perm.refl (waiting t.next_frame))

handle_fragment-Perm :
    (f : Frame) (t : TransportFlow)
    → Perm ((handle_fragment f t).1 ++ pending (handle_fragment f t).0) (whole f ∷ pending t)
unfolding handle_fragment
handle_fragment-Perm f t =
    let a = if is_duplicate f t then flush t else (t, []) in
    let u = queue_frag f a.0 in
    let b = if is_full u then flush u else (u, []) in
    rw (append_assoc a.1 b.1 (pending b.0), flush_if (is_full u) u)
      (Perm.trans (Perm.append (Perm.refl a.1) (queue_frag-Perm f a.0)) (
        subst (λ w. Perm (a.1 ++ (whole f ∷ pending a.0)) (whole f ∷ w))
          (flush_if (is_duplicate f t) t) (perm_middle a.1 (pending a.0))))

none_of : (o : Option Frame) → is_some o ≡ false → o ≡ none
none_of none e = refl
none_of (some f) e = ground arith

handle_whole-Perm :
    (f : Frame) (t : TransportFlow)
    → Perm ((handle_whole f t).1 ++ pending (handle_whole f t).0) (whole f ∷ pending t)
unfolding handle_whole
handle_whole-Perm f t = elim (Bool-cases (is_some t.next_frame)) [
  | inl e ↦
      rw (e, flush, append_nil (pending t ++ whole f ∷ []))
        (perm_append_singleton (whole f) (pending t))
  | inr e ↦ elim (Bool-cases (is_empty t.frag_q)) [
    | inl n ↦ rw (e, n) (Perm.refl _)
    | inr n ↦
        rw (e, n, none_of t.next_frame e, append_nil (map whole t.frag_q))
          (perm_append_singleton (whole f) (map whole t.frag_q))
  ]
]

handle_flow-Perm :
    (f : Frame) (t : TransportFlow)
    → Perm ((handle_flow f t).1 ++ pending (handle_flow f t).0) (whole f ∷ pending t)
unfolding handle_flow
handle_flow-Perm f t = elim (Bool-cases (is_fragment f)) [
  | inl e ↦ rw e (handle_fragment-Perm f t)
  | inr e ↦ rw e (handle_whole-Perm f t)
]

handle_at-Perm :
    (f : Frame) (flows : List (ℕ × TransportFlow))
    → Perm
        ((handle_at f flows).1 ++ all_pending (handle_at f flows).0)
        (whole f ∷ all_pending flows)
unfolding handle_at
handle_at-Perm f [] =
    rw (append_nil (pending (handle_flow f new_flow).0)) (handle_flow-Perm f new_flow)
handle_at-Perm f ((i, t) ∷ flows) = elim (Bool-cases (i == f.flow)) [
  | inl e ↦
      let r = handle_flow f t in
      rw (e, sym (append_assoc r.1 (pending r.0) (all_pending flows)))
        (Perm.append (handle_flow-Perm f t) (Perm.refl (all_pending flows)))
  | inr e ↦
      let rest = handle_at f flows in
      rw e (
        Perm.trans (swap_front rest.1 (pending t) (all_pending rest.0)) (
          Perm.trans (Perm.append (Perm.refl (pending t)) (handle_at-Perm f flows))
            (perm_middle (pending t) (all_pending flows))))
]

-- Whatever flows wait for what: the writes for a frame, with the frames that all flows hold back
-- after it, are the frames that they held back before and that frame, each exactly once and whole.
pub dnp3_handle_frame-Perm :
    (f : Frame) (flows : List (ℕ × TransportFlow))
    → Perm
        ((dnp3_handle_frame f flows).1 ++ all_pending (dnp3_handle_frame f flows).0)
        (whole f ∷ all_pending flows)
unfolding dnp3_handle_frame
dnp3_handle_frame-Perm f flows = elim (Bool-cases (f.flow == 0)) [
  | inl e ↦ rw e (Perm.refl _)
  | inr e ↦ rw e (handle_at-Perm f flows)
]

-- ===== src/ProtoConv/Flows/Collecting.antt =====
-- src/ProtoConv/DNP3FragHandler.cpp: a flow that collects the fragments of one message.
use mini_plex.Base.{
  ℕ, suc, ◌+◌, ◌-◌, ◌%◌, ◌≤◌, ◌<◌, ◌≡◌, refl, sym, ap, ◌∙◌, Bool, true, false, ◌||◌, List, [], ◌∷◌,
  map, length, ◌==◌, none, arith,
}
use mini_plex.Base.Placing.{Differs}
use mini_plex.ProtoConv.{Frame, is_fragment}
use mini_plex.ProtoConv.Flows.{
  TransportFlow, emplace_frag, contains_seq, is_duplicate, queue_frag, is_full, flush,
  handle_fragment, handle_flow,
}
use mini_plex.ProtoConv.Flows.Flags.{one_if, firs, fins, firs-emplace_frag, fins-emplace_frag}
use mini_plex.ProtoConv.Flows.Message.{position, IsPart, AllParts, emplace_frag-AllParts}

abbrev seq_byte : Frame → ℕ
seq_byte f = f.seq % 256

-- The queue holds fragments of one message, and the other fields describe them.
pub record IsCollecting (start n : ℕ) (t : TransportFlow) : Type 0 where
  pub parts : AllParts start n t.frag_q
  pub nothing_next : t.next_frame ≡ none
  pub first : firs t.frag_q ≡ one_if t.has_fir
  pub last : fins t.frag_q ≡ one_if t.has_fin
  pub from : t.has_fir ≡ true → t.fir_seq ≡ start
  pub to : t.has_fin ≡ true → t.fin_seq ≡ (start + n - 1) % 64
  pub seqs : (x : ℕ) → contains_seq x t.has_seq ≡ contains_seq x (map seq_byte t.frag_q)

contains-emplace_frag :
    (x : ℕ) (f : Frame) (q : List Frame)
    → contains_seq x (map seq_byte (emplace_frag f q))
      ≡ (x == seq_byte f || contains_seq x (map seq_byte q))
unfolding contains_seq emplace_frag
contains-emplace_frag x f [] = refl
contains-emplace_frag x f (g ∷ q) = ground (arith, contains-emplace_frag x f q)

pub length-emplace_frag : (f : Frame) (q : List Frame) → length (emplace_frag f q) ≡ suc (length q)
unfolding emplace_frag
length-emplace_frag f [] = refl
length-emplace_frag f (g ∷ q) = ground (arith, length-emplace_frag f q)

module _ (start n : ℕ) (s : start < 64) (most : n ≤ 34) (least : 2 ≤ n) where
  no_first :
      (f : Frame) (q : List Frame)
      → IsPart start n f
      → f.fir ≡ true
      → AllParts start n q
      → Differs (position start) (position start f) q
      → firs q ≡ 0
  unfolding firs AllParts Differs
  no_first f [] v e w d = refl
  no_first f (g ∷ q) v e (u, w) (h, d) =
      let rest = no_first f q v e w d in
      let other : g.fir ≡ false = ground (arith, v.first, u.first, e, h) in rw (other, rest) refl

  no_last :
      (f : Frame) (q : List Frame)
      → IsPart start n f
      → f.fin ≡ true
      → AllParts start n q
      → Differs (position start) (position start f) q
      → fins q ≡ 0
  unfolding fins AllParts Differs
  no_last f [] v e w d = refl
  no_last f (g ∷ q) v e (u, w) (h, d) =
      let rest = no_last f q v e w d in
      let other : g.fin ≡ false = ground (arith, v.last, u.last, e, h) in rw (other, rest) refl

  no_seq :
      (f : Frame) (q : List Frame)
      → IsPart start n f
      → AllParts start n q
      → Differs (position start) (position start f) q
      → contains_seq (f.seq % 256) (map seq_byte q) ≡ false
  unfolding contains_seq AllParts Differs
  no_seq f [] v w d = refl
  no_seq f (g ∷ q) v (u, w) (h, d) =
      let other : (f.seq % 256 == g.seq % 256) ≡ false = ground (arith, v.number, u.number, h) in
      rw (other, no_seq f q v w d) refl

  one_if_zero : (b : Bool) → one_if b ≡ 0 → b ≡ false
  one_if_zero true h = ground arith
  one_if_zero false h = refl

  not_duplicate :
      (f : Frame) (t : TransportFlow)
      → IsPart start n f
      → IsCollecting start n t
      → Differs (position start) (position start f) t.frag_q
      → is_duplicate f t ≡ false
  unfolding is_duplicate
  not_duplicate f t v w d =
      let seq : contains_seq (f.seq % 256) t.has_seq ≡ false =
        w.seqs (f.seq % 256) ∙ no_seq f t.frag_q v w.parts d in
      let fir = λ (e : f.fir ≡ true).
        one_if_zero t.has_fir (sym w.first ∙ no_first f t.frag_q v e w.parts d) in
      let fin = λ (e : f.fin ≡ true).
        one_if_zero t.has_fin (sym w.last ∙ no_last f t.frag_q v e w.parts d) in
      rw seq (ground (arith, fir, fin))

  part-is_fragment : (f : Frame) → IsPart start n f → is_fragment f ≡ true
  part-is_fragment f v = rw (v.first, v.last) (ground arith)

  one_if_or :
      (a b : Bool) (k m : ℕ)
      → k ≡ one_if a + m
      → m ≡ one_if b
      → (a ≡ true → m ≡ 0)
      → k ≡ one_if (a || b)
  one_if_or a b k m h l e = ground (arith, e)

  first_seq : (f : Frame) → IsPart start n f → f.fir ≡ true → f.seq % 256 ≡ start
  first_seq f v e = ground (arith, v.first, v.number, e)

  last_seq : (f : Frame) → IsPart start n f → f.fin ≡ true → f.seq % 256 ≡ (start + n - 1) % 64
  last_seq f v e = ground (arith, v.last, v.number, e)

  pub queue_frag-IsCollecting :
      (f : Frame) (t : TransportFlow)
      → IsPart start n f
      → IsCollecting start n t
      → Differs (position start) (position start f) t.frag_q
      → IsCollecting start n (queue_frag f t)
  unfolding queue_frag contains_seq
  queue_frag-IsCollecting f t v w d = record {
    parts = emplace_frag-AllParts start n s most f t.frag_q v w.parts;
    nothing_next = w.nothing_next;
    first =
        one_if_or f.fir t.has_fir _ (firs t.frag_q) (firs-emplace_frag f t.frag_q) w.first
          (λ e. no_first f t.frag_q v e w.parts d);
    last =
        one_if_or f.fin t.has_fin _ (fins t.frag_q) (fins-emplace_frag f t.frag_q) w.last
          (λ e. no_last f t.frag_q v e w.parts d);
    from = λ h. ground (arith, first_seq f v, w.from, h);
    to = λ h. ground (arith, last_seq f v, w.to, h);
    seqs =
        λ x. ap (λ b. x == f.seq % 256 || b) (w.seqs x) ∙ sym (contains-emplace_frag x f t.frag_q);
  }

  -- A part of the fragments is not taken for the message.
  not_full :
      (t : TransportFlow)
      → IsCollecting start n t
      → 0 < length t.frag_q
      → length t.frag_q < n
      → is_full t ≡ false
  unfolding is_full
  not_full t v h l = ground (arith, v.from, v.to)

  full :
      (t : TransportFlow)
      → IsCollecting start n t
      → length t.frag_q ≡ n
      → firs t.frag_q ≡ 1
      → fins t.frag_q ≡ 1
      → is_full t ≡ true
  unfolding is_full
  full t v h a b = ground (arith, v.from, v.to, v.first, v.last)

  -- A fragment before the last to arrive waits.
  pub handle_flow-waits :
      (f : Frame) (t : TransportFlow)
      → IsPart start n f
      → IsCollecting start n t
      → Differs (position start) (position start f) t.frag_q
      → suc (length t.frag_q) < n
      → handle_flow f t ≡ (queue_frag f t, [])
  unfolding handle_flow handle_fragment
  handle_flow-waits f t v w d l =
      let size = length-emplace_frag f t.frag_q in
      let waits =
        not_full (queue_frag f t) (queue_frag-IsCollecting f t v w d)
          (unfold queue_frag in omega (arith, size)) (unfold queue_frag in omega (arith, size)) in
      rw (part-is_fragment f v, not_duplicate f t v w d, waits) refl

  -- With the last to arrive, all are written, and nothing else.
  pub handle_flow-full :
      (f : Frame) (t : TransportFlow)
      → IsPart start n f
      → IsCollecting start n t
      → Differs (position start) (position start f) t.frag_q
      → suc (length t.frag_q) ≡ n
      → firs (emplace_frag f t.frag_q) ≡ 1
      → fins (emplace_frag f t.frag_q) ≡ 1
      → handle_flow f t ≡ flush (queue_frag f t)
  unfolding handle_flow handle_fragment
  handle_flow-full f t v w d l a b =
      let size = length-emplace_frag f t.frag_q in
      let whole_message =
        full (queue_frag f t) (queue_frag-IsCollecting f t v w d)
          (unfold queue_frag in omega (arith, size)) (unfold queue_frag in a)
          (unfold queue_frag in b) in
      rw (part-is_fragment f v, not_duplicate f t v w d, whole_message) refl

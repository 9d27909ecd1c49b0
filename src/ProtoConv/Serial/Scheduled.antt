-- ===== src/ProtoConv/Serial/Scheduled.antt =====
-- src/ProtoConv/SerialPortsManager.cpp: the schedule of writes is kept by arrivals and by ends of writes.
use mini_plex.Base.{
  subst, ℕ, zero, suc, ◌+◌, ◌≤◌, ◌≡◌, refl, sym, ap, ◌∙◌, inl, inr, true, ◌||◌, List, [], ◌∷◌, ◌++◌,
  map, is_nil, length, ltb, if◌then◌else◌, ite, Bool-cases, map-append, append_assoc, append_nil,
  length-append, ℕ_discrete, arith,
}
use mini_plex.Base.Sets.{count, contains, erase_one, count-append, count-erase_one_of}
use mini_plex.ProtoConv.Serial.{
  SerialPortsManager, Leaving, indices, limit_q, write_with, write, write_done_with, write_done,
}
use mini_plex.ProtoConv.Serial.Queue.{
  Writing, ports_of, message, after_write, after_done, Step, arrives, ends, Reach, here, next,
  initially, IsScheduled,
}

pub nil_of {ℓ} : {A : Type ℓ} (xs : List A) → is_nil xs ≡ true → xs ≡ []
nil_of [] h = refl
nil_of (x ∷ xs) h = cc

count-indices :
    (i k n : ℕ)
    → count ℕ_discrete i (indices k n) ≡ (if ltb i k then 0 else if ltb i (k + n) then 1 else 0)
count-indices i k zero = ground arith
count-indices i k (suc n) = ground (arith, count-indices i (suc k) n)

initially-IsScheduled : (n max : ℕ) → IsScheduled n max (initially n max)
unfolding initially
initially-IsScheduled n max = record {
  ports = λ i. ground (arith, count-indices i 0 n);
  working = ground arith;
  limit = refl;
  bounded = omega arith;
  in_order = refl;
}

-- What leaves in a call, before what stays in the queue.
limit_q-in_order :
    (max : ℕ) (q : List (List ℕ)) → map message (limit_q max q).1 ++ (limit_q max q).0 ≡ q
unfolding limit_q
limit_q-in_order max [] = refl
limit_q-in_order max (m ∷ q) = elim (Bool-cases (ltb max (length (m ∷ q)))) [
  | inl e ↦ rw e refl
  | inr e ↦ rw e refl
]

length-limit_q : (max : ℕ) (q : List (List ℕ)) → length q ≤ suc max → length (limit_q max q).0 ≤ max
unfolding limit_q
length-limit_q max [] h = omega arith
length-limit_q max (m ∷ q) h = ground arith

limit_q-ports : (max : ℕ) (q : List (List ℕ)) → ports_of (limit_q max q).1 ≡ []
unfolding limit_q
limit_q-ports max [] = refl
limit_q-ports max (m ∷ q) = ground arith

-- What one call of the manager keeps, for what it was given to write.
record Keeps (given : List (List ℕ)) (s t : SerialPortsManager) (ls : List Leaving) : Type 0 where
  order : map message ls ++ t.write_q ≡ s.write_q ++ given
  idles : (is_nil t.idle_port_idx_q || is_nil t.write_q) ≡ true
  size : t.max_write_q_sz ≡ s.max_write_q_sz
  short : length t.write_q ≤ s.max_write_q_sz

write_with-Keeps :
    (m : List ℕ) (idle : List ℕ) (s : SerialPortsManager)
    → (is_nil idle || is_nil s.write_q) ≡ true
    → length s.write_q ≤ s.max_write_q_sz
    → Keeps (m ∷ []) s (write_with m idle s).0 (write_with m idle s).1
unfolding write_with
write_with-Keeps m [] s h l = record {
  order = limit_q-in_order s.max_write_q_sz (s.write_q ++ m ∷ []);
  idles = refl;
  size = refl;
  short =
      length-limit_q s.max_write_q_sz (s.write_q ++ m ∷ [])
        (omega (arith, l, length-append s.write_q (m ∷ [])));
}
write_with-Keeps m (idx ∷ idle) s h l =
    let none_waits = nil_of s.write_q h in
    record { order = rw none_waits refl; idles = ground arith; size = refl; short = l }

write_with-ports :
    (i : ℕ) (m : List ℕ) (idle : List ℕ) (s : SerialPortsManager)
    → count ℕ_discrete i (write_with m idle s).0.idle_port_idx_q
        + count ℕ_discrete i (ports_of (write_with m idle s).1)
      ≡ count ℕ_discrete i idle
unfolding write_with
write_with-ports i m [] s = rw (limit_q-ports s.max_write_q_sz (s.write_q ++ m ∷ [])) refl
write_with-ports i m (idx ∷ idle) s = omega arith

write_done_with-Keeps :
    (idx : ℕ) (q : List (List ℕ)) (s : SerialPortsManager)
    → s.write_q ≡ q
    → (is_nil s.idle_port_idx_q || is_nil s.write_q) ≡ true
    → length s.write_q ≤ s.max_write_q_sz
    → Keeps [] s (write_done_with idx q s).0 (write_done_with idx q s).1
unfolding write_done_with
write_done_with-Keeps idx [] s e h l = record {
  order = rw e refl;
  idles = ground arith;
  size = refl;
  short = omega arith;
}
write_done_with-Keeps idx (m ∷ q) s e h l = record {
  order = sym (append_nil s.write_q ∙ e);
  idles = ground arith;
  size = refl;
  short = omega (arith, ap length e);
}

write_done_with-ports :
    (i idx : ℕ) (q : List (List ℕ)) (s : SerialPortsManager)
    → count ℕ_discrete i (write_done_with idx q s).0.idle_port_idx_q
        + count ℕ_discrete i (ports_of (write_done_with idx q s).1)
      ≡ count ℕ_discrete i s.idle_port_idx_q + ite (ℕ_discrete idx i) 1 0
unfolding write_done_with
write_done_with-ports i idx [] s =
    omega (arith, count-append ℕ_discrete i s.idle_port_idx_q (idx ∷ []))
write_done_with-ports i idx (m ∷ q) s = omega arith

-- A call of the manager that keeps the ports keeps the schedule.
Keeps-IsScheduled :
    {n max : ℕ} (given : List (List ℕ)) (w : Writing) (busy : List ℕ) (t : SerialPortsManager)
    (ls : List Leaving)
    → IsScheduled n max w
    → Keeps given w.manager t ls
    → ((i : ℕ)
        → count ℕ_discrete i t.idle_port_idx_q + count ℕ_discrete i busy
          ≡ count ℕ_discrete i w.manager.idle_port_idx_q + count ℕ_discrete i w.busy)
    → IsScheduled n max
        (record { manager = t; busy = busy; left = w.left ++ ls; arrived = w.arrived ++ given })
Keeps-IsScheduled given w busy t ls s k p = record {
  ports = λ i. p i ∙ s.ports i;
  working = k.idles;
  limit = k.size ∙ s.limit;
  bounded = omega (arith, k.short, s.limit);
  in_order =
      ap (λ x. x ++ t.write_q) (map-append message w.left ls)
      ∙ append_assoc (map message w.left) (map message ls) t.write_q
      ∙ ap (λ x. map message w.left ++ x) k.order
      ∙ sym (append_assoc (map message w.left) w.manager.write_q given)
      ∙ ap (λ x. x ++ given) s.in_order;
}

after_write-IsScheduled :
    {n max : ℕ} (m : List ℕ) (w : Writing)
    → IsScheduled n max w
    → IsScheduled n max (after_write m w)
unfolding after_write write
after_write-IsScheduled m w s =
    let idle = w.manager.idle_port_idx_q in
    let r = write_with m idle w.manager in
    Keeps-IsScheduled (m ∷ []) w (ports_of r.1 ++ w.busy) r.0 r.1 s
      (write_with-Keeps m idle w.manager s.working (omega (arith, s.limit, s.bounded)))
      (λ i. omega (
        arith,
        count-append ℕ_discrete i (ports_of r.1) w.busy,
        write_with-ports i m idle w.manager,
      ))

pub after_done-IsScheduled :
    {n max : ℕ} (idx : ℕ) (w : Writing)
    → contains ℕ_discrete w.busy idx ≡ true
    → IsScheduled n max w
    → IsScheduled n max (after_done idx w)
unfolding after_done write_done
after_done-IsScheduled {n} {max} idx w h s =
    let q = w.manager.write_q in
    let r = write_done_with idx q w.manager in
    let rest = erase_one ℕ_discrete idx w.busy in
    subst
      (λ a.
        IsScheduled n max (record {
          manager = r.0;
          busy = ports_of r.1 ++ rest;
          left = w.left ++ r.1;
          arrived = a;
        }))
      (append_nil w.arrived)
      (Keeps-IsScheduled [] w (ports_of r.1 ++ rest) r.0 r.1 s
        (write_done_with-Keeps idx q w.manager refl s.working (omega (arith, s.limit, s.bounded)))
        (λ i. omega (
          arith,
          count-append ℕ_discrete i (ports_of r.1) rest,
          write_done_with-ports i idx q w.manager,
          count-erase_one_of ℕ_discrete idx i w.busy h,
        )))

Step-IsScheduled :
    {n max : ℕ} {u v : Writing} → IsScheduled n max u → Step u v → IsScheduled n max v
Step-IsScheduled s (arrives m) = after_write-IsScheduled m _ s
Step-IsScheduled s (ends idx h) = after_done-IsScheduled idx _ h s

-- From the constructor's state, after any interleaving of messages and ends of writes: each port is
-- either idle or has exactly one outstanding write, messages wait only while no port is idle, at
-- most `MaxWriteQSz` of them wait, and messages leave in the order in which they arrived.
pub Reach-IsScheduled :
    (num_ports max : ℕ) {w : Writing}
    → Reach (initially num_ports max) w
    → IsScheduled num_ports max w
Reach-IsScheduled num_ports max here = initially-IsScheduled num_ports max
Reach-IsScheduled num_ports max (next r s) = Step-IsScheduled (Reach-IsScheduled num_ports max r) s

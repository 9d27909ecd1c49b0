-- ===== src/MiniPlex/Buffers/Owned.antt =====
-- src/MiniPlex.cpp: every buffer stays in one place.
use mini_plex.Base.{
  ℕ, suc, ◌+◌, ◌≤◌, ◌≡◌, refl, ap, inl, inr, true, false, List, [], ◌∷◌, ltb, if◌then◌else◌,
  Bool-cases, ℕ_discrete, arith,
}
use mini_plex.Base.Sets.{
  count, contains, erase_one, count-append, count-erase_one_of, contains-count,
}
use mini_plex.MiniPlex.Buffers.{
  receiving, wait_write, Buffers, rcv_with, rcv, new_buffers, received, copied, released, recycled,
  Step, receives, writable, copies, releases, recycles, Reach, here, next, held, used, IsOwned,
}

-- The state without its outstanding call.
record IsFree (max : ℕ) (q : List ℕ) (s : Buffers) : Type 0 where
  free :
      (i : ℕ)
      → count ℕ_discrete i q + used i s.users + count ℕ_discrete i s.recycling
        ≡ (if ltb i s.rcv_buf_count then 1 else 0)
  limited : s.rcv_buf_count ≤ max
  limit : s.max_process_q ≡ max

rcv_with-IsOwned :
    (max : ℕ) (q : List ℕ) (s : Buffers) → IsFree max q s → IsOwned max (rcv_with q s)
unfolding rcv_with
rcv_with-IsOwned max (b ∷ q) s f = record {
  owned = λ i. omega (arith, f.free i);
  limited = f.limited;
  limit = f.limit;
  all_out = λ e. ground arith;
}
rcv_with-IsOwned max [] s f = elim (Bool-cases (ltb s.rcv_buf_count s.max_process_q)) [
  | inl c ↦ record {
    owned = λ i. ground (arith, f.free i);
    limited = ground (arith, f.limited, f.limit);
    limit = ground (arith, f.limit);
    all_out = λ e. ground arith;
  }
  | inr c ↦ record {
    owned = λ i. ground (arith, f.free i);
    limited = ground (arith, f.limited, f.limit);
    limit = ground (arith, f.limit);
    all_out = λ e. ground (arith, f.limited, f.limit);
  }
]

received-IsOwned :
    (max b : ℕ) (s : Buffers) → IsOwned max s → s.pending ≡ receiving b → IsOwned max (received b s)
unfolding received rcv
received-IsOwned max b s o e =
    rcv_with-IsOwned max s.rcv_buf_q (record s { rx_count = suc s.rx_count; users = b ∷ s.users })
      (record {
        free = λ i.
            let p : held i s.pending ≡ held i (receiving b) = ap (held i) e in
            let w = o.owned i in ground (arith, p, w);
        limited = o.limited;
        limit = o.limit;
      })

writable-IsOwned :
    (max : ℕ) (s : Buffers) → IsOwned max s → s.pending ≡ wait_write → IsOwned max (rcv s)
unfolding rcv
writable-IsOwned max s o e = rcv_with-IsOwned max s.rcv_buf_q s (record {
  free = λ i.
      let p : held i s.pending ≡ held i wait_write = ap (held i) e in omega (arith, p, o.owned i);
  limited = o.limited;
  limit = o.limit;
})

copied-IsOwned :
    (max b : ℕ) (s : Buffers)
    → IsOwned max s
    → contains ℕ_discrete s.users b ≡ true
    → IsOwned max (copied b s)
unfolding copied
copied-IsOwned max b s o c = record {
  owned = λ i.
      let u = contains-count ℕ_discrete b s.users in let w = o.owned i in ground (arith, u, w, c);
  limited = o.limited;
  limit = o.limit;
  all_out = o.all_out;
}

released-IsOwned :
    (max b : ℕ) (s : Buffers)
    → IsOwned max s
    → contains ℕ_discrete s.users b ≡ true
    → IsOwned max (released b s)
unfolding released
released-IsOwned max b s o c = record {
  owned = λ i.
      let u = contains-count ℕ_discrete b (erase_one ℕ_discrete b s.users) in
      let v = count-erase_one_of ℕ_discrete b i s.users c in
      let a = count-append ℕ_discrete i s.recycling (b ∷ []) in
      let w = o.owned i in ground (arith, u, v, a, w);
  limited = o.limited;
  limit = o.limit;
  all_out = o.all_out;
}

recycled-IsOwned :
    (max b : ℕ) (s : Buffers)
    → IsOwned max s
    → contains ℕ_discrete s.recycling b ≡ true
    → IsOwned max (recycled b s)
unfolding recycled
recycled-IsOwned max b s o c = record {
  owned = λ i. omega (
    arith,
    o.owned i,
    count-append ℕ_discrete i s.rcv_buf_q (b ∷ []),
    count-erase_one_of ℕ_discrete b i s.recycling c,
  );
  limited = o.limited;
  limit = o.limit;
  all_out = o.all_out;
}

new_buffers-IsOwned : (max : ℕ) → IsOwned max (new_buffers max)
unfolding new_buffers rcv
new_buffers-IsOwned max =
    rcv_with-IsOwned max []
      (record {
        max_process_q = max;
        rcv_buf_q = [];
        rcv_buf_count = 0;
        rx_count = 0;
        pending = wait_write;
        users = [];
        recycling = [];
      })
      (record { free = λ i. ground arith; limited = omega arith; limit = refl })

Step-IsOwned : {max : ℕ} {s t : Buffers} → IsOwned max s → Step s t → IsOwned max t
Step-IsOwned o (receives b e) = received-IsOwned _ b _ o e
Step-IsOwned o (writable e) = writable-IsOwned _ _ o e
Step-IsOwned o (copies b c) = copied-IsOwned _ b _ o c
Step-IsOwned o (releases b c) = released-IsOwned _ b _ o c
Step-IsOwned o (recycles b c) = recycled-IsOwned _ b _ o c

-- From the constructor's state, after any sequence of receives, waits, copies and releases of shared
-- pointers and recyclers: each allocated buffer is in exactly one place (the queue, the outstanding
-- receive, the hands of handlers and sends, a posted recycler), at most `MaxProcessQ` are allocated,
-- and the next read is delayed only when that many are.
pub Reach-IsOwned : (max : ℕ) {s : Buffers} → Reach (new_buffers max) s → IsOwned max s
Reach-IsOwned max here = new_buffers-IsOwned max
Reach-IsOwned max (next r s) = Step-IsOwned (Reach-IsOwned max r) s

-- After any such sequence the socket never receives into a buffer that a handler or a send can still
-- read.
pub receiving_alone :
    (max b : ℕ) {s : Buffers}
    → Reach (new_buffers max) s
    → s.pending ≡ receiving b
    → contains ℕ_discrete s.users b ≡ false
receiving_alone max b {s} r e =
    let p : held b s.pending ≡ held b (receiving b) = ap (held b) e in
    let w = (Reach-IsOwned max r).owned b in
    let u = contains-count ℕ_discrete b s.users in ground (arith, p, w, u)

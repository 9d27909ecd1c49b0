-- ===== src/MiniPlex/Buffers.antt =====
-- src/MiniPlex.cpp: the buffers of received datagrams. A buffer is named by the number of buffers
-- that were allocated before it. `stopping` is never set, so that the recycler always recycles.
pub mod Owned
mod Tests
use mini_plex.Base.{
  ℕ, zero, suc, ◌+◌, ◌≤◌, ◌<◌, ◌≡◌, ◌≢◌, refl, sym, ap, ◌∙◌, inl, inr, Bool, true, false, List, [],
  ◌∷◌, ◌++◌, ite, ltb, if◌then◌else◌, Bool-cases, ℕ_discrete, arith,
}
use mini_plex.Base.Sets.{
  count, contains, erase_one, count-append, count-erase_one_of, contains-count,
}

-- The call of the socket that is outstanding: a receive into a buffer, or a wait.
pub data Pending : Type 0 where
  receiving : ℕ → Pending
  wait_write : Pending

-- The members that `Rcv` uses, with what the library and the other handlers hold: the shared
-- pointers to buffers, one entry for each, and the recyclers that are posted.
pub record Buffers : Type 0 where
  pub max_process_q : ℕ
  pub rcv_buf_q : List ℕ
  pub rcv_buf_count : ℕ
  pub rx_count : ℕ
  pub pending : Pending
  pub users : List ℕ
  pub recycling : List ℕ

-- `Rcv`, on the queue of buffers.
unfoldable pub rcv_with : List ℕ → Buffers → Buffers
rcv_with (b ∷ q) s = record s { rcv_buf_q = q; pending = receiving b }
rcv_with [] s =
    if ltb s.rcv_buf_count s.max_process_q
    then record s {
      rcv_buf_q = [];
      rcv_buf_count = suc s.rcv_buf_count;
      pending = receiving s.rcv_buf_count;
    }
    else record s { rcv_buf_q = []; pending = wait_write }

unfoldable pub rcv : Buffers → Buffers
unfolding rcv_with
rcv s = rcv_with s.rcv_buf_q s

-- The constructor's state, once it has run the posted `Rcv`.
unfoldable pub new_buffers : ℕ → Buffers
unfolding rcv
new_buffers max_process_q = rcv (record {
  max_process_q = max_process_q;
  rcv_buf_q = [];
  rcv_buf_count = 0;
  rx_count = 0;
  pending = wait_write;
  users = [];
  recycling = [];
})

-- The handler of `async_receive_from`: the posted function holds the buffer.
unfoldable pub received : ℕ → Buffers → Buffers
unfolding rcv
received b s = rcv (record s { rx_count = suc s.rx_count; users = b ∷ s.users })

-- A posted function or a send copies a shared pointer.
unfoldable pub copied : ℕ → Buffers → Buffers
copied b s = record s { users = b ∷ s.users }

-- A shared pointer goes; the last one posts the recycler.
unfoldable pub released : ℕ → Buffers → Buffers
released b s =
    let users = erase_one ℕ_discrete b s.users in
    record s {
      users = users;
      recycling = if contains ℕ_discrete users b then s.recycling else s.recycling ++ b ∷ [];
    }

-- The recycler
unfoldable pub recycled : ℕ → Buffers → Buffers
recycled b s = record s {
  rcv_buf_q = s.rcv_buf_q ++ b ∷ [];
  recycling = erase_one ℕ_discrete b s.recycling;
}

-- What may happen next.
pub data Step (s : Buffers) : Buffers → Type 0 where
  receives : (b : ℕ) → s.pending ≡ receiving b → Step s (received b s)
  writable : s.pending ≡ wait_write → Step s (rcv s)
  copies : (b : ℕ) → contains ℕ_discrete s.users b ≡ true → Step s (copied b s)
  releases : (b : ℕ) → contains ℕ_discrete s.users b ≡ true → Step s (released b s)
  recycles : (b : ℕ) → contains ℕ_discrete s.recycling b ≡ true → Step s (recycled b s)

pub data Reach (s : Buffers) : Buffers → Type 0 where
  here : Reach s s
  next : {t u : Buffers} → Reach s t → Step t u → Reach s u

-- Whether the socket writes into a buffer.
abbrev pub held : ℕ → Pending → ℕ
held i (receiving b) = ite (ℕ_discrete b i) 1 0
held i wait_write = 0

-- Whether a handler or a send can read it.
abbrev pub used : ℕ → List ℕ → ℕ
used i users = if ltb 0 (count ℕ_discrete i users) then 1 else 0

-- Every buffer allocated is in exactly one place; there are at most `MaxProcessQ`.
pub record IsOwned (max : ℕ) (s : Buffers) : Type 0 where
  pub owned :
      (i : ℕ)
      → count ℕ_discrete i s.rcv_buf_q
          + held i s.pending
          + used i s.users
          + count ℕ_discrete i s.recycling
        ≡ (if ltb i s.rcv_buf_count then 1 else 0)
  pub limited : s.rcv_buf_count ≤ max
  pub limit : s.max_process_q ≡ max
  pub all_out : s.pending ≡ wait_write → s.rcv_buf_count ≡ max

-- ===== src/MiniPlex/Buffers/Tests.antt =====
-- src/MiniPlex.cpp: runs of the receive buffers.
use mini_plex.Base.{◌≡◌, refl, ℕ_discrete}
use mini_plex.Base.Sets.{contains, erase_one}
use mini_plex.MiniPlex.Buffers.{
  Buffers, wait_write, receiving, rcv, rcv_with, new_buffers, received, copied, released, recycled,
  Reach, here, next, receives, copies, releases, recycles, writable, IsOwned,
}
use mini_plex.MiniPlex.Buffers.Owned.{Reach-IsOwned}

-- At most one buffer: the next read waits while a send holds it, and then receives into it again.
abbrev all_out : Buffers
all_out = released 0 (copied 0 (received 0 (new_buffers 1)))

abbrev again : Buffers
again = rcv (recycled 0 (released 0 all_out))

all_out-pending : (all_out.pending ≡ wait_write) × (again.pending ≡ receiving 0)
unfolding new_buffers received copied released recycled rcv rcv_with contains erase_one ℕ_discrete
all_out-pending = (refl, refl)

all_out-Reach : Reach (new_buffers 1) all_out
unfolding new_buffers received copied rcv rcv_with contains ℕ_discrete
all_out-Reach = next (next (next here (receives 0 refl)) (copies 0 refl)) (releases 0 refl)

again-Reach : Reach (new_buffers 1) again
unfolding new_buffers received copied released recycled rcv rcv_with contains erase_one ℕ_discrete
again-Reach = next (next (next all_out-Reach (releases 0 refl)) (recycles 0 refl)) (writable refl)

Reach-IsOwned_example : IsOwned 1 again
Reach-IsOwned_example = Reach-IsOwned 1 again-Reach

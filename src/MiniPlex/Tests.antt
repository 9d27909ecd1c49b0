-- ===== src/MiniPlex/Tests.antt =====
-- src/MiniPlex.cpp: runs with small numbers for endpoints.
use mini_plex.Base.{
  ◌≡◌, ◌≢◌, refl, true, false, none, some, List, [], ◌∷◌, ℕ, ltb, ite, ℕ_discrete, arith,
}
use mini_plex.Base.Sets.{contains, count, set_erase, set_insert}
use mini_plex.TimeoutCache.{init, add, find, keys, new_entry}
use mini_plex.MiniPlex.{
  MiniPlex, Vm, Sending, branches, forward, forward_all, get_src_dst, hub, switch, switch_routed,
  address_branches, addr_cache, set_addr_cache, new_addr_cache, trunk,
}
use mini_plex.MiniPlex.Counts.{copies, targets}
use mini_plex.MiniPlex.Known.{IsKnown, listed, branches-IsKnown}
use mini_plex.MiniPlex.Modes.{no_echo, count-trunk}
use mini_plex.MiniPlex.Pruned.{prune_exclusive, receive_all, All, IsBetween, Datagram}
use mini_plex.MiniPlex.Switched.{AddrsOk, cache_of, src_cache, dst_cache}
use mini_plex.MiniPlex.Routes.{first, routed_copies, switch_total, copies-switch, switch_bound}
use mini_plex.MiniPlex.Process.{
  Args, Udp, hub_mode, prune_mode, switch_mode, branch_timer, run_posted, rcv_handler, mode_handler,
  construct, load_branches, mode_of, open_socket,
}
use mini_plex.MiniPlex.Start.{construct-runs}
use mini_plex.MiniPlex.Runs.{Reach, Inv, here, next, receives}
use mini_plex.MiniPlex.Fixed.{IsPrompt, hub_once, late_handler_duplicates}

abbrev args : Args
args = record {
  hub = true;
  trunk = false;
  prune = false;
  switch = false;
  local_addr = "";
  local_port = 0;
  so_rcv_buf = 0;
  cache_timeout = 10;
  max_branch_cache = 0;
  max_switch_cache = 0;
  trunk_addr = "";
  trunk_port = 0;
  branch_addrs = "a" ∷ "b" ∷ [];
  branch_ports = 7 ∷ 8 ∷ [];
  byte_code_file = "";
}

-- A machine whose program finds the addresses 9 and 7, as source and destination.
abbrev machine : Vm (List ℕ)
machine = record {
  map_data_mem = λ buf v. (v, some 0);
  stack_push = λ x v. (v, some 0);
  stack_pop = λ v. elim v [ [] ↦ ([], none) | x ∷ xs ↦ (xs, some x) ];
  register_set = λ i x v. (v, some tt);
  register_get = λ i v. (v, some 0);
  execute_program = λ v. (7 ∷ 9 ∷ [], some tt);
  data_mem = λ v. 1 ∷ [];
}

abbrev fixed : List ℕ
fixed = 7 ∷ 8 ∷ []

-- The state after construction in Hub mode with the fixed branches 7 and 8.
abbrev started : MiniPlex ℕ (List ℕ)
started = record {
  cache_timeout = 10;
  max_switch_cache = 0;
  trunk = 0;
  perma_branches = fixed;
  inactive_perma_branches = fixed;
  active_branches = init 10;
  addr_branches = [];
  addr_vm = [];
  posted = [];
}

abbrev udp : Udp ℕ
udp = record { binds = λ ep. true; sets_receive_buffer_size = λ size. true }

construct-started :
    construct ℕ_discrete ltb udp (λ a port. some port) 0 (λ f. some []) [] args
    ≡ some (started, hub_mode)
unfolding construct open_socket load_branches mode_of set_insert init contains ℕ_discrete
construct-started = refl

-- After a datagram of the fixed branch 7 in Switch mode, which claims the address 9.
bound : MiniPlex ℕ (List ℕ)
bound = (rcv_handler ℕ_discrete machine switch_mode false (1 ∷ []) 7 0 started).0

bound-Reach : Reach ℕ_discrete ltb machine started bound
unfolding bound
bound-Reach = next here (receives switch_mode false (1 ∷ []) 7 0)

construct-runs_example :
    IsPrompt ℕ_discrete ltb started × (started.addr_branches ≡ []) × Inv ℕ_discrete ltb bound
construct-runs_example =
    construct-runs ℕ_discrete ltb udp (λ a port. some port) 0 (λ f. some []) [] args started
      hub_mode machine bound construct-started bound-Reach

started-Inv :
    IsPrompt ℕ_discrete ltb started × (started.addr_branches ≡ []) × Inv ℕ_discrete ltb started
started-Inv =
    construct-runs ℕ_discrete ltb udp (λ a port. some port) 0 (λ f. some []) [] args started
      hub_mode machine started construct-started here

started-IsKnown : IsKnown ℕ_discrete started
started-IsKnown = started-Inv.0.sound

abbrev ping : List ℕ
ping = 1 ∷ []

no_echo_example : count ℕ_discrete 7 (targets (record { to = 8; bytes = ping } ∷ [])) ≡ 0
unfolding rcv_handler mode_handler branches add find init hub forward_all forward set_erase
    ℕ_discrete
no_echo_example =
    no_echo ℕ_discrete machine hub_mode false ping 7 0 started
      (record { to = 8; bytes = ping } ∷ []) refl

count-trunk_example :
    count ℕ_discrete 7 (targets (trunk ℕ_discrete 5 ping started).1)
    ≡ ite
        (ℕ_discrete 7 5)
        0
        (ite (ℕ_discrete 5 0) (listed ℕ_discrete started 7) (ite (ℕ_discrete 0 7) 1 0))
count-trunk_example = count-trunk ℕ_discrete 7 5 ping started started-IsKnown

hub_once_example :
    copies ℕ_discrete 8 (rcv_handler ℕ_discrete machine hub_mode false ping 7 0 started).1 ≡ 1
unfolding contains ℕ_discrete
hub_once_example =
    hub_once ℕ_discrete ltb machine ping 7 8 0 started started-Inv.0 refl (omega arith)

-- The fixed branch 7 is active since time 0.
abbrev active : MiniPlex ℕ (List ℕ)
active = branches ℕ_discrete 7 0 started

active-IsKnown : IsKnown ℕ_discrete active
active-IsKnown = branches-IsKnown ℕ_discrete 7 0 started started-IsKnown

late_handler_duplicates_example :
    (m₁ : MiniPlex ℕ (List ℕ)) × (branch_timer ℕ_discrete 7 false 10 active ≡ some m₁)
    × (count ℕ_discrete 7 (
          targets (
            forward_all ℕ_discrete ping 5
              (run_posted ℕ_discrete ltb 7 (branches ℕ_discrete 7 11 m₁))))
        ≡ 2)
unfolding contains ℕ_discrete branches add find init new_entry
late_handler_duplicates_example =
    late_handler_duplicates ℕ_discrete ltb 7 5 ping 10 11 active _ active-IsKnown refl (omega arith)
      (omega arith) refl (omega arith)

abbrev datagrams : List (Datagram ℕ)
datagrams =
    record { sender = 5; bytes = ping; now = 1 } ∷ record { sender = 7; bytes = ping; now = 2 } ∷ []

prune_exclusive_example :
    All (IsBetween ℕ_discrete 7 0) (receive_all ℕ_discrete machine prune_mode datagrams active).1
    × ((ks : List ℕ) × (keys
            (receive_all ℕ_discrete machine prune_mode datagrams active).0.active_branches
          ≡ 7 ∷ ks))
unfolding branches add find init ℕ_discrete
prune_exclusive_example = prune_exclusive ℕ_discrete machine 7 0 [] datagrams active refl refl

switch_total_example :
    ((sends : List (Sending ℕ)) × ((switch ℕ_discrete machine 7 ping 0 started).1 ≡ some sends))
    × AddrsOk ℕ_discrete (switch ℕ_discrete machine 7 ping 0 started).0
switch_total_example = switch_total ℕ_discrete machine 7 ping 0 started started-Inv.2.addrs

copies-switch_example :
    copies ℕ_discrete 8 (switch ℕ_discrete machine 7 ping 0 started).1
    ≡ routed_copies ℕ_discrete 7 8
        (listed ℕ_discrete started 8)
        (first (keys (src_cache ℕ_discrete 7 9 0 (record started { addr_vm = [] }))))
        (first (keys (dst_cache ℕ_discrete 7 9 7 0 (record started { addr_vm = [] }))))
unfolding get_src_dst new_addr_cache
copies-switch_example = copies-switch ℕ_discrete machine 7 8 ping 0 started started-IsKnown refl

switch_bound_example :
    (first (keys (cache_of ℕ_discrete 9 (switch ℕ_discrete machine 8 ping 1 bound).0)) ≡ some 7)
    × ((get_src_dst machine ping bound.addr_vm).1.src ≡ 9
        → ◌≢◌ {A = ℕ} 8 7
        → copies ℕ_discrete 8 (switch ℕ_discrete machine 8 ping 1 bound).1 ≡ 0)
unfolding bound rcv_handler mode_handler branches switch switch_routed address_branches addr_cache
    set_addr_cache new_addr_cache get_src_dst add find init new_entry ℕ_discrete set_erase
switch_bound_example =
    switch_bound ℕ_discrete machine 8 7 8 ping 9 1 bound construct-runs_example.2.known refl

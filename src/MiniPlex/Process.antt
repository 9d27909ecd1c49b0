-- ===== src/MiniPlex/Process.antt =====
-- src/MiniPlex.cpp: construction, the handler of a received datagram, and what the timers of the
-- caches start on the process strand and on the pool.
use Prim.Native.String.{String}
use mini_plex.Base.{
  ℕ, suc, Bool, true, false, ◌&&◌, ◌||◌, List, [], ◌∷◌, ◌++◌, Option, none, some, ◌==◌,
  if◌then◌else◌, get_elem?, ◌>>=◌,
}
use mini_plex.Base.Sets.{contains, set_insert, erase_one}
use mini_plex.TimeoutCache.{TimeoutCache, init, set_max_size, expire}
use mini_plex.MiniPlex.{
  MiniPlex, Sending, Vm, branches, addr_cache, set_addr_cache, hub, trunk, prune, switch,
}

-- The command line's values that the constructor reads.
pub record Args : Type 0 where
  pub hub : Bool
  pub trunk : Bool
  pub prune : Bool
  pub switch : Bool
  pub local_addr : String
  pub local_port : ℕ
  pub so_rcv_buf : ℕ
  pub cache_timeout : ℕ
  pub max_branch_cache : ℕ
  pub max_switch_cache : ℕ
  pub trunk_addr : String
  pub trunk_port : ℕ
  pub branch_addrs : List String
  pub branch_ports : List ℕ
  pub byte_code_file : String

-- The UDP socket: whether it can be opened at an endpoint, and whether it takes a size for its buffer.
pub record Udp (E : Type 0) : Type 0 where
  pub binds : E → Bool
  pub sets_receive_buffer_size : ℕ → Bool

-- The constructor of `socket`, and `set_option`. `none` is an exception.
unfoldable pub open_socket : {E : Type 0} → Udp E → ℕ → E → Option E
open_socket udp so_rcv_buf local_ep =
    if udp.binds local_ep && udp.sets_receive_buffer_size so_rcv_buf then some local_ep else none

pub data Mode : Type 0 where
  hub_mode trunk_mode prune_mode switch_mode : Mode

-- `ModeHandler`; `none` is "Mode error".
abbrev pub mode_is_switch : Mode → Bool
mode_is_switch switch_mode = true
mode_is_switch _ = false

unfoldable pub mode_of : Args → Option Mode
mode_of a =
    if a.hub
    then some hub_mode
    else if a.trunk
    then some trunk_mode
    else if a.prune
    then some prune_mode
    else if a.switch
    then some switch_mode
    else none

module _ {E : Type 0} (dec : Discrete E) (less : E → E → Bool) where
  -- The loop over `BranchAddrs`, from index `i`. `none` is an address that does not parse, or a
  -- read of `BranchPorts` out of range.
  unfoldable pub load_branches :
      (String → ℕ → Option E) → List ℕ → ℕ → List String → List E → Option (List E)
  load_branches endpoint ports i [] s = some s
  load_branches endpoint ports i (addr ∷ addrs) s = elim (get_elem? ports i >>= endpoint addr) [
    | none ↦ none
    | some branch ↦ load_branches endpoint ports (suc i) addrs (set_insert dec less branch s)
  ]

  -- The constructor's state, for the endpoint `unspecified` that a default endpoint is. Both sets
  -- of fixed branches are filled alike. `none` is an exception.
  unfoldable pub construct :
      {V : Type 0}
      → Udp E
      → (String → ℕ → Option E)
      → E
      → (String → Option V)
      → V
      → Args
      → Option (MiniPlex E V × Mode)
  unfolding open_socket
  construct udp endpoint unspecified program_load vm a = do
    local_ep ← endpoint a.local_addr a.local_port >>= open_socket udp a.so_rcv_buf
    mode ← mode_of a
    vm ← if mode_is_switch mode then program_load a.byte_code_file else some vm
    trunk_ep ← if a.trunk || a.prune then endpoint a.trunk_addr a.trunk_port else some unspecified
    perma ← load_branches endpoint a.branch_ports 0 a.branch_addrs []
    let active : TimeoutCache E = init a.cache_timeout
    some (
      record {
        cache_timeout = a.cache_timeout;
        max_switch_cache = a.max_switch_cache;
        trunk = trunk_ep;
        perma_branches = perma;
        inactive_perma_branches = perma;
        active_branches =
            if a.max_branch_cache == 0 then active else set_max_size a.max_branch_cache active;
        addr_branches = [];
        addr_vm = vm;
        posted = [];
      },
      mode,
    )

  -- The branch timeout handler, once the pool runs it.
  unfoldable pub run_posted : {V : Type 0} → E → MiniPlex E V → MiniPlex E V
  run_posted ep m = record m {
    posted = erase_one dec ep m.posted;
    inactive_perma_branches =
        if contains dec m.perma_branches ep
        then set_insert dec less ep m.inactive_perma_branches
        else m.inactive_perma_branches;
  }

abbrev pub posting : {E : Type 0} → Option E → List E → List E
posting none q = q
posting (some ep) q = q ++ ep ∷ []

module _ {E : Type 0} (dec : Discrete E) where
  -- The timer of an active branch fires on the process strand.
  unfoldable pub branch_timer : {V : Type 0} → E → Bool → ℕ → MiniPlex E V → Option (MiniPlex E V)
  branch_timer ep err now m = elim (expire dec ep err now m.active_branches) [
    | none ↦ none
    | some (c, p) ↦ some (record m { active_branches = c; posted = posting p m.posted })
  ]

  -- The timer of a branch of an address fires; its timeout handler only logs.
  unfoldable pub addr_timer : {V : Type 0} → ℕ → E → Bool → ℕ → MiniPlex E V → Option (MiniPlex E V)
  addr_timer addr ep err now m = elim (addr_cache dec addr m.addr_branches) [
    | none ↦ none
    | some c ↦ elim (expire dec ep err now c) [
      | none ↦ none
      | some (d, _) ↦ some (record m { addr_branches = set_addr_cache dec addr d m.addr_branches })
    ]
  ]

  module _ {V : Type 0} (vm : Vm V) where
    -- `ModeHandler`; only Switch mode can fail.
    unfoldable pub mode_handler :
        Mode → E → List ℕ → ℕ → MiniPlex E V → MiniPlex E V × Option (List (Sending E))
    mode_handler hub_mode sender bytes now m = let (n, s) = hub dec sender bytes m in (n, some s)
    mode_handler trunk_mode sender bytes now m =
        let (n, s) = trunk dec sender bytes m in (n, some s)
    mode_handler prune_mode sender bytes now m =
        let (n, s) = prune dec sender bytes m in (n, some s)
    mode_handler switch_mode sender bytes now m = switch dec vm sender bytes now m

    -- `RcvHandler`
    unfoldable pub rcv_handler :
        Mode → Bool → List ℕ → E → ℕ → MiniPlex E V → MiniPlex E V × Option (List (Sending E))
    rcv_handler mode err bytes sender now m =
        if err then (m, some []) else mode_handler mode sender bytes now (branches dec sender now m)

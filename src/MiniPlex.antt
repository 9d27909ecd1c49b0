-- ===== src/MiniPlex.antt =====
-- src/MiniPlex.h and src/MiniPlex.cpp: the modes, which forward a datagram to other endpoints.
-- An endpoint of the sockets library is a type with an equality and an order, a parameter; so
-- is the virtual machine that reads addresses in Switch mode.
pub mod Process
pub mod Counts
pub mod Known
pub mod Modes
pub mod Fixed
pub mod Pruned
pub mod Switched
pub mod Routes
pub mod Runs
pub mod Start
pub mod Accepts
pub mod Buffers
pub mod Given
mod Tests
use mini_plex.Base.{
  ℕ, Bool, true, false, List, [], ◌∷◌, ◌++◌, Option, none, some, ite, ◌==◌, if◌then◌else◌, length,
  not, ◌&&◌,
}
use mini_plex.Base.Sets.{set_erase}
use mini_plex.TimeoutCache.{TimeoutCache, refreshed, added, dropped, init, set_max_size, keys, add}

-- What `async_send_to` is handed: the receiver and the bytes.
pub record Sending (E : Type 0) : Type 0 where
  pub to : E
  pub bytes : List ℕ

-- The calls of the virtual machine. A call that throws returns `none` beside the state in which
-- it leaves the machine; `data_mem` reads the mapped buffer.
pub record Vm (V : Type 0) : Type 0 where
  pub map_data_mem : List ℕ → V → V × Option ℕ
  pub stack_push : ℕ → V → V × Option ℕ
  pub stack_pop : V → V × Option ℕ
  pub register_set : ℕ → ℕ → V → V × Option (Unit {0})
  pub register_get : ℕ → V → V × Option ℕ
  pub execute_program : V → V × Option (Unit {0})
  pub data_mem : V → List ℕ

-- The object's fields that the process strand uses. `posted` holds the endpoints whose timeout
-- handler is posted to the pool and has not run.
pub record MiniPlex (E V : Type 0) : Type 0 where
  pub cache_timeout : ℕ
  pub max_switch_cache : ℕ
  pub trunk : E
  pub perma_branches : List E
  pub inactive_perma_branches : List E
  pub active_branches : TimeoutCache E
  pub addr_branches : List (ℕ × TimeoutCache E)
  pub addr_vm : V
  pub posted : List E

abbrev VmCall : Type 0 → Type 0 → Type 0
VmCall V A = V → V × Option A

infixl 5 ◌>>=◌ ◌>>◌
abbrev ◌>>=◌ : {V A B : Type 0} → VmCall V A → (A → VmCall V B) → VmCall V B
◌>>=◌ m f v = let (w, r) = m v in elim r [ none ↦ (w, none) | some a ↦ f a w ]

abbrev ◌>>◌ : {V B : Type 0} → VmCall V (Unit {0}) → VmCall V B → VmCall V B
m >> k = m >>= λ _. k

abbrev return : {V A : Type 0} → A → VmCall V A
return a v = (v, some a)

pub record Addresses : Type 0 where
  pub success : Bool
  pub src : ℕ
  pub dst : ℕ

module _ {V : Type 0} (vm : Vm V) where
  open vm use {map_data_mem, stack_push, stack_pop, register_set, register_get, execute_program}

  -- `GetSrcDst` under its `try`
  run_addresses : List ℕ → VmCall V Addresses
  run_addresses buf = do
    virt_buf ← map_data_mem buf
    src_addr ← stack_push 0
    dst_addr ← stack_push 0
    register_set 10 virt_buf
    register_set 11 (length buf)
    register_set 12 src_addr
    register_set 13 dst_addr
    execute_program
    res ← register_get 10
    dst ← stack_pop
    src ← stack_pop
    return (record { success = res == 0; src = src; dst = dst })

  -- `GetSrcDst`
  unfoldable pub get_src_dst : List ℕ → V → V × Addresses
  unfolding run_addresses
  get_src_dst buf v =
      let (w, r) = run_addresses buf v in
      (w, elim r [ some a ↦ a | none ↦ record { success = false; src = 0; dst = 0 } ])

-- A datagram of the trunk goes to the first active branch, if there is one.
abbrev pub trunk_targets : {E : Type 0} → List E → List E → List E
trunk_targets perma [] = perma
trunk_targets perma (first ∷ _) = first ∷ []

module _ {E : Type 0} (dec : Discrete E) where
  -- `Forward`
  unfoldable pub forward : List ℕ → E → List E → List (Sending E)
  forward bytes sender [] = []
  forward bytes sender (endpoint ∷ branches) =
      let rest = forward bytes sender branches in
      ite (dec endpoint sender) rest (record { to = endpoint; bytes = bytes } ∷ rest)

  -- `Branches`, without the list that it returns: `keys` of `active_branches`.
  unfoldable pub branches : {V : Type 0} → E → ℕ → MiniPlex E V → MiniPlex E V
  branches ep now m = ite (dec ep m.trunk) m (
      let (cache, res) = add dec ep now m.active_branches in
      elim res [
        | added ↦ record m {
          active_branches = cache;
          inactive_perma_branches = set_erase dec ep m.inactive_perma_branches;
        }
        | dropped ↦ record m { active_branches = cache }
        | refreshed ↦ record m { active_branches = cache }
      ])

  -- `AddrBranches.at`, with the cache that `AddressBranches` first puts there.
  unfoldable pub addr_cache : ℕ → List (ℕ × TimeoutCache E) → Option (TimeoutCache E)
  addr_cache addr [] = none
  addr_cache addr ((a, c) ∷ m) = if a == addr then some c else addr_cache addr m

  unfoldable pub set_addr_cache :
      ℕ → TimeoutCache E → List (ℕ × TimeoutCache E) → List (ℕ × TimeoutCache E)
  set_addr_cache addr c [] = (addr, c) ∷ []
  set_addr_cache addr c ((a, d) ∷ m) =
      if a == addr then (addr, c) ∷ m else (a, d) ∷ set_addr_cache addr c m

  unfoldable pub new_addr_cache : {V : Type 0} → MiniPlex E V → TimeoutCache E
  new_addr_cache m =
      let c : TimeoutCache E = init m.cache_timeout in
      if m.max_switch_cache == 0 then c else set_max_size m.max_switch_cache c

  -- `AddressBranches`: the cache of the address and the new state.
  unfoldable pub address_branches :
      {V : Type 0} → E → ℕ → Bool → ℕ → MiniPlex E V → MiniPlex E V × TimeoutCache E
  address_branches ep addr associate now m =
      let c : TimeoutCache E = elim (addr_cache addr m.addr_branches) [
        | some c ↦ c
        | none ↦ new_addr_cache m
      ] in
      let d = if associate then (add dec ep now c).0 else c in
      (record m { addr_branches = set_addr_cache addr d m.addr_branches }, d)

  -- `Forward` to the active branches, then to the inactive fixed ones.
  unfoldable pub forward_all : {V : Type 0} → List ℕ → E → MiniPlex E V → List (Sending E)
  forward_all bytes sender m =
      forward bytes sender (keys m.active_branches)
      ++ forward bytes sender m.inactive_perma_branches

  -- `Hub`
  unfoldable pub hub : {V : Type 0} → E → List ℕ → MiniPlex E V → MiniPlex E V × List (Sending E)
  hub sender bytes m = (m, forward_all bytes sender m)

  -- `Trunk`
  unfoldable pub trunk : {V : Type 0} → E → List ℕ → MiniPlex E V → MiniPlex E V × List (Sending E)
  trunk sender bytes m = (
    m,
    ite (dec sender m.trunk) (forward_all bytes sender m) (forward bytes sender (m.trunk ∷ [])),
  )

  abbrev same : E → E → Bool
  same a b = ite (dec a b) true false

  -- The first test of `Prune`: a branch that is not the first active one.
  abbrev is_pruned : E → E → List E → Bool
  is_pruned sender trunk [] = false
  is_pruned sender trunk (first ∷ _) = not (same sender trunk) && not (same sender first)

  -- `Prune`
  unfoldable pub prune : {V : Type 0} → E → List ℕ → MiniPlex E V → MiniPlex E V × List (Sending E)
  prune sender bytes m =
      let active = keys m.active_branches in
      (
        m,
        if is_pruned sender m.trunk active
            then []
            else ite (dec sender m.trunk)
                (forward bytes sender (trunk_targets m.perma_branches active))
                (forward bytes sender (m.trunk ∷ [])),
      )

  -- The sends of `Switch` once both addresses have their caches, whose keys are `src` and `dst`.
  -- `none` is `*begin()` of an empty list.
  unfoldable pub switch_sends :
      {V : Type 0} → E → List ℕ → MiniPlex E V → List E → List E → Option (List (Sending E))
  switch_sends sender bytes m [] _ = none
  switch_sends sender bytes m (active ∷ _) dst =
      ite (dec active sender)
        (elim dst [
          | [] ↦ some (forward_all bytes sender m)
          | branch ∷ _ ↦ some (forward bytes sender (branch ∷ []))
        ])
        (some [])

  -- `Switch` from the calls of `AddressBranches` on. `src_branches` is read after both calls.
  unfoldable pub switch_routed :
      {V : Type 0}
      → E
      → List ℕ
      → ℕ
      → ℕ
      → ℕ
      → MiniPlex E V
      → MiniPlex E V × Option (List (Sending E))
  switch_routed sender bytes src dst now m =
      let (m₁, _) = address_branches sender src true now m in
      let (m₂, dst_cache) = address_branches sender dst false now m₁ in
      let src_branches : List E = elim (addr_cache src m₂.addr_branches) [
        | some c ↦ keys c
        | none ↦ []
      ] in
      (m₂, switch_sends sender bytes m₂ src_branches (keys dst_cache))

  -- `Switch`. The machine may write to the mapped buffer, which is what is forwarded.
  unfoldable pub switch :
      {V : Type 0} → Vm V → E → List ℕ → ℕ → MiniPlex E V → MiniPlex E V × Option (List (Sending E))
  switch vm sender bytes now m =
      let (w, a) = get_src_dst vm bytes m.addr_vm in
      if a.success
      then switch_routed sender (vm.data_mem w) a.src a.dst now (record m { addr_vm = w })
      else (record m { addr_vm = w }, some [])

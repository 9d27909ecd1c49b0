-- ===== src/MiniPlex/Switched.antt =====
-- Switch mode: which branch an address belongs to, and where its datagrams go.
use mini_plex.Base.{
  ℕ, ◌<◌, ◌≡◌, refl, inl, inr, Bool, true, false, List, [], ◌∷◌, none, some, arith, ◌==◌,
  if◌then◌else◌, Bool-cases,
}
use mini_plex.TimeoutCache.{TimeoutCache, add, keys, init, set_max_size}
use mini_plex.TimeoutCache.Invariant.{IsLinked, init-IsLinked, limited-IsLinked}
use mini_plex.MiniPlex.{
  MiniPlex, addr_cache, set_addr_cache, new_addr_cache, address_branches, switch_sends,
  switch_routed,
}

module _ {E : Type 0} (dec : Discrete E) where
  pub addr_cache-set :
      (a b : ℕ) (c : TimeoutCache E) (m : List (ℕ × TimeoutCache E))
      → addr_cache dec b (set_addr_cache dec a c m)
        ≡ (if a == b then some c else addr_cache dec b m)
  unfolding addr_cache set_addr_cache
  addr_cache-set a b c [] = refl
  addr_cache-set a b c ((i, d) ∷ m) = ground (arith, addr_cache-set a b c m)

  module _ {V : Type 0} where
    -- The cache that the address has, or would be given.
    abbrev pub cache_of : ℕ → MiniPlex E V → TimeoutCache E
    cache_of a m = elim (addr_cache dec a m.addr_branches) [
      | some c ↦ c
      | none ↦ new_addr_cache dec m
    ]

    -- Every cache of an address is well-formed and has room for a branch.
    abbrev pub AddrsOk : MiniPlex E V → Type 0
    AddrsOk m = (a : ℕ) → IsLinked dec (cache_of a m) × (0 < (cache_of a m).max_size)

    new_addr_cache_ok :
        (m : MiniPlex E V)
        → IsLinked dec (new_addr_cache dec m) × (0 < (new_addr_cache dec m).max_size)
    unfolding new_addr_cache init set_max_size
    new_addr_cache_ok m = elim (Bool-cases (m.max_switch_cache == 0)) [
      | inl e ↦ rw e (init-IsLinked dec m.cache_timeout, omega arith)
      | inr e ↦ rw e (limited-IsLinked dec m.cache_timeout m.max_switch_cache, ground arith)
    ]

    -- A state without addresses satisfies it.
    pub no_addresses-AddrsOk : (m : MiniPlex E V) → m.addr_branches ≡ [] → AddrsOk m
    unfolding addr_cache new_addr_cache
    no_addresses-AddrsOk m e a = rw (e, addr_cache) (new_addr_cache_ok m)

    pub addr_cache_after :
        (ep : E) (a b : ℕ) (associate : Bool) (now : ℕ) (m : MiniPlex E V)
        → addr_cache dec b (address_branches dec ep a associate now m).0.addr_branches ≡ (
            if a == b
            then some (if associate then (add dec ep now (cache_of a m)).0 else cache_of a m)
            else addr_cache dec b m.addr_branches)
    unfolding address_branches
    addr_cache_after ep a b associate now m =
        addr_cache-set a b (if associate then (add dec ep now (cache_of a m)).0 else cache_of a m)
          m.addr_branches

    -- The caches of the two addresses of a datagram as `Switch` reads them.
    abbrev pub src_cache : E → ℕ → ℕ → MiniPlex E V → TimeoutCache E
    src_cache sender src now m = (add dec sender now (cache_of src m)).0

    abbrev pub dst_cache : E → ℕ → ℕ → ℕ → MiniPlex E V → TimeoutCache E
    dst_cache sender src dst now m =
        if src == dst then src_cache sender src now m else cache_of dst m

    abbrev pub routed_state : E → ℕ → ℕ → ℕ → MiniPlex E V → MiniPlex E V
    routed_state sender src dst now m =
        (address_branches dec sender dst false now (address_branches dec sender src true now m).0).0

    address_branches_returns :
        (ep : E) (a : ℕ) (associate : Bool) (now : ℕ) (m : MiniPlex E V)
        → (address_branches dec ep a associate now m).1
          ≡ (if associate then (add dec ep now (cache_of a m)).0 else cache_of a m)
    unfolding address_branches
    address_branches_returns ep a associate now m = refl

    new_addr_cache_after :
        (ep : E) (a : ℕ) (associate : Bool) (now : ℕ) (m : MiniPlex E V)
        → new_addr_cache dec (address_branches dec ep a associate now m).0 ≡ new_addr_cache dec m
    unfolding address_branches new_addr_cache
    new_addr_cache_after ep a associate now m = refl

    cache_of_after :
        (ep : E) (a b : ℕ) (associate : Bool) (now : ℕ) (m : MiniPlex E V)
        → cache_of b (address_branches dec ep a associate now m).0 ≡ (
            if a == b
            then (if associate then (add dec ep now (cache_of a m)).0 else cache_of a m)
            else cache_of b m)
    cache_of_after ep a b associate now m =
        ground (
          arith,
          addr_cache_after ep a b associate now m,
          new_addr_cache_after ep a associate now m,
        )

    pub cache_of_routed :
        (sender : E) (src dst a now : ℕ) (m : MiniPlex E V)
        → cache_of a (routed_state sender src dst now m)
          ≡ (if src == a then src_cache sender src now m else cache_of a m)
    cache_of_routed sender src dst a now m =
        let m₁ = (address_branches dec sender src true now m).0 in
        ground (
          arith,
          cache_of_after sender dst a false now m₁,
          cache_of_after sender src a true now m,
          cache_of_after sender src dst true now m,
        )

    pub switch_routed_lem :
        (sender : E) (bytes : List ℕ) (src dst now : ℕ) (m : MiniPlex E V)
        → switch_routed dec sender bytes src dst now m ≡ (
          routed_state sender src dst now m,
          switch_sends dec sender bytes
              (routed_state sender src dst now m)
              (keys (src_cache sender src now m))
              (keys (dst_cache sender src dst now m)),
        )
    unfolding switch_routed
    switch_routed_lem sender bytes src dst now m =
        let m₁ = (address_branches dec sender src true now m).0 in
        ground (
          arith,
          address_branches_returns sender dst false now m₁,
          addr_cache_after sender dst src false now m₁,
          addr_cache_after sender src src true now m,
          cache_of_after sender src dst true now m,
        )

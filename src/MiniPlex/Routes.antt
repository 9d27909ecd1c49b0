-- ===== src/MiniPlex/Routes.antt =====
-- Switch mode as a whole: it never reads an empty list, and where a datagram goes.
use mini_plex.Base.{
  ℕ, ◌<◌, ◌≡◌, refl, ◌∙◌, ◌≢◌, inl, inr, true, List, [], ◌∷◌, ◌++◌, map, Option, none, some, ite,
  arith, length, ◌==◌, Bool-cases,
}
use mini_plex.TimeoutCache.{TimeoutCache, Node, add, keys}
use mini_plex.TimeoutCache.Invariant.{IsLinked, add-IsLinked}
use mini_plex.MiniPlex.{
  MiniPlex, Sending, Vm, Addresses, forward, forward_all, address_branches, switch_sends,
  switch_routed, switch, get_src_dst,
}
use mini_plex.MiniPlex.Counts.{copies, count-forward, add_nonempty}
use mini_plex.MiniPlex.Known.{IsKnown, listed}
use mini_plex.MiniPlex.Modes.{count-forward_all}
use mini_plex.MiniPlex.Pruned.{keys-add}
use mini_plex.MiniPlex.Switched.{
  AddrsOk, cache_of, src_cache, dst_cache, routed_state, cache_of_routed, switch_routed_lem,
}

-- `*begin()` of a cache's keys, where there is one.
abbrev pub first : {E : Type 0} → List E → Option E
first [] = none
first (x ∷ xs) = some x

first-append : {E : Type 0} (xs ys : List E) (b : E) → first xs ≡ some b → first (xs ++ ys) ≡ some b
first-append [] ys b h = cc
first-append (x ∷ xs) ys b h = h

module _ {E : Type 0} (dec : Discrete E) where
  max_size-add : (k : E) (now : ℕ) (c : TimeoutCache E) → (add dec k now c).0.max_size ≡ c.max_size
  unfolding add
  max_size-add k now c = ground arith

  nonempty_first :
      (ns : List (Node E)) → 0 < length ns → (b : E) × (first (map (λ n. n.key) ns) ≡ some b)
  nonempty_first [] h = absurd (omega arith)
  nonempty_first (n ∷ ns) h = (n.key, refl)

  -- How often a datagram of `sender` goes to `ep`, from the first branches of its two addresses.
  abbrev pub routed_copies : E → E → ℕ → Option E → Option E → ℕ
  routed_copies sender ep known none dst = 0
  routed_copies sender ep known (some b) none = ite (dec b sender) (ite (dec ep sender) 0 known) 0
  routed_copies sender ep known (some b) (some d) =
      ite (dec b sender) (ite (dec ep sender) 0 (ite (dec d ep) 1 0)) 0

  routed_copies_other :
      (sender ep b : E) (known : ℕ) (dst : Option E)
      → sender ≢ b
      → routed_copies sender ep known (some b) dst ≡ 0
  routed_copies_other sender ep b known none other = ground arith
  routed_copies_other sender ep b known (some d) other = ground arith

  module _ {V : Type 0} where
    src_cache_ok :
        (sender : E) (src now : ℕ) (m : MiniPlex E V)
        → AddrsOk dec m
        → IsLinked dec (src_cache dec sender src now m)
          × (0 < (src_cache dec sender src now m).max_size)
    src_cache_ok sender src now m v = (
      add-IsLinked dec sender now (cache_of dec src m) (v src).0,
      omega (arith, max_size-add sender now (cache_of dec src m), (v src).1),
    )

    pub routed-AddrsOk :
        (sender : E) (src dst now : ℕ) (m : MiniPlex E V)
        → AddrsOk dec m
        → AddrsOk dec (routed_state dec sender src dst now m)
    routed-AddrsOk sender src dst now m v a =
        rw (cache_of_routed dec sender src dst a now m) (elim (Bool-cases (src == a)) [
          | inl e ↦ rw e (src_cache_ok sender src now m v)
          | inr e ↦ rw e (v a)
        ])

    -- The sender is associated first, so the source address has a first branch.
    src_first :
        (sender : E) (src now : ℕ) (m : MiniPlex E V)
        → AddrsOk dec m
        → (b : E) × (first (keys (src_cache dec sender src now m)) ≡ some b)
    src_first sender src now m v =
        nonempty_first _ (add_nonempty dec sender now (cache_of dec src m) (v src).0 (v src).1)

    sends_total :
        (sender b : E) (bytes : List ℕ) (m : MiniPlex E V) (src dst : List E)
        → first src ≡ some b
        → (sends : List (Sending E)) × (switch_sends dec sender bytes m src dst ≡ some sends)
    unfolding switch_sends
    sends_total sender b bytes m [] dst h = cc
    sends_total sender b bytes m (x ∷ xs) [] h =
        (ite (dec x sender) (forward_all dec bytes sender m) [], ground arith)
    sends_total sender b bytes m (x ∷ xs) (y ∷ ys) h =
        (ite (dec x sender) (forward dec bytes sender (y ∷ [])) [], ground arith)

    pub after_vm-AddrsOk :
        (w : V) (m : MiniPlex E V) → AddrsOk dec m → AddrsOk dec (record m { addr_vm = w })
    unfolding mini_plex.MiniPlex.new_addr_cache
    after_vm-AddrsOk w m v = v

    -- Switch mode never takes the first element of an empty list, whatever the virtual machine
    -- does, if every address's cache is well-formed with a positive limit; and that stays so.
    pub switch_total :
        (vm : Vm V) (sender : E) (bytes : List ℕ) (now : ℕ) (m : MiniPlex E V)
        → AddrsOk dec m
        → ((sends : List (Sending E)) × ((switch dec vm sender bytes now m).1 ≡ some sends))
          × AddrsOk dec (switch dec vm sender bytes now m).0
    unfolding switch
    switch_total vm sender bytes now m v =
        let r = get_src_dst vm bytes m.addr_vm in
        let m₀ = record m { addr_vm = r.0 } in
        let v₀ = after_vm-AddrsOk r.0 m v in
        elim (Bool-cases r.1.success) [
          | inl e ↦
              let (b, f) = src_first sender r.1.src now m₀ v₀ in
              rw (e, switch, switch_routed_lem dec sender (vm.data_mem r.0) r.1.src r.1.dst now m₀)
                (sends_total sender b _ _ _ _ f, routed-AddrsOk sender r.1.src r.1.dst now m₀ v₀)
          | inr e ↦ rw (e, switch) (([], refl), v₀)
        ]

    copies-switch_sends :
        (sender ep : E) (bytes : List ℕ) (m : MiniPlex E V) (src dst : List E)
        → IsKnown dec m
        → copies dec ep (switch_sends dec sender bytes m src dst)
          ≡ routed_copies sender ep (listed dec m ep) (first src) (first dst)
    unfolding switch_sends
    copies-switch_sends sender ep bytes m [] dst v = refl
    copies-switch_sends sender ep bytes m (b ∷ src) [] v =
        ground (arith, count-forward_all dec ep sender bytes m v)
    copies-switch_sends sender ep bytes m (b ∷ src) (d ∷ dst) v =
        ground (arith, count-forward dec ep sender bytes (d ∷ []))

    pub routed-IsKnown :
        (sender : E) (src dst now : ℕ) (w : V) (m : MiniPlex E V)
        → IsKnown dec m
        → IsKnown dec (routed_state dec sender src dst now (record m { addr_vm = w }))
    unfolding address_branches
    routed-IsKnown sender src dst now w m v = record {
      active = v.active;
      known = v.known;
      once = v.once;
      fixed = v.fixed;
    }

    routed-listed :
        (sender ep : E) (src dst now : ℕ) (w : V) (m : MiniPlex E V)
        → listed dec (routed_state dec sender src dst now (record m { addr_vm = w })) ep
          ≡ listed dec m ep
    unfolding address_branches
    routed-listed sender ep src dst now w m = refl

    copies-routed :
        (sender ep : E) (bytes : List ℕ) (src dst now : ℕ) (w : V) (m : MiniPlex E V)
        (xs ys : List E)
        → IsKnown dec m
        → copies dec ep (
            switch_sends dec sender bytes
              (routed_state dec sender src dst now (record m { addr_vm = w }))
              xs
              ys)
          ≡ routed_copies sender ep (listed dec m ep) (first xs) (first ys)
    copies-routed sender ep bytes src dst now w m xs ys v =
        let n = routed_state dec sender src dst now (record m { addr_vm = w }) in
        rw (← routed-listed sender ep src dst now w m)
          (copies-switch_sends sender ep bytes n xs ys (routed-IsKnown sender src dst now w m v))

    -- In Switch mode, when the machine finds the addresses: unless the sender is the first branch
    -- of the source address, the datagram goes nowhere; otherwise it goes once to the first branch
    -- of the destination address, or to every listed endpoint if that address has none; never back
    -- to the sender.
    pub copies-switch :
        (vm : Vm V) (sender ep : E) (bytes : List ℕ) (now : ℕ) (m : MiniPlex E V)
        → IsKnown dec m
        → (get_src_dst vm bytes m.addr_vm).1.success ≡ true
        → let r = get_src_dst vm bytes m.addr_vm in
          let m₀ = record m { addr_vm = r.0 } in
          copies dec ep (switch dec vm sender bytes now m).1
          ≡ routed_copies sender ep
              (listed dec m ep)
              (first (keys (src_cache dec sender r.1.src now m₀)))
              (first (keys (dst_cache dec sender r.1.src r.1.dst now m₀)))
    unfolding switch
    copies-switch vm sender ep bytes now m v e =
        let r = get_src_dst vm bytes m.addr_vm in
        let m₀ = record m { addr_vm = r.0 } in
        rw (e, switch, switch_routed_lem dec sender (vm.data_mem r.0) r.1.src r.1.dst now m₀)
          (copies-routed sender ep (vm.data_mem r.0) r.1.src r.1.dst now r.0 m _ _ v)

    cache_of_vm :
        (a : ℕ) (w : V) (m : MiniPlex E V)
        → cache_of dec a (record m { addr_vm = w }) ≡ cache_of dec a m
    unfolding mini_plex.MiniPlex.new_addr_cache
    cache_of_vm a w m = refl

    src_first_kept :
        (sender b : E) (src now : ℕ) (m : MiniPlex E V)
        → first (keys (cache_of dec src m)) ≡ some b
        → first (keys (src_cache dec sender src now m)) ≡ some b
    src_first_kept sender b src now m h =
        let (ks, e) = keys-add dec sender now (cache_of dec src m) in
        rw e (first-append (keys (cache_of dec src m)) ks b h)

    routed_first :
        (sender b : E) (src dst a now : ℕ) (m : MiniPlex E V)
        → first (keys (cache_of dec a m)) ≡ some b
        → first (keys (cache_of dec a (routed_state dec sender src dst now m))) ≡ some b
    routed_first sender b src dst a now m h =
        ground
          (arith, cache_of_routed dec sender src dst a now m, src_first_kept sender b src now m)

    -- In Switch mode, once an address has a first branch, that branch stays the first whatever any
    -- endpoint sends, as long as it does not expire; and a datagram that claims the address as its
    -- source from any other endpoint is not forwarded.
    pub switch_bound :
        (vm : Vm V) (sender b ep : E) (bytes : List ℕ) (a now : ℕ) (m : MiniPlex E V)
        → IsKnown dec m
        → first (keys (cache_of dec a m)) ≡ some b
        → (first (keys (cache_of dec a (switch dec vm sender bytes now m).0)) ≡ some b)
          × ((get_src_dst vm bytes m.addr_vm).1.src ≡ a
              → sender ≢ b
              → copies dec ep (switch dec vm sender bytes now m).1 ≡ 0)
    unfolding switch
    switch_bound vm sender b ep bytes a now m v h =
        let r = get_src_dst vm bytes m.addr_vm in
        let m₀ = record m { addr_vm = r.0 } in
        let h₀ : first (keys (cache_of dec a m₀)) ≡ some b = rw (cache_of_vm a r.0 m) h in
        elim (Bool-cases r.1.success) [
          | inl e ↦ (
            rw (e, switch, switch_routed_lem dec sender (vm.data_mem r.0) r.1.src r.1.dst now m₀)
                (routed_first sender b r.1.src r.1.dst a now m₀ h₀),
            λ same other.
                copies-switch vm sender ep bytes now m v e
                ∙ rw (src_first_kept sender b r.1.src now m₀ (rw same h₀))
                    (routed_copies_other sender ep b (listed dec m ep) _ other),
          )
          | inr e ↦ (rw (e, switch) h₀, λ same other. rw (e, switch) refl)
        ]

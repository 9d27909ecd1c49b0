-- ===== src/MiniPlex/Runs.antt =====
-- The constructor's state, and every state that handlers lead to from it, in any order.
use Prim.Native.String.{String}
use mini_plex.Base.{
  ◌>>=◌, ℕ, suc, ◌≤◌, ◌<◌, ◌≡◌, subst, inl, inr, Bool, true, false, List, [], ◌∷◌, Option, some,
  arith, get_elem?, ◌==◌, Bool-cases, Option-cases,
}
use mini_plex.Base.Sets.{count, contains, count-set_insert, set_insert}
use mini_plex.TimeoutCache.{TimeoutCache, timer_handler, expire}
use mini_plex.TimeoutCache.Invariant.{IsLinked, timer_handler-IsLinked, handled}
use mini_plex.MiniPlex.{
  MiniPlex, Vm, branches, addr_cache, set_addr_cache, new_addr_cache, get_src_dst, hub, trunk,
  prune, switch, switch_routed,
}
use mini_plex.MiniPlex.Process.{
  Mode, hub_mode, trunk_mode, prune_mode, switch_mode, load_branches, run_posted, branch_timer,
  addr_timer, posting, mode_handler, rcv_handler,
}
use mini_plex.MiniPlex.Known.{IsKnown, branches-IsKnown, branch_timer-IsKnown, run_posted-IsKnown}
use mini_plex.MiniPlex.Switched.{AddrsOk, cache_of, addr_cache-set}
use mini_plex.MiniPlex.Routes.{switch_total, routed-IsKnown}

module _ {E : Type 0} (dec : Discrete E) (less : E → E → Bool) where
  pub load_branches_once :
      (endpoint : String → ℕ → Option E) (ports : List ℕ) (i : ℕ) (addrs : List String)
      (s t : List E) (ep : E)
      → load_branches dec less endpoint ports i addrs s ≡ some t
      → count dec ep s ≤ 1
      → count dec ep t ≤ 1
  unfolding load_branches
  load_branches_once endpoint ports i [] s t ep h v = ground arith
  load_branches_once endpoint ports i (a ∷ addrs) s t ep h v =
      elim (Option-cases (get_elem? ports i >>= endpoint a)) [
        | inl e ↦ ground arith
        | inr (b, e) ↦
            load_branches_once endpoint ports (suc i) addrs (set_insert dec less b s) t ep
              (rw (e, load_branches) at h) (ground (arith, count-set_insert dec less b ep s))
      ]

module _ {E : Type 0} (dec : Discrete E) where
  max_size-timer_handler :
      (k : E) (err : Bool) (now : ℕ) (c d : TimeoutCache E) (p : Option E)
      → timer_handler dec k err now c ≡ some (d, p)
      → d.max_size ≡ c.max_size
  unfolding timer_handler
  max_size-timer_handler k err now c d p h = ground arith

  cache_of-branches :
      {V : Type 0} (ep : E) (now a : ℕ) (m : MiniPlex E V)
      → cache_of dec a (branches dec ep now m) ≡ cache_of dec a m
  unfolding branches new_addr_cache
  cache_of-branches ep now a m = ground arith

  set-AddrsOk :
      {V : Type 0} (addr : ℕ) (d : TimeoutCache E) (m : MiniPlex E V)
      → IsLinked dec d
      → 0 < d.max_size
      → AddrsOk dec m
      → AddrsOk dec (record m { addr_branches = set_addr_cache dec addr d m.addr_branches })
  unfolding new_addr_cache
  set-AddrsOk addr d m l p v a =
      rw (addr_cache-set dec addr a d m.addr_branches, cache_of)
        (elim (Bool-cases (addr == a)) [ inl e ↦ rw e (l, p) | inr e ↦ rw e (v a) ])

module _ {E : Type 0} (dec : Discrete E) (less : E → E → Bool) {V : Type 0} where
  -- The handlers, and the timers and posted handlers that the program starts, in any order.
  pub data Step (vm : Vm V) (m : MiniPlex E V) : MiniPlex E V → Type 0 where
    receives :
        (mode : Mode) (err : Bool) (bytes : List ℕ) (sender : E) (now : ℕ)
        → Step vm m (rcv_handler dec vm mode err bytes sender now m).0
    expires :
        {n : MiniPlex E V} (ep : E) (err : Bool) (now : ℕ)
        → branch_timer dec ep err now m ≡ some n
        → Step vm m n
    addr_expires :
        {n : MiniPlex E V} (addr : ℕ) (ep : E) (err : Bool) (now : ℕ)
        → addr_timer dec addr ep err now m ≡ some n
        → Step vm m n
    runs : (ep : E) → contains dec m.posted ep ≡ true → Step vm m (run_posted dec less ep m)

  pub data Reach (vm : Vm V) (m : MiniPlex E V) : MiniPlex E V → Type 0 where
    here : Reach vm m m
    next : {n o : MiniPlex E V} → Reach vm m n → Step vm n o → Reach vm m o

  pub record Inv (m : MiniPlex E V) : Type 0 where
    pub known : IsKnown dec m
    pub addrs : AddrsOk dec m

  switch-IsKnown :
      (vm : Vm V) (sender : E) (bytes : List ℕ) (now : ℕ) (m : MiniPlex E V)
      → IsKnown dec m
      → IsKnown dec (switch dec vm sender bytes now m).0
  unfolding switch switch_routed
  switch-IsKnown vm sender bytes now m v =
      let r = get_src_dst vm bytes m.addr_vm in
      elim (Bool-cases r.1.success) [
        | inl e ↦ rw (e, switch) (routed-IsKnown dec sender r.1.src r.1.dst now r.0 m v)
        | inr e ↦
            rw (e, switch)
              (record { active = v.active; known = v.known; once = v.once; fixed = v.fixed })
      ]

  branches-AddrsOk :
      (ep : E) (now : ℕ) (m : MiniPlex E V) → AddrsOk dec m → AddrsOk dec (branches dec ep now m)
  branches-AddrsOk ep now m v a = rw (cache_of-branches dec ep now a m) (v a)

  mode_handler-Inv :
      (vm : Vm V) (mode : Mode) (sender : E) (bytes : List ℕ) (now : ℕ) (m : MiniPlex E V)
      → Inv m
      → Inv (mode_handler dec vm mode sender bytes now m).0
  unfolding mode_handler hub trunk prune
  mode_handler-Inv vm hub_mode sender bytes now m v = v
  mode_handler-Inv vm trunk_mode sender bytes now m v = v
  mode_handler-Inv vm prune_mode sender bytes now m v = v
  mode_handler-Inv vm switch_mode sender bytes now m v = record {
    known = switch-IsKnown vm sender bytes now m v.known;
    addrs = (switch_total dec vm sender bytes now m v.addrs).1;
  }

  addr_timer-Inv :
      (addr : ℕ) (ep : E) (err : Bool) (now : ℕ) (m n : MiniPlex E V)
      → addr_timer dec addr ep err now m ≡ some n
      → Inv m
      → Inv n
  unfolding addr_timer
  addr_timer-Inv addr ep err now m n h v =
      elim (Option-cases (addr_cache dec addr m.addr_branches)) [
        | inl e ↦ absurd (ground arith)
        | inr (c, e) ↦ elim (Option-cases (expire dec ep err now c)) [
          | inl f ↦ absurd (ground arith)
          | inr ((d, p), f) ↦
              let ok : IsLinked dec c × (0 < c.max_size) = rw (e, cache_of) at (v.addrs addr) in
              let linked : IsLinked dec d =
                rw (handled dec ep err now c d p f) at
                  (timer_handler-IsLinked dec ep err now c ok.0) in
              let known = v.known in
              let q : record m { addr_branches = set_addr_cache dec addr d m.addr_branches } ≡ n =
                ground arith in
              subst Inv q (record {
                known = record {
                  active = known.active;
                  known = known.known;
                  once = known.once;
                  fixed = known.fixed;
                };
                addrs =
                    set-AddrsOk dec addr d m linked
                      (omega (
                        arith,
                        max_size-timer_handler dec ep err now c d p
                            (handled dec ep err now c d p f),
                        ok.1,
                      ))
                      v.addrs;
              })
        ]
      ]

  branch_timer-AddrsOk :
      (ep : E) (err : Bool) (now : ℕ) (m n : MiniPlex E V)
      → branch_timer dec ep err now m ≡ some n
      → AddrsOk dec m
      → AddrsOk dec n
  unfolding branch_timer new_addr_cache
  branch_timer-AddrsOk ep err now m n h v =
      elim (Option-cases (expire dec ep err now m.active_branches)) [
        | inl e ↦ absurd (ground arith)
        | inr ((c, p), e) ↦
            let q : record m { active_branches = c; posted = posting p m.posted } ≡ n =
              ground arith in
            subst (AddrsOk dec) q v
      ]

  run_posted-AddrsOk :
      (ep : E) (m : MiniPlex E V) → AddrsOk dec m → AddrsOk dec (run_posted dec less ep m)
  unfolding run_posted new_addr_cache
  run_posted-AddrsOk ep m v a = v a

  Step-Inv : {vm : Vm V} {m n : MiniPlex E V} → Step vm m n → Inv m → Inv n
  unfolding rcv_handler
  Step-Inv {vm} {m} (receives mode true bytes sender now) v = v
  Step-Inv {vm} {m} (receives mode false bytes sender now) v =
      mode_handler-Inv vm mode sender bytes now (branches dec sender now m) (record {
        known = branches-IsKnown dec sender now m v.known;
        addrs = branches-AddrsOk sender now m v.addrs;
      })
  Step-Inv {vm} {m} (expires {n} ep err now h) v = record {
    known = branch_timer-IsKnown dec ep err now m n h v.known;
    addrs = branch_timer-AddrsOk ep err now m n h v.addrs;
  }
  Step-Inv {vm} {m} (addr_expires {n} addr ep err now h) v = addr_timer-Inv addr ep err now m n h v
  Step-Inv {vm} {m} (runs ep h) v = record {
    known = run_posted-IsKnown dec less ep m v.known;
    addrs = run_posted-AddrsOk ep m v.addrs;
  }

  pub Reach-Inv : {vm : Vm V} {m n : MiniPlex E V} → Inv m → Reach vm m n → Inv n
  Reach-Inv v here = v
  Reach-Inv v (next r s) = Step-Inv s (Reach-Inv v r)

-- ===== src/MiniPlex/Modes.antt =====
-- Where each mode sends a datagram.
use mini_plex.Base.{
  ℕ, ◌+◌, ◌≡◌, inl, inr, Bool, true, false, List, [], ◌∷◌, ◌++◌, some, ite, arith, Bool-cases,
}
use mini_plex.Base.Sets.{count}
use mini_plex.TimeoutCache.{keys}
use mini_plex.MiniPlex.{
  MiniPlex, Sending, Vm, trunk_targets, forward, forward_all, hub, trunk, prune, switch,
  switch_routed, switch_sends, get_src_dst,
}
use mini_plex.MiniPlex.Process.{
  Mode, hub_mode, trunk_mode, prune_mode, switch_mode, mode_handler, rcv_handler,
}
use mini_plex.MiniPlex.Counts.{targets, count-forward, count-keys}
use mini_plex.MiniPlex.Known.{IsKnown, listed}

module _ {E : Type 0} (dec : Discrete E) where
  count-map-append :
      (ep : E) (xs ys : List (Sending E))
      → count dec ep (targets (xs ++ ys)) ≡ count dec ep (targets xs) + count dec ep (targets ys)
  count-map-append ep [] ys = omega arith
  count-map-append ep (x ∷ xs) ys = omega (arith, count-map-append ep xs ys)

  -- Never back to the sender.
  no_echo_forward :
      (sender : E) (bytes : List ℕ) (bs : List E)
      → count dec sender (targets (forward dec bytes sender bs)) ≡ 0
  no_echo_forward sender bytes bs = ground (arith, count-forward dec sender sender bytes bs)

  module _ {V : Type 0} where
    no_echo_all :
        (sender : E) (bytes : List ℕ) (m : MiniPlex E V)
        → count dec sender (targets (forward_all dec bytes sender m)) ≡ 0
    unfolding forward_all
    no_echo_all sender bytes m = ground (
      arith,
      count-map-append sender (forward dec bytes sender (keys m.active_branches))
          (forward dec bytes sender m.inactive_perma_branches),
      no_echo_forward sender bytes (keys m.active_branches),
      no_echo_forward sender bytes m.inactive_perma_branches,
    )

    no_echo_switch_sends :
        (sender : E) (bytes : List ℕ) (m : MiniPlex E V) (src dst : List E)
        (sends : List (Sending E))
        → switch_sends dec sender bytes m src dst ≡ some sends
        → count dec sender (targets sends) ≡ 0
    unfolding switch_sends
    no_echo_switch_sends sender bytes m [] dst sends h = ground arith
    no_echo_switch_sends sender bytes m (x ∷ src) [] sends h =
        ground (arith, no_echo_all sender bytes m)
    no_echo_switch_sends sender bytes m (x ∷ src) (d ∷ dst) sends h =
        ground (arith, no_echo_forward sender bytes (d ∷ []))

    no_echo_mode :
        (vm : Vm V) (mode : Mode) (sender : E) (bytes : List ℕ) (now : ℕ) (m : MiniPlex E V)
        (sends : List (Sending E))
        → (mode_handler dec vm mode sender bytes now m).1 ≡ some sends
        → count dec sender (targets sends) ≡ 0
    unfolding mode_handler hub trunk prune switch switch_routed
    no_echo_mode vm hub_mode sender bytes now m sends h = ground (arith, no_echo_all sender bytes m)
    no_echo_mode vm trunk_mode sender bytes now m sends h =
        ground (arith, no_echo_all sender bytes m, no_echo_forward sender bytes (m.trunk ∷ []))
    no_echo_mode vm prune_mode sender bytes now m sends h = ground (
      arith,
      no_echo_forward sender bytes (m.trunk ∷ []),
      no_echo_forward sender bytes (trunk_targets m.perma_branches (keys m.active_branches)),
    )
    no_echo_mode vm switch_mode sender bytes now m sends h =
        elim (Bool-cases (get_src_dst vm bytes m.addr_vm).1.success) [
          | inl e ↦ no_echo_switch_sends sender _ _ _ _ sends (rw (e, switch) at h)
          | inr e ↦ ground arith
        ]

    -- In every mode, whatever the state, no datagram is sent back to the endpoint that it came
    -- from.
    pub no_echo :
        (vm : Vm V) (mode : Mode) (err : Bool) (bytes : List ℕ) (sender : E) (now : ℕ)
        (m : MiniPlex E V) (sends : List (Sending E))
        → (rcv_handler dec vm mode err bytes sender now m).1 ≡ some sends
        → count dec sender (targets sends) ≡ 0
    unfolding rcv_handler
    no_echo vm mode true bytes sender now m sends h = ground arith
    no_echo vm mode false bytes sender now m sends h =
        no_echo_mode vm mode sender bytes now _ sends h

    -- A datagram that is forwarded to all goes to every other endpoint as often as it is listed.
    pub count-forward_all :
        (ep sender : E) (bytes : List ℕ) (m : MiniPlex E V)
        → IsKnown dec m
        → count dec ep (targets (forward_all dec bytes sender m))
          ≡ ite (dec ep sender) 0 (listed dec m ep)
    unfolding forward_all
    count-forward_all ep sender bytes m v = ground (
      arith,
      count-map-append ep (forward dec bytes sender (keys m.active_branches))
          (forward dec bytes sender m.inactive_perma_branches),
      count-forward dec ep sender bytes (keys m.active_branches),
      count-forward dec ep sender bytes m.inactive_perma_branches,
      count-keys dec ep m.active_branches v.active,
    )

    -- Trunk mode: the trunk's datagrams go to every listed endpoint but the trunk, a branch's
    -- datagram to the trunk alone.
    pub count-trunk :
        (ep sender : E) (bytes : List ℕ) (m : MiniPlex E V)
        → IsKnown dec m
        → count dec ep (targets (trunk dec sender bytes m).1)
          ≡ ite
              (dec ep sender)
              0
              (ite (dec sender m.trunk) (listed dec m ep) (ite (dec m.trunk ep) 1 0))
    unfolding trunk
    count-trunk ep sender bytes m v = ground (
      arith,
      count-forward_all ep sender bytes m v,
      count-forward dec ep sender bytes (m.trunk ∷ []),
    )

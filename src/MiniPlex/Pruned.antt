-- ===== src/MiniPlex/Pruned.antt =====
-- Prune mode over a sequence of datagrams: "first in best dressed".
use mathlib.Core.List.{append-nil}
use mini_plex.Base.{
  ℕ, ◌≡◌, refl, ◌∙◌, ◌⊎◌, false, List, [], ◌∷◌, ◌++◌, map, Option, none, some, ite, arith,
}
use mini_plex.TimeoutCache.{TimeoutCache, add, keys, Node, refreshed, added, dropped}
use mini_plex.MiniPlex.{MiniPlex, Sending, Vm, forward, branches, prune}
use mini_plex.MiniPlex.Process.{Mode, prune_mode, mode_handler, rcv_handler}

-- A datagram, its sender and the time at which its handler runs.
pub record Datagram (E : Type 0) : Type 0 where
  pub sender : E
  pub bytes : List ℕ
  pub now : ℕ

-- A send, with the sender of the datagram that it forwards.
pub record Forwarded (E : Type 0) : Type 0 where
  pub sender : E
  pub to : E

abbrev pub All : {A : Type 0} → (A → Type 0) → List A → Type 0
All P [] = Unit
All P (x ∷ xs) = P x × All P xs

pub All-append :
    {A : Type 0} (P : A → Type 0) (xs ys : List A) → All P xs → All P ys → All P (xs ++ ys)
All-append P [] ys p q = q
All-append P (x ∷ xs) ys p q = (p.0, All-append P xs ys p.1 q)

abbrev pub tagged : {E : Type 0} → E → Option (List (Sending E)) → List (Forwarded E)
tagged sender none = []
tagged sender (some sends) = map (λ s. record { sender = sender; to = s.to }) sends

module _ {E : Type 0} (dec : Discrete E) {V : Type 0} (vm : Vm V) where
  -- The handlers of successive datagrams, with no expiry between them.
  unfoldable pub receive_all :
      Mode → List (Datagram E) → MiniPlex E V → MiniPlex E V × List (Forwarded E)
  receive_all mode [] m = (m, [])
  receive_all mode (d ∷ ds) m =
      let (n, sends) = rcv_handler dec vm mode false d.bytes d.sender d.now m in
      let (last, rest) = receive_all mode ds n in (last, tagged d.sender sends ++ rest)

module _ {E : Type 0} (dec : Discrete E) where
  keys-snoc :
      (ns ms : List (Node E))
      → map (λ n. n.key) (ns ++ ms) ≡ map (λ n. n.key) ns ++ map (λ n. n.key) ms
  keys-snoc [] ms = refl
  keys-snoc (n ∷ ns) ms = ground (arith, keys-snoc ns ms)

  -- `Add` keeps the order of the keys that it finds.
  pub keys-add :
      (k : E) (now : ℕ) (c : TimeoutCache E)
      → (ks : List E) × (keys (add dec k now c).0 ≡ keys c ++ ks)
  unfolding add
  keys-add k now c = (
    elim (add dec k now c).1 [ refreshed ↦ [] | added ↦ k ∷ [] | dropped ↦ [] ],
    ground (
      arith,
      keys-snoc c.key_sequence (record { id = c.next_node; key = k } ∷ []),
      append-nil (keys c),
    ),
  )

  keys-branches :
      {V : Type 0} (ep b : E) (ks : List E) (now : ℕ) (m : MiniPlex E V)
      → keys m.active_branches ≡ b ∷ ks
      → (ks' : List E) × (keys (branches dec ep now m).active_branches ≡ b ∷ ks')
        × ((branches dec ep now m).trunk ≡ m.trunk)
  unfolding branches
  keys-branches ep b ks now m h =
      let (new, e) = keys-add ep now m.active_branches in
      (ite (dec ep m.trunk) ks (ks ++ new), ground arith, ground arith)

  -- Between the first active branch and the trunk, in either direction.
  abbrev pub IsBetween : E → E → Forwarded E → Type 0
  IsBetween b t f = ((f.sender ≡ b) × (f.to ≡ t)) ⊎ ((f.sender ≡ t) × (f.to ≡ b))

  prune-IsBetween :
      {V : Type 0} (sender b t : E) (bytes : List ℕ) (ks : List E) (m : MiniPlex E V)
      → keys m.active_branches ≡ b ∷ ks
      → m.trunk ≡ t
      → All (IsBetween b t) (tagged sender (some (prune dec sender bytes m).1))
  unfolding prune forward
  prune-IsBetween sender b t bytes ks m h e = ground arith

  -- In Prune mode, once a branch is the first active one, then as long as no branch expires, only
  -- its datagrams are forwarded, to the trunk, and the trunk's datagrams to it alone, whatever
  -- other endpoints send; and it stays the first.
  pub prune_exclusive :
      {V : Type 0} (vm : Vm V) (b t : E) (ks : List E) (ds : List (Datagram E)) (m : MiniPlex E V)
      → keys m.active_branches ≡ b ∷ ks
      → m.trunk ≡ t
      → All (IsBetween b t) (receive_all dec vm prune_mode ds m).1
        × ((ks' : List E) × (keys (receive_all dec vm prune_mode ds m).0.active_branches ≡ b ∷ ks'))
  unfolding receive_all rcv_handler mode_handler prune
  prune_exclusive vm b t ks [] m h e = (tt, (ks, h))
  prune_exclusive vm b t ks (d ∷ ds) m h e =
      let n = branches dec d.sender d.now m in
      let (ks', h', e') = keys-branches d.sender b ks d.now m h in
      let (q, r) = prune_exclusive vm b t ks' ds n h' (e' ∙ e) in
      (All-append (IsBetween b t) _ _ (prune-IsBetween d.sender b t d.bytes ks' n h' (e' ∙ e)) q, r)

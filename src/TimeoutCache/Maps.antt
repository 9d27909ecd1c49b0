-- ===== src/TimeoutCache/Maps.antt =====
-- Lookups in `Cache` after a write or an erase, and identities of nodes in `KeySequence`.
use mini_plex.Base.{
  ℕ, suc, ◌≤◌, ◌<◌, ◌≡◌, refl, List, [], ◌∷◌, ◌++◌, Option, none, some, ite, arith, length,
}
use mini_plex.TimeoutCache.{CacheEntry, Node, erase_node, find, erase, put}

module _ {T : Type 0} (dec : Discrete T) where
  pub find-erase :
      (k j : T) (m : List (T × CacheEntry))
      → find dec j (erase dec k m) ≡ ite (dec k j) none (find dec j m)
  unfolding find erase
  find-erase k j [] = ground arith
  find-erase k j ((i, e) ∷ m) = ground (arith, find-erase k j m)

  pub find-put :
      (k j : T) (e : CacheEntry) (m : List (T × CacheEntry))
      → find dec j (put dec k e m) ≡ ite (dec k j) (some e) (find dec j m)
  unfolding find
  find-put k j e m = ground (arith, find-erase k j m)

  pub erase-put :
      (k : T) (e : CacheEntry) (m : List (T × CacheEntry))
      → erase dec k (put dec k e m) ≡ erase dec k m
  unfolding erase
  erase-put k e [] = ground arith
  erase-put k e ((i, f) ∷ m) = ground (arith, erase-put k e m)

  -- The identity of the first node with the key.
  unfoldable pub node_of : T → List (Node T) → Option ℕ
  node_of k [] = none
  node_of k (n ∷ ns) = ite (dec n.key k) (some n.id) (node_of k ns)

  abbrev pub or_else : Option ℕ → Option ℕ → Option ℕ
  or_else none o = o
  or_else (some i) o = some i

  pub node_of-append :
      (k : T) (ns ms : List (Node T)) → node_of k (ns ++ ms) ≡ or_else (node_of k ns) (node_of k ms)
  unfolding node_of
  node_of-append k [] ms = refl
  node_of-append k (n ∷ ns) ms = ground (arith, node_of-append k ns ms)

  -- Identities rise along the list, from `lo`, and stay below `hi`.
  abbrev pub Rises : ℕ → ℕ → List (Node T) → Type 0
  Rises lo hi [] = lo ≤ hi
  Rises lo hi (n ∷ ns) = (lo ≤ n.id) × (n.id < hi) × Rises (suc n.id) hi ns

  -- No key has two nodes.
  abbrev pub Distinct : List (Node T) → Type 0
  Distinct [] = Unit
  Distinct (n ∷ ns) = (node_of n.key ns ≡ none) × Distinct ns

  pub Rises-weaken :
      (lo lo' hi : ℕ) (ns : List (Node T)) → lo ≤ lo' → Rises lo' hi ns → Rises lo hi ns
  Rises-weaken lo lo' hi [] h r = omega arith
  Rises-weaken lo lo' hi (n ∷ ns) h r = (omega arith, r.1, r.2)

  pub Rises-snoc :
      (lo hi : ℕ) (ns : List (Node T)) (k : T)
      → Rises lo hi ns
      → Rises lo (suc hi) (ns ++ record { id = hi; key = k } ∷ [])
  Rises-snoc lo hi [] k r = (omega arith, omega arith, omega arith)
  Rises-snoc lo hi (n ∷ ns) k r = (r.0, omega arith, Rises-snoc (suc n.id) hi ns k r.2)

  pub Rises-erase_node :
      (lo hi i : ℕ) (ns : List (Node T)) → Rises lo hi ns → Rises lo hi (erase_node i ns)
  unfolding erase_node
  Rises-erase_node lo hi i [] r = r
  Rises-erase_node lo hi i (n ∷ ns) r =
      ground (arith, Rises-erase_node (suc n.id) hi i ns r.2, Rises-weaken lo (suc n.id) hi ns)

  pub node_of-ge :
      (lo hi i : ℕ) (ns : List (Node T)) (k : T) → Rises lo hi ns → node_of k ns ≡ some i → lo ≤ i
  unfolding node_of
  node_of-ge lo hi i [] k r e = cc
  node_of-ge lo hi i (n ∷ ns) k r e = ground (arith, node_of-ge (suc n.id) hi i ns k r.2)

  pub node_of-lt :
      (lo hi i : ℕ) (ns : List (Node T)) (k : T) → Rises lo hi ns → node_of k ns ≡ some i → i < hi
  unfolding node_of
  node_of-lt lo hi i [] k r e = cc
  node_of-lt lo hi i (n ∷ ns) k r e = ground (arith, node_of-lt (suc n.id) hi i ns k r.2)

  pub Distinct-snoc :
      (ns : List (Node T)) (n : Node T)
      → Distinct ns
      → node_of n.key ns ≡ none
      → Distinct (ns ++ n ∷ [])
  unfolding node_of
  Distinct-snoc [] n d e = (refl, tt)
  Distinct-snoc (m ∷ ns) n d e =
      ground (arith, Distinct-snoc ns n d.1, node_of-append m.key ns (n ∷ []))

  -- Erasing the node of `k` hides `k` and no other key.
  pub node_of-erase_node :
      (lo hi i : ℕ) (ns : List (Node T)) (k j : T)
      → Rises lo hi ns
      → Distinct ns
      → node_of k ns ≡ some i
      → node_of j (erase_node i ns) ≡ ite (dec k j) none (node_of j ns)
  unfolding node_of erase_node
  node_of-erase_node lo hi i [] k j r d e = cc
  node_of-erase_node lo hi i (n ∷ ns) k j r d e = ground (
    arith,
    node_of-erase_node (suc n.id) hi i ns k j r.2 d.1,
    node_of-ge (suc n.id) hi i ns k r.2,
  )

  pub Distinct-erase_node :
      (lo hi i : ℕ) (ns : List (Node T)) (k : T)
      → Rises lo hi ns
      → Distinct ns
      → node_of k ns ≡ some i
      → Distinct (erase_node i ns)
  unfolding node_of erase_node
  Distinct-erase_node lo hi i [] k r d e = tt
  Distinct-erase_node lo hi i (n ∷ ns) k r d e = ground (
    arith,
    Distinct-erase_node (suc n.id) hi i ns k r.2 d.1,
    node_of-ge (suc n.id) hi i ns k r.2,
    node_of-erase_node (suc n.id) hi i ns k n.key r.2 d.1,
  )

pub length-erase_node :
    {T : Type 0} (i : ℕ) (ns : List (Node T)) → length (erase_node i ns) ≤ length ns
unfolding erase_node
length-erase_node i [] = omega arith
length-erase_node i (n ∷ ns) = ground (arith, length-erase_node i ns)

-- ===== src/MiniPlex/Counts.antt =====
-- How often an endpoint is cached, and how often a datagram goes to it.
use mini_plex.Base.{
  ℕ, suc, ◌+◌, ◌≤◌, ◌<◌, ◌≡◌, refl, ◌⊎◌, inl, inr, Bool, true, false, List, [], ◌∷◌, map, none,
  some, Option, ite, arith, length, length-append, Option-cases,
}
use mini_plex.Base.Sets.{count}
use mini_plex.TimeoutCache.{
  CacheEntry, TimeoutCache, Node, refreshed, added, dropped, find, add, keys, new_entry,
  timer_handler, erase, erase_node,
}
use mini_plex.TimeoutCache.Maps.{node_of, Distinct, find-put, find-erase}
use mini_plex.TimeoutCache.Invariant.{IsLinked}
use mini_plex.MiniPlex.{Sending, forward}

abbrev pub targets : {E : Type 0} → List (Sending E) → List E
targets = map (λ s. s.to)

abbrev pub presence : {A : Type 0} → Option A → ℕ
presence none = 0
presence (some a) = 1

module _ {E : Type 0} (dec : Discrete E) where
  -- How often a handler sends to the endpoint; a handler that fails sends nothing.
  abbrev pub copies : E → Option (List (Sending E)) → ℕ
  copies ep none = 0
  copies ep (some sends) = count dec ep (targets sends)

  pub count-forward :
      (ep sender : E) (bytes : List ℕ) (branches : List E)
      → count dec ep (targets (forward dec bytes sender branches))
        ≡ ite (dec ep sender) 0 (count dec ep branches)
  unfolding forward
  count-forward ep sender bytes [] = ground arith
  count-forward ep sender bytes (b ∷ bs) = ground (arith, count-forward ep sender bytes bs)

  count-nodes :
      (ns : List (Node E)) (k : E)
      → Distinct dec ns
      → count dec k (map (λ n. n.key) ns) ≡ presence (node_of dec k ns)
  unfolding node_of
  count-nodes [] k d = refl
  count-nodes (n ∷ ns) k d = ground (arith, count-nodes ns k d.1)

  -- Between calls a key is in `Keys` once if it has an entry, and not at all if not.
  pub count-keys :
      (k : E) (c : TimeoutCache E)
      → IsLinked dec c
      → count dec k (keys c) ≡ presence (find dec k c.cache)
  count-keys k c v = ground (arith, v.linked k, count-nodes c.key_sequence k v.distinct)

  -- `Add` caches its key and no other, unless it is full.
  pub presence-add :
      (k j : E) (now : ℕ) (c : TimeoutCache E)
      → presence (find dec j (add dec k now c).0.cache)
        ≡ ite
            (dec k j)
            (elim (add dec k now c).1 [ refreshed ↦ 1 | added ↦ 1 | dropped ↦ 0 ])
            (presence (find dec j c.cache))
  unfolding add
  presence-add k j now c = elim (Option-cases (find dec k c.cache)) [
    | inl e ↦ ground (arith, find-put dec k j (new_entry now c) c.cache)
    | inr (x, e) ↦ ground (arith, find-put dec k j (record x { access_time = now }) c.cache)
  ]

  pub presence_before_add :
      (k : E) (now : ℕ) (c : TimeoutCache E)
      → presence (find dec k c.cache)
        ≡ elim (add dec k now c).1 [ refreshed ↦ 1 | added ↦ 0 | dropped ↦ 0 ]
  unfolding add
  presence_before_add k now c = ground arith

  -- The handler of a key posts that key or none.
  pub timer_handler_posts :
      (k : E) (err : Bool) (now : ℕ) (c d : TimeoutCache E) (p : Option E)
      → timer_handler dec k err now c ≡ some (d, p)
      → (p ≡ none) ⊎ (p ≡ some k)
  unfolding timer_handler
  timer_handler_posts k err now c d p h = ground arith

  length_of_node_of :
      (k : E) (ns : List (Node E)) (i : ℕ) → node_of dec k ns ≡ some i → 0 < length ns
  unfolding node_of
  length_of_node_of k [] i e = cc
  length_of_node_of k (n ∷ ns) i e = omega arith

  -- An expiry uncaches at most its key, which it then posts.
  pub presence-timer_handler :
      (k j : E) (err : Bool) (now : ℕ) (c d : TimeoutCache E) (p : Option E)
      → timer_handler dec k err now c ≡ some (d, p)
      → presence (find dec j c.cache)
        ≡ presence (find dec j d.cache) + elim p [ none ↦ 0 | some i ↦ ite (dec i j) 1 0 ]
  unfolding timer_handler
  presence-timer_handler k j true now c d p h = ground arith
  presence-timer_handler k j false now c d p h = elim (Option-cases (find dec k c.cache)) [
    | inl e ↦ ground arith
    | inr (x, e) ↦ ground (
      arith,
      find-erase dec k j c.cache,
      find-put dec k j (record x { expiry = x.access_time + c.timeout; waiting = true }) c.cache,
    )
  ]

  -- A cache with room for a key is not empty after `Add`.
  pub add_nonempty :
      (k : E) (now : ℕ) (c : TimeoutCache E)
      → IsLinked dec c
      → 0 < c.max_size
      → 0 < length (add dec k now c).0.key_sequence
  unfolding add
  add_nonempty k now c v room = elim (Option-cases (find dec k c.cache)) [
    | inl e ↦
        ground (arith, length-append c.key_sequence (record { id = c.next_node; key = k } ∷ []))
    | inr (x, e) ↦
        ground (arith, v.linked k, length_of_node_of k c.key_sequence x.key_sequence_iterator)
  ]

  pub length-erase_node_of :
      (k : E) (ns : List (Node E)) (i : ℕ)
      → node_of dec k ns ≡ some i
      → suc (length (erase_node i ns)) ≡ length ns
  unfolding node_of erase_node
  length-erase_node_of k [] i e = cc
  length-erase_node_of k (n ∷ ns) i e = ground (arith, length-erase_node_of k ns i)

  -- An idle key leaves the cache, is posted, and leaves room for one key.
  pub timer_handler_idle :
      (k : E) (now : ℕ) (c : TimeoutCache E) (e : CacheEntry)
      → IsLinked dec c
      → find dec k c.cache ≡ some e
      → e.access_time + c.timeout ≤ now
      → (d : TimeoutCache E) × (timer_handler dec k false now c ≡ some (d, some k))
        × (find dec k d.cache ≡ none)
        × (length d.key_sequence < d.max_size)
  unfolding timer_handler
  timer_handler_idle k now c e v h idle = (
    record c {
      cache = erase dec k c.cache;
      key_sequence = erase_node e.key_sequence_iterator c.key_sequence;
    },
    ground arith,
    ground (arith, find-erase dec k k c.cache),
    ground (
      arith,
      v.linked k,
      v.bounded,
      length-erase_node_of k c.key_sequence e.key_sequence_iterator,
    ),
  )

  pub add_room :
      (k : E) (now : ℕ) (c : TimeoutCache E)
      → find dec k c.cache ≡ none
      → length c.key_sequence < c.max_size
      → (add dec k now c).1 ≡ added
  unfolding add
  add_room k now c h room = ground arith

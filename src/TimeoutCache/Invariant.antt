-- ===== src/TimeoutCache/Invariant.antt =====
-- What holds of a cache between calls, and the calls that keep it.
use mini_plex.Base.{
  ℕ, suc, ◌+◌, ◌≤◌, ◌≡◌, refl, sym, ◌∙◌, inl, inr, Bool, true, false, [], ◌∷◌, ◌++◌, none, some,
  Option, arith, length, length-append, Option-cases, Bool-cases, leb, ltb,
}
use mini_plex.TimeoutCache.{
  CacheEntry, TimeoutCache, init, set_max_size, find, add, timer_handler, erase_node, put, erase,
  new_entry, complete, expire,
}
use mini_plex.TimeoutCache.Maps.{
  find-erase, find-put, erase-put, node_of, Rises, Distinct, node_of-append, Rises-snoc,
  Rises-erase_node, Distinct-snoc, Distinct-erase_node, node_of-erase_node, length-erase_node,
}

abbrev pub iterator_of : Option CacheEntry → Option ℕ
iterator_of none = none
iterator_of (some e) = some e.key_sequence_iterator

module _ {T : Type 0} (dec : Discrete T) where
  pub record IsLinked (c : TimeoutCache T) : Type 0 where
    -- A key has an entry just when it has a node, and the entry's iterator is that node.
    pub linked : (k : T) → node_of dec k c.key_sequence ≡ iterator_of (find dec k c.cache)
    pub rises : Rises dec 0 c.next_node c.key_sequence
    pub distinct : Distinct dec c.key_sequence
    pub bounded : length c.key_sequence ≤ c.max_size

  pub init-IsLinked : (timeout : ℕ) → IsLinked (init timeout)
  unfolding init find node_of
  init-IsLinked timeout = record {
    linked = λ k. refl;
    rises = omega arith;
    distinct = tt;
    bounded = omega arith;
  }

  pub limited-IsLinked : (timeout max : ℕ) → IsLinked (set_max_size max (init timeout))
  unfolding set_max_size init
  limited-IsLinked timeout max =
      let v = init-IsLinked timeout in
      record { linked = v.linked; rises = v.rises; distinct = v.distinct; bounded = omega arith }

  -- A write to an entry that keeps its iterator.
  put-IsLinked :
      (k : T) (x y : CacheEntry) (c : TimeoutCache T)
      → find dec k c.cache ≡ some x
      → y.key_sequence_iterator ≡ x.key_sequence_iterator
      → IsLinked c
      → IsLinked (record c { cache = put dec k y c.cache })
  put-IsLinked k x y c e same v = record {
    linked = λ j. ground (arith, find-put dec k j y c.cache, v.linked j);
    rises = v.rises;
    distinct = v.distinct;
    bounded = v.bounded;
  }

  -- A new key at the end.
  snoc-IsLinked :
      (k : T) (now : ℕ) (c : TimeoutCache T)
      → find dec k c.cache ≡ none
      → suc (length c.key_sequence) ≤ c.max_size
      → IsLinked c
      → IsLinked (record c {
        cache = put dec k (new_entry now c) c.cache;
        key_sequence = c.key_sequence ++ record { id = c.next_node; key = k } ∷ [];
        next_node = suc c.next_node;
      })
  unfolding node_of new_entry
  snoc-IsLinked k now c e room v = record {
    linked = λ j. ground (
      arith,
      find-put dec k j (new_entry now c) c.cache,
      v.linked j,
      v.linked k,
      node_of-append dec j c.key_sequence (record { id = c.next_node; key = k } ∷ []),
    );
    rises = Rises-snoc dec 0 c.next_node c.key_sequence k v.rises;
    distinct = Distinct-snoc dec c.key_sequence _ v.distinct (ground (arith, v.linked k));
    bounded =
        omega (arith, length-append c.key_sequence (record { id = c.next_node; key = k } ∷ []));
  }

  -- An entry that goes with its node.
  erase-IsLinked :
      (k : T) (x : CacheEntry) (c : TimeoutCache T)
      → find dec k c.cache ≡ some x
      → IsLinked c
      → IsLinked (record c {
        cache = erase dec k c.cache;
        key_sequence = erase_node x.key_sequence_iterator c.key_sequence;
      })
  erase-IsLinked k x c e v =
      let i = x.key_sequence_iterator in
      let at : node_of dec k c.key_sequence ≡ some i = ground (arith, v.linked k) in
      record {
        linked = λ j. ground (
          arith,
          find-erase dec k j c.cache,
          v.linked j,
          node_of-erase_node dec 0 c.next_node i c.key_sequence k j v.rises v.distinct at,
        );
        rises = Rises-erase_node dec 0 c.next_node i c.key_sequence v.rises;
        distinct = Distinct-erase_node dec 0 c.next_node i c.key_sequence k v.rises v.distinct at;
        bounded = omega (arith, length-erase_node i c.key_sequence);
      }

  pub add-IsLinked :
      (k : T) (now : ℕ) (c : TimeoutCache T) → IsLinked c → IsLinked (add dec k now c).0
  unfolding add
  add-IsLinked k now c v = elim (Option-cases (find dec k c.cache)) [
    | inl e ↦ elim (Bool-cases (leb c.max_size (length c.key_sequence))) [
      | inl full ↦ rw (e, full, add) v
      | inr room ↦ rw (e, room, add) (snoc-IsLinked k now c e (ground arith) v)
    ]
    | inr (x, e) ↦ rw (e, add) (put-IsLinked k x (record x { access_time = now }) c e refl v)
  ]

  -- The cache that a handler leaves, if it does not throw.
  abbrev pub after : TimeoutCache T → Option (TimeoutCache T × Option T) → TimeoutCache T
  after c none = c
  after c (some (d, posted)) = d

  pub timer_handler-IsLinked :
      (k : T) (err : Bool) (now : ℕ) (c : TimeoutCache T)
      → IsLinked c
      → IsLinked (after c (timer_handler dec k err now c))
  unfolding timer_handler
  timer_handler-IsLinked k true now c v = v
  timer_handler-IsLinked k false now c v = elim (Option-cases (find dec k c.cache)) [
    | inl e ↦ rw (e, timer_handler) v
    | inr (x, e) ↦ elim (Bool-cases (ltb now (x.access_time + c.timeout))) [
      | inl busy ↦ rw (e, busy, timer_handler) (put-IsLinked k x _ c e refl v)
      | inr idle ↦ rw (e, idle, timer_handler) (erase-IsLinked k x c e v)
    ]
  ]

  -- `TimerHandler` starts the wait again or erases the entry, so it does not matter to it that the
  -- wait has ended.
  pub expire-timer_handler :
      (k : T) (err : Bool) (now : ℕ) (c : TimeoutCache T)
      → expire dec k err now c ≡ timer_handler dec k err now c
  unfolding expire complete timer_handler find
  expire-timer_handler k true now c = refl
  expire-timer_handler k false now c = elim (Option-cases (find dec k c.cache)) [
    | inl e ↦ rw (e, e) refl
    | inr (x, e) ↦ ground (
      arith,
      find-put dec k k (record x { waiting = false }) c.cache,
      erase-put dec k (record x { waiting = false }) c.cache,
    )
  ]

  -- The handler's result at the end of a wait is that of `TimerHandler`.
  pub handled :
      (k : T) (err : Bool) (now : ℕ) (c d : TimeoutCache T) (p : Option T)
      → expire dec k err now c ≡ some (d, p)
      → timer_handler dec k err now c ≡ some (d, p)
  handled k err now c d p e = sym (expire-timer_handler k err now c) ∙ e

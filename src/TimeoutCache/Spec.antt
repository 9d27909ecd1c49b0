-- ===== src/TimeoutCache/Spec.antt =====
-- The promise of the cache: a list of keys with times of last access, oldest key first.
use mathlib.Core.Path.{fun_ext}
use mini_plex.Base.{
  ℕ, suc, ◌+◌, ◌≡◌, refl, ap, inl, inr, true, List, [], ◌∷◌, ◌++◌, none, some, Option, ite, arith,
  length, leb, ltb, Option-cases, if◌then◌else◌,
}
use mini_plex.TimeoutCache.{
  CacheEntry, TimeoutCache, Node, AddResult, refreshed, added, dropped, find, add, erase_node, put,
  erase, new_entry,
}
use mini_plex.TimeoutCache.Maps.{find-erase, find-put, node_of, Rises, Distinct, node_of-ge}
use mini_plex.TimeoutCache.Invariant.{IsLinked}

abbrev pub Ages : Type 0 → Type 0
Ages T = List (T × ℕ)

module _ {T : Type 0} (dec : Discrete T) where
  unfoldable pub age : T → Ages T → Option ℕ
  age k [] = none
  age k ((j, t) ∷ s) = ite (dec j k) (some t) (age k s)

  unfoldable pub touch : T → ℕ → Ages T → Ages T
  touch k now [] = []
  touch k now ((j, t) ∷ s) = ite (dec j k) (j, now) (j, t) ∷ touch k now s

  unfoldable pub remove : T → Ages T → Ages T
  remove k [] = []
  remove k ((j, t) ∷ s) = ite (dec j k) s ((j, t) ∷ remove k s)

  unfoldable pub spec_add : ℕ → T → ℕ → Ages T → Ages T × AddResult
  spec_add max k now s = elim (age k s) [
    | some t ↦ (touch k now s, refreshed)
    | none ↦ if leb max (length s) then (s, dropped) else (s ++ (k, now) ∷ [], added)
  ]

  unfoldable pub spec_timer : ℕ → T → ℕ → Ages T → Option (Ages T × Option T)
  spec_timer timeout k now s = elim (age k s) [
    | none ↦ none
    | some t ↦ if ltb now (t + timeout) then some (s, none) else some (remove k s, some k)
  ]

  abbrev access_of : Option CacheEntry → ℕ
  access_of none = 0
  access_of (some e) = e.access_time

  abbrev stamp : (T → ℕ) → List (Node T) → Ages T
  stamp f [] = []
  stamp f (n ∷ ns) = (n.key, f n.key) ∷ stamp f ns

  -- The keys in order of addition, each with the access time of its entry.
  unfoldable pub view : TimeoutCache T → Ages T
  view c = stamp (λ k. access_of (find dec k c.cache)) c.key_sequence

  abbrev found : ℕ → Option ℕ → Option ℕ
  found t none = none
  found t (some i) = some t

  age-stamp :
      (f : T → ℕ) (ns : List (Node T)) (k : T) → age k (stamp f ns) ≡ found (f k) (node_of dec k ns)
  unfolding age node_of
  age-stamp f [] k = refl
  age-stamp f (n ∷ ns) k = ground (arith, age-stamp f ns k)

  length-stamp : (f : T → ℕ) (ns : List (Node T)) → length (stamp f ns) ≡ length ns
  length-stamp f [] = refl
  length-stamp f (n ∷ ns) = ap suc (length-stamp f ns)

  stamp_ext :
      (f g : T → ℕ) (ns : List (Node T)) (k : T)
      → ((j : T) → f j ≡ ite (dec k j) (f j) (g j))
      → node_of dec k ns ≡ none
      → stamp f ns ≡ stamp g ns
  unfolding node_of
  stamp_ext f g [] k h e = refl
  stamp_ext f g (n ∷ ns) k h e = ground (arith, h n.key, stamp_ext f g ns k h)

  stamp-touch :
      (f g : T → ℕ) (now : ℕ) (ns : List (Node T)) (k : T)
      → ((j : T) → f j ≡ ite (dec k j) now (g j))
      → stamp f ns ≡ touch k now (stamp g ns)
  unfolding touch
  stamp-touch f g now [] k h = refl
  stamp-touch f g now (n ∷ ns) k h = ground (arith, h n.key, stamp-touch f g now ns k h)

  stamp-snoc :
      (f g : T → ℕ) (now i : ℕ) (ns : List (Node T)) (k : T)
      → ((j : T) → f j ≡ ite (dec k j) now (g j))
      → node_of dec k ns ≡ none
      → stamp f (ns ++ record { id = i; key = k } ∷ []) ≡ stamp g ns ++ (k, now) ∷ []
  unfolding node_of
  stamp-snoc f g now i [] k h e = ground (arith, h k)
  stamp-snoc f g now i (n ∷ ns) k h e = ground (arith, h n.key, stamp-snoc f g now i ns k h)

  stamp-erase_node :
      (f g : T → ℕ) (lo hi i : ℕ) (ns : List (Node T)) (k : T)
      → ((j : T) → f j ≡ ite (dec k j) (f j) (g j))
      → Rises dec lo hi ns
      → Distinct dec ns
      → node_of dec k ns ≡ some i
      → stamp f (erase_node i ns) ≡ remove k (stamp g ns)
  unfolding node_of erase_node remove
  stamp-erase_node f g lo hi i [] k h r d e = cc
  stamp-erase_node f g lo hi i (n ∷ ns) k h r d e = ground (
    arith,
    h n.key,
    stamp_ext f g ns k h,
    node_of-ge dec (suc n.id) hi i ns k r.2,
    stamp-erase_node f g (suc n.id) hi i ns k h r.2 d.1,
  )

  abbrev access : TimeoutCache T → T → ℕ
  access c k = access_of (find dec k c.cache)

  access-put :
      (k : T) (e : CacheEntry) (c : TimeoutCache T) (j : T)
      → access_of (find dec j (put dec k e c.cache)) ≡ ite (dec k j) e.access_time (access c j)
  access-put k e c j = ground (arith, find-put dec k j e c.cache)

  pub age-view :
      (k : T) (c : TimeoutCache T)
      → IsLinked dec c
      → age k (view c) ≡ elim (find dec k c.cache) [ none ↦ none | some e ↦ some e.access_time ]
  unfolding view
  age-view k c v = ground (arith, v.linked k, age-stamp (access c) c.key_sequence k)

  length-view : (c : TimeoutCache T) → length (view c) ≡ length c.key_sequence
  unfolding view
  length-view c = length-stamp (access c) c.key_sequence

  view_refreshed :
      (k : T) (now : ℕ) (x : CacheEntry) (c : TimeoutCache T)
      → view (record c { cache = put dec k (record x { access_time = now }) c.cache })
        ≡ touch k now (view c)
  unfolding view
  view_refreshed k now x c =
      stamp-touch _ (access c) now c.key_sequence k
        (access-put k (record x { access_time = now }) c)

  pub view_rearmed :
      (k : T) (x : CacheEntry) (at : ℕ) (c : TimeoutCache T)
      → find dec k c.cache ≡ some x
      → view (record c { cache = put dec k (record x { expiry = at; waiting = true }) c.cache })
        ≡ view c
  unfolding view
  view_rearmed k x at c e =
      ap (λ f. stamp f c.key_sequence)
        (fun_ext λ j. ground (arith, access-put k (record x { expiry = at; waiting = true }) c j))

  view_added :
      (k : T) (now : ℕ) (c : TimeoutCache T)
      → node_of dec k c.key_sequence ≡ none
      → view (record c {
        cache = put dec k (new_entry now c) c.cache;
        key_sequence = c.key_sequence ++ record { id = c.next_node; key = k } ∷ [];
        next_node = suc c.next_node;
      })
        ≡ view c ++ (k, now) ∷ []
  unfolding view new_entry
  view_added k now c e =
      stamp-snoc _ (access c) now c.next_node c.key_sequence k (access-put k (new_entry now c) c) e

  pub view_expired :
      (k : T) (x : CacheEntry) (c : TimeoutCache T)
      → find dec k c.cache ≡ some x
      → IsLinked dec c
      → view (record c {
        cache = erase dec k c.cache;
        key_sequence = erase_node x.key_sequence_iterator c.key_sequence;
      })
        ≡ remove k (view c)
  unfolding view
  view_expired k x c e v =
      stamp-erase_node _ (access c) 0 c.next_node x.key_sequence_iterator c.key_sequence k
        (λ j. ground (arith, find-erase dec k j c.cache)) v.rises v.distinct
        (ground (arith, v.linked k))

  -- On a well-formed cache `Add` gives the key the time `now` in its place if the key is known,
  -- reports `DROPPED` and changes nothing if it is new and the cache holds `max_size` keys, and
  -- otherwise puts it last with the time `now`.
  pub view-add :
      (k : T) (now : ℕ) (c : TimeoutCache T)
      → IsLinked dec c
      → (view (add dec k now c).0, (add dec k now c).1) ≡ spec_add c.max_size k now (view c)
  unfolding add spec_add
  view-add k now c v = elim (Option-cases (find dec k c.cache)) [
    | inl e ↦ ground (arith, age-view k c v, length-view c, v.linked k, view_added k now c)
    | inr (x, e) ↦ ground (arith, age-view k c v, view_refreshed k now x c)
  ]

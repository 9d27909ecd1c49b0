-- ===== src/TimeoutCache.antt =====
-- src/TimeoutCache.h: keys with a time of last access, dropped once idle for `timeout`.
-- `Cache` is an association list without repeated keys; `KeySequence` is a list of nodes, each
-- with an identity, since an entry keeps an iterator to its node. A reading of the steady clock
-- is the argument `now`; the readings of one call are taken as one instant.
pub mod Maps
pub mod Invariant
pub mod Spec
pub mod Expiry
pub mod Timers
mod Tests
use mini_plex.Base.{
  ℕ, suc, ◌+◌, ◌-◌, ◌^◌, Bool, true, false, List, [], ◌∷◌, ◌++◌, map, Option, none, some, ite,
  ℕ_discrete, length, ltb, leb, if◌then◌else◌,
}

-- `enum AddResult`
pub data AddResult : Type 0 where
  refreshed added dropped : AddResult

-- `struct CacheEntry`. The timer is its expiry time, and whether a wait is outstanding.
pub record CacheEntry : Type 0 where
  pub expiry : ℕ
  pub waiting : Bool
  pub access_time : ℕ
  pub key_sequence_iterator : ℕ

-- A node of `std::list<T>`.
pub record Node (T : Type 0) : Type 0 where
  pub id : ℕ
  pub key : T

pub record TimeoutCache (T : Type 0) : Type 0 where
  pub timeout : ℕ
  pub max_size : ℕ
  pub cache : List (T × CacheEntry)
  pub key_sequence : List (Node T)
  pub next_node : ℕ

unfoldable pub init : {T : Type 0} → ℕ → TimeoutCache T
init timeout_ms = record {
  timeout = timeout_ms;
  max_size = 2 ^ 64 - 1;
  cache = [];
  key_sequence = [];
  next_node = 0;
}

unfoldable pub clear : {T : Type 0} → TimeoutCache T → TimeoutCache T
clear c = record c { cache = []; key_sequence = [] }

unfoldable pub set_max_size : {T : Type 0} → ℕ → TimeoutCache T → TimeoutCache T
set_max_size max c = record c { max_size = max }

-- The constructor of `CacheEntry`, with the wait that `Add` then starts.
unfoldable pub new_entry : {T : Type 0} → ℕ → TimeoutCache T → CacheEntry
new_entry now c = record {
  expiry = now + c.timeout;
  waiting = true;
  access_time = now;
  key_sequence_iterator = c.next_node;
}

-- `Keys`, in the order in which the keys were added.
abbrev pub keys : {T : Type 0} → TimeoutCache T → List T
keys c = map (λ n. n.key) c.key_sequence

-- `KeySequence.erase(it)`: the node with the identity goes, whatever its key.
unfoldable pub erase_node : {T : Type 0} → ℕ → List (Node T) → List (Node T)
erase_node i [] = []
erase_node i (n ∷ ns) = ite (ℕ_discrete n.id i) ns (n ∷ erase_node i ns)

module _ {T : Type 0} (dec : Discrete T) where
  -- `Cache.find`, `Cache.erase` and the write through an iterator of `Cache`.
  unfoldable pub find : T → List (T × CacheEntry) → Option CacheEntry
  find k [] = none
  find k ((j, e) ∷ m) = ite (dec j k) (some e) (find k m)

  unfoldable pub erase : T → List (T × CacheEntry) → List (T × CacheEntry)
  erase k [] = []
  erase k ((j, e) ∷ m) = ite (dec j k) (erase k m) ((j, e) ∷ erase k m)

  abbrev pub put : T → CacheEntry → List (T × CacheEntry) → List (T × CacheEntry)
  put k e m = (k, e) ∷ erase k m

  -- `Add`
  unfoldable pub add : T → ℕ → TimeoutCache T → TimeoutCache T × AddResult
  add key now c = elim (find key c.cache) [
    | some e ↦ (record c { cache = put key (record e { access_time = now }) c.cache }, refreshed)
    | none ↦ if leb c.max_size (length c.key_sequence) then (c, dropped) else (
      record c {
        cache = put key (new_entry now c) c.cache;
        key_sequence = c.key_sequence ++ record { id = c.next_node; key = key } ∷ [];
        next_node = suc c.next_node;
      },
      added,
    )
  ]

  -- `TimerHandler`, with the key whose `timeout_handler` it posts. `none` is the exception of
  -- `Cache.at`.
  unfoldable pub timer_handler : T → Bool → ℕ → TimeoutCache T → Option (TimeoutCache T × Option T)
  timer_handler key err now c = if err then some (c, none) else elim (find key c.cache) [
    | none ↦ none
    | some e ↦
        if ltb now (e.access_time + c.timeout)
        then some (
          record c {
            cache =
                put key (record e { expiry = e.access_time + c.timeout; waiting = true }) c.cache;
          },
          none,
        )
        else some (
          record c {
            cache = erase key c.cache;
            key_sequence = erase_node e.key_sequence_iterator c.key_sequence;
          },
          some key,
        )
  ]

  -- The wait of the key's timer ends.
  unfoldable pub complete : T → TimeoutCache T → TimeoutCache T
  complete key c = elim (find key c.cache) [
    | none ↦ c
    | some e ↦ record c { cache = put key (record e { waiting = false }) c.cache }
  ]

  -- A completion of `async_wait`, which runs `TimerHandler`. One with an error is that of a timer
  -- that has been destroyed, so that no entry of the cache waits for it.
  unfoldable pub expire : T → Bool → ℕ → TimeoutCache T → Option (TimeoutCache T × Option T)
  expire key err now c = timer_handler key err now (if err then c else complete key c)

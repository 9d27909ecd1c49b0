-- ===== src/TimeoutCache/Timers.antt =====
-- Every entry has a running timer, so every key that stays idle is looked at in time.
use mini_plex.Base.{
  ℕ, ◌+◌, ◌≤◌, ◌≡◌, inl, inr, Bool, true, false, none, some, Option, arith, Option-cases,
}
use mini_plex.TimeoutCache.{
  CacheEntry, TimeoutCache, set_max_size, init, new_entry, find, add, timer_handler, expire,
}
use mini_plex.TimeoutCache.Maps.{find-erase, find-put}
use mini_plex.TimeoutCache.Invariant.{
  IsLinked, limited-IsLinked, add-IsLinked, timer_handler-IsLinked, after, expire-timer_handler,
}

-- The timer of the entry is running and expires by the time that the entry counts as idle.
abbrev pub IsTimed : ℕ → Option CacheEntry → Type 0
IsTimed timeout none = Unit
IsTimed timeout (some e) = (e.waiting ≡ true) × (e.expiry ≤ e.access_time + timeout)

module _ {T : Type 0} (dec : Discrete T) where
  abbrev pub AllTimed : TimeoutCache T → Type 0
  AllTimed c = (k : T) → IsTimed c.timeout (find dec k c.cache)

  -- The clock does not run backwards between two accesses of a key.
  abbrev pub IsLater : T → ℕ → TimeoutCache T → Type 0
  IsLater k now c = (e : CacheEntry) → find dec k c.cache ≡ some e → e.access_time ≤ now

  add-AllTimed :
      (k : T) (now : ℕ) (c : TimeoutCache T)
      → IsLater k now c
      → AllTimed c
      → AllTimed (add dec k now c).0
  unfolding add new_entry
  add-AllTimed k now c later v j = elim (Option-cases (find dec k c.cache)) [
    | inl e ↦ ground (arith, v j, find-put dec k j (new_entry now c) c.cache)
    | inr (x, e) ↦
        ground
          (arith, v j, v k, later x e, find-put dec k j (record x { access_time = now }) c.cache)
  ]

  timer_handler-AllTimed :
      (k : T) (err : Bool) (now : ℕ) (c : TimeoutCache T)
      → AllTimed c
      → AllTimed (after dec c (timer_handler dec k err now c))
  unfolding timer_handler
  timer_handler-AllTimed k true now c v j = v j
  timer_handler-AllTimed k false now c v j = elim (Option-cases (find dec k c.cache)) [
    | inl e ↦ ground (arith, v j)
    | inr (x, e) ↦ ground (
      arith,
      v j,
      find-erase dec k j c.cache,
      find-put dec k j (record x { expiry = x.access_time + c.timeout; waiting = true }) c.cache,
    )
  ]

  -- One call: an `Add`, or the end of a wait, whose timer has expired or was cancelled, with the
  -- handler that it runs.
  pub data Step (c : TimeoutCache T) : TimeoutCache T → Type 0 where
    adds : (k : T) (now : ℕ) → IsLater k now c → Step c (add dec k now c).0
    fires :
        (k : T) (now : ℕ) (e : CacheEntry)
        → find dec k c.cache ≡ some e
        → e.waiting ≡ true
        → e.expiry ≤ now
        → Step c (after dec c (expire dec k false now c))
    cancels : (k : T) (now : ℕ) → Step c (after dec c (expire dec k true now c))

  pub data Reach (c : TimeoutCache T) : TimeoutCache T → Type 0 where
    here : Reach c c
    next : {d e : TimeoutCache T} → Reach c d → Step d e → Reach c e

  pub record IsSound (c : TimeoutCache T) : Type 0 where
    pub linked : IsLinked dec c
    pub timed : AllTimed c

  expire-IsSound :
      (k : T) (err : Bool) (now : ℕ) (c : TimeoutCache T)
      → IsSound c
      → IsSound (after dec c (expire dec k err now c))
  expire-IsSound k err now c v = rw (expire-timer_handler dec k err now c) (record {
    linked = timer_handler-IsLinked dec k err now c v.linked;
    timed = timer_handler-AllTimed k err now c v.timed;
  })

  Step-IsSound : {c d : TimeoutCache T} → Step c d → IsSound c → IsSound d
  Step-IsSound {c} (adds k now later) v = record {
    linked = add-IsLinked dec k now c v.linked;
    timed = add-AllTimed k now c later v.timed;
  }
  Step-IsSound {c} (fires k now e h w t) v = expire-IsSound k false now c v
  Step-IsSound {c} (cancels k now) v = expire-IsSound k true now c v

  Reach-IsSound_from : {c d : TimeoutCache T} → IsSound c → Reach c d → IsSound d
  Reach-IsSound_from v here = v
  Reach-IsSound_from v (next r s) = Step-IsSound s (Reach-IsSound_from v r)

  limited-IsSound : (timeout max : ℕ) → IsSound (set_max_size max (init timeout))
  unfolding set_max_size init find
  limited-IsSound timeout max = record {
    linked = limited-IsLinked dec timeout max;
    timed = λ k. tt;
  }

  -- After any calls of `Add` and ends of waits on a new cache with a limit, where the clock does not
  -- run backwards and no timer expires early: entries and nodes correspond, no key is listed
  -- twice, the limit is kept, and every entry has a running timer that expires no later than
  -- `timeout` after the last access.
  pub Reach-IsSound :
      (timeout max : ℕ) {c : TimeoutCache T} → Reach (set_max_size max (init timeout)) c → IsSound c
  Reach-IsSound timeout max r = Reach-IsSound_from (limited-IsSound timeout max) r

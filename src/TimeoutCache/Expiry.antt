-- ===== src/TimeoutCache/Expiry.antt =====
-- src/TimeoutCache.h: a timer that expires, against the list of keys with times of last access.
use mini_plex.Base.{
  ℕ, ◌+◌, ◌≡◌, inl, inr, true, false, none, some, Option, ite, arith, ltb, Option-cases,
  if◌then◌else◌,
}
use mini_plex.TimeoutCache.{CacheEntry, TimeoutCache, find, timer_handler, expire}
use mini_plex.TimeoutCache.Maps.{find-erase, find-put}
use mini_plex.TimeoutCache.Invariant.{IsLinked, after, expire-timer_handler}
use mini_plex.TimeoutCache.Spec.{Ages, age, spec_timer, view, age-view, view_rearmed, view_expired}

abbrev pub timer_of : Option CacheEntry → Option ℕ
timer_of none = none
timer_of (some e) = if e.waiting then some e.expiry else none

module _ {T : Type 0} (dec : Discrete T) where
  -- When the running timer of the key expires.
  abbrev pub timer : T → TimeoutCache T → Option ℕ
  timer k c = timer_of (find dec k c.cache)

  -- When the key is looked at again, after its timer has expired.
  unfoldable pub next_look : ℕ → T → ℕ → Ages T → Option ℕ
  next_look timeout k now s = elim (age dec k s) [
    | none ↦ none
    | some t ↦ if ltb now (t + timeout) then some (t + timeout) else none
  ]

  view-timer_handler :
      (k : T) (now : ℕ) (c : TimeoutCache T)
      → IsLinked dec c
      → elim (timer_handler dec k false now c) [ none ↦ none | some (d, p) ↦ some (view dec d, p) ]
        ≡ spec_timer dec c.timeout k now (view dec c)
  unfolding timer_handler spec_timer
  view-timer_handler k now c v = elim (Option-cases (find dec k c.cache)) [
    | inl e ↦ ground (arith, age-view dec k c v)
    | inr (x, e) ↦ ground (
      arith,
      age-view dec k c v,
      view_rearmed dec k x (x.access_time + c.timeout) c e,
      view_expired dec k x c e v,
    )
  ]

  timer-timer_handler :
      (k : T) (now : ℕ) (c : TimeoutCache T) (j : T)
      → IsLinked dec c
      → timer j (after dec c (timer_handler dec k false now c))
        ≡ ite (dec k j) (next_look c.timeout k now (view dec c)) (timer j c)
  unfolding timer_handler next_look
  timer-timer_handler k now c j v = elim (Option-cases (find dec k c.cache)) [
    | inl e ↦ ground (arith, age-view dec k c v)
    | inr (x, e) ↦ ground (
      arith,
      age-view dec k c v,
      find-erase dec k j c.cache,
      find-put dec k j (record x { expiry = x.access_time + c.timeout; waiting = true }) c.cache,
    )
  ]

  -- On a well-formed cache, when the wait of a key's timer ends with a plain expiry: `TimerHandler`
  -- throws just when the key is not cached; while the key has been idle for less than `timeout`, the
  -- keys and their times stay, and the timer runs again until `timeout` after the last access;
  -- otherwise that key alone is removed, with its timer, and posted. The timers of the other keys
  -- stay as they are.
  pub view-expire :
      (k : T) (now : ℕ) (c : TimeoutCache T)
      → IsLinked dec c
      → (elim (expire dec k false now c) [ none ↦ none | some (d, p) ↦ some (view dec d, p) ]
          ≡ spec_timer dec c.timeout k now (view dec c))
        × ((j : T)
            → timer j (after dec c (expire dec k false now c))
              ≡ ite (dec k j) (next_look c.timeout k now (view dec c)) (timer j c))
  view-expire k now c v =
      rw (expire-timer_handler dec k false now c)
        (view-timer_handler k now c v, λ j. timer-timer_handler k now c j v)

-- ===== src/TimeoutCache/Tests.antt =====
-- src/TimeoutCache.h: runs of a small cache.
use mini_plex.Base.{◌≡◌, refl, false, some, none, Option, ite, [], ◌∷◌, ℕ, ℕ_discrete, arith}
use mini_plex.TimeoutCache.{
  TimeoutCache, AddResult, new_entry, dropped, init, set_max_size, add, find, erase, expire,
}
use mini_plex.TimeoutCache.Invariant.{IsLinked, limited-IsLinked, add-IsLinked, after}
use mini_plex.TimeoutCache.Spec.{Ages, age, touch, view, spec_add, spec_timer, view-add}
use mini_plex.TimeoutCache.Expiry.{timer, next_look, view-expire}
use mini_plex.TimeoutCache.Timers.{Reach, adds, fires, here, next, IsSound, Reach-IsSound}

abbrev new_cache : TimeoutCache ℕ
new_cache = set_max_size 1 (init 10)

-- The key 5, added at time 0 to a cache for one key.
abbrev one_key : TimeoutCache ℕ
one_key = (add ℕ_discrete 5 0 new_cache).0

one_key-IsLinked : IsLinked ℕ_discrete one_key
one_key-IsLinked = add-IsLinked ℕ_discrete 5 0 new_cache (limited-IsLinked ℕ_discrete 10 1)

view-add_example :
    ◌≡◌ {A = Ages ℕ × AddResult}
      (view ℕ_discrete (add ℕ_discrete 6 3 one_key).0, (add ℕ_discrete 6 3 one_key).1)
      ((5, 0) ∷ [], dropped)
unfolding view spec_add add find age set_max_size init new_entry ℕ_discrete
view-add_example = view-add ℕ_discrete 6 3 one_key one_key-IsLinked

-- The key was used at time 4, so at 10 its timer is started again, until 14.
abbrev used : TimeoutCache ℕ
used = (add ℕ_discrete 5 4 one_key).0

used-IsLinked : IsLinked ℕ_discrete used
used-IsLinked = add-IsLinked ℕ_discrete 5 4 one_key one_key-IsLinked

view-expire_example :
    (◌≡◌ {A = Option (Ages ℕ × Option ℕ)}
      (elim (expire ℕ_discrete 5 false 10 used) [
        | none ↦ none
        | some (d, p) ↦ some (view ℕ_discrete d, p)
      ])
      (some ((5, 4) ∷ [], none)))
    × ((j : ℕ)
        → timer ℕ_discrete j (after ℕ_discrete used (expire ℕ_discrete 5 false 10 used))
          ≡ ite (ℕ_discrete 5 j) (some 14) (timer ℕ_discrete j used))
unfolding view spec_timer next_look add find erase age touch set_max_size init new_entry ℕ_discrete
view-expire_example = view-expire ℕ_discrete 5 10 used used-IsLinked

-- The key is added, and its timer fires when it has been idle for the timeout.
expired : TimeoutCache ℕ
expired = after ℕ_discrete one_key (expire ℕ_discrete 5 false 10 one_key)

expired-Reach : Reach ℕ_discrete new_cache expired
unfolding expired add find set_max_size init ℕ_discrete new_entry
expired-Reach =
    next (next here (adds 5 0 (λ e h. ground arith))) (fires 5 10 _ refl refl (omega arith))

Reach-IsSound_example : IsSound ℕ_discrete expired
Reach-IsSound_example = Reach-IsSound ℕ_discrete 10 1 expired-Reach

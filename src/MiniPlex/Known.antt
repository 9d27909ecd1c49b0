-- ===== src/MiniPlex/Known.antt =====
-- What holds of the state in every interleaving of datagrams, timers and posted handlers.
use mini_plex.Base.{
  ℕ, ◌+◌, ◌≤◌, ◌<◌, ◌≡◌, Bool, true, List, [], ◌∷◌, Option, none, some, ite, arith, Option-cases,
  inl, inr,
}
use mini_plex.Base.Sets.{
  count, contains, count-append, count-set_erase, count-set_insert, count-erase_one,
}
use mini_plex.TimeoutCache.{find, expire}
use mini_plex.TimeoutCache.Invariant.{IsLinked, add-IsLinked, timer_handler-IsLinked, handled}
use mini_plex.MiniPlex.{MiniPlex, branches}
use mini_plex.MiniPlex.Process.{branch_timer, run_posted, posting}
use mini_plex.MiniPlex.Counts.{presence, presence-add, presence_before_add, presence-timer_handler}

module _ {E : Type 0} (dec : Discrete E) where
  -- How often the endpoint is an active branch or an inactive fixed one.
  abbrev pub listed : {V : Type 0} → MiniPlex E V → E → ℕ
  listed m ep =
      presence (find dec ep m.active_branches.cache) + count dec ep m.inactive_perma_branches

  pub record IsKnown {V : Type 0} (m : MiniPlex E V) : Type 0 where
    pub active : IsLinked dec m.active_branches
    -- A fixed branch is active, inactive, or its timeout handler is on its way.
    pub known :
        (ep : E) → contains dec m.perma_branches ep ≡ true → 1 ≤ listed m ep + count dec ep m.posted
    pub once : (ep : E) → count dec ep m.inactive_perma_branches ≤ 1
    pub fixed :
        (ep : E)
        → 0 < count dec ep m.inactive_perma_branches
        → contains dec m.perma_branches ep ≡ true

  pub count-posting :
      (p : Option E) (j : E) (q : List E)
      → count dec j (posting p q) ≡ count dec j q + elim p [ none ↦ 0 | some i ↦ ite (dec i j) 1 0 ]
  count-posting none j q = omega arith
  count-posting (some i) j q = omega (arith, count-append dec j q (i ∷ []))

  pub perma-branches :
      {V : Type 0} (ep : E) (now : ℕ) (m : MiniPlex E V)
      → (branches dec ep now m).perma_branches ≡ m.perma_branches
  unfolding branches
  perma-branches ep now m = ground arith

  pub branches-IsKnown :
      {V : Type 0} (ep : E) (now : ℕ) (m : MiniPlex E V)
      → IsKnown m
      → IsKnown (branches dec ep now m)
  unfolding branches
  branches-IsKnown ep now m v =
      let a = m.active_branches in
      let add_linked = add-IsLinked dec ep now a v.active in
      record {
        active = ground (arith, add_linked, v.active);
        known = λ j h. ground (
          arith,
          v.known j,
          presence-add dec ep j now a,
          presence_before_add dec ep now a,
          count-set_erase dec ep j m.inactive_perma_branches,
        );
        once = λ j. ground (arith, v.once j, count-set_erase dec ep j m.inactive_perma_branches);
        fixed =
            λ j h. ground (arith, v.fixed j, count-set_erase dec ep j m.inactive_perma_branches);
      }

  pub branch_timer-IsKnown :
      {V : Type 0} (ep : E) (err : Bool) (now : ℕ) (m n : MiniPlex E V)
      → branch_timer dec ep err now m ≡ some n
      → IsKnown m
      → IsKnown n
  unfolding branch_timer
  branch_timer-IsKnown ep err now m n h v =
      elim (Option-cases (expire dec ep err now m.active_branches)) [
        | inl e ↦ ground arith
        | inr ((c, p), e) ↦ record {
          active = ground (
            arith,
            timer_handler-IsLinked dec ep err now m.active_branches v.active,
            handled dec ep err now m.active_branches c p e,
          );
          known = λ j k. ground (
            arith,
            v.known j,
            presence-timer_handler dec ep j err now m.active_branches c p
                (handled dec ep err now m.active_branches c p e),
            count-posting p j m.posted,
          );
          once = λ j. ground (arith, v.once j);
          fixed = λ j k. ground (arith, v.fixed j);
        }
      ]

  pub run_posted-IsKnown :
      (less : E → E → Bool) {V : Type 0} (ep : E) (m : MiniPlex E V)
      → IsKnown m
      → IsKnown (run_posted dec less ep m)
  unfolding run_posted
  run_posted-IsKnown less ep m v = record {
    active = v.active;
    known = λ j k. ground (
      arith,
      v.known j,
      count-erase_one dec ep j m.posted,
      count-set_insert dec less ep j m.inactive_perma_branches,
    );
    once = λ j. ground (arith, v.once j, count-set_insert dec less ep j m.inactive_perma_branches);
    fixed =
        λ j k. ground (arith, v.fixed j, count-set_insert dec less ep j m.inactive_perma_branches);
  }

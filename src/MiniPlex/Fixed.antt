-- ===== src/MiniPlex/Fixed.antt =====
-- Fixed branches: exactly once while timeout handlers run at once, twice when one is late.
use mini_plex.Base.{
  ℕ, ◌+◌, ◌≤◌, ◌<◌, ◌≡◌, ◌≢◌, inl, inr, Bool, true, false, List, [], ◌∷◌, ◌++◌, none, some, arith,
  length, if◌then◌else◌, Option-cases, Bool-cases,
}
use mini_plex.Base.Sets.{
  count, contains, contains-count, count-set_erase, count-set_insert, count-erase_one_of,
}
use mini_plex.TimeoutCache.{CacheEntry, find, expire}
use mini_plex.TimeoutCache.Invariant.{handled, expire-timer_handler}
use mini_plex.MiniPlex.{MiniPlex, Vm, branches, forward_all, hub}
use mini_plex.MiniPlex.Process.{branch_timer, run_posted, hub_mode, mode_handler, rcv_handler}
use mini_plex.MiniPlex.Counts.{
  targets, copies, presence, presence-add, presence_before_add, presence-timer_handler,
  timer_handler_posts, timer_handler_idle, add_room,
}
use mini_plex.MiniPlex.Known.{
  IsKnown, listed, count-posting, perma-branches, branches-IsKnown, branch_timer-IsKnown,
  run_posted-IsKnown,
}
use mini_plex.MiniPlex.Modes.{count-forward_all}

module _ {E : Type 0} (dec : Discrete E) (less : E → E → Bool) {V : Type 0} where
  -- No timeout handler is late, and no endpoint is listed twice.
  pub record IsPrompt (m : MiniPlex E V) : Type 0 where
    pub sound : IsKnown dec m
    pub none_posted : (ep : E) → count dec ep m.posted ≡ 0
    pub single : (ep : E) → listed dec m ep ≤ 1

  pub branches-IsPrompt :
      (ep : E) (now : ℕ) (m : MiniPlex E V) → IsPrompt m → IsPrompt (branches dec ep now m)
  unfolding branches
  branches-IsPrompt ep now m v = record {
    sound = branches-IsKnown dec ep now m v.sound;
    none_posted = λ j. ground (arith, v.none_posted j);
    single = λ j. ground (
      arith,
      v.single j,
      presence-add dec ep j now m.active_branches,
      presence_before_add dec ep now m.active_branches,
      count-set_erase dec ep j m.inactive_perma_branches,
    );
  }

  -- In Hub mode, while no timeout handler is late, a datagram goes exactly once to every fixed
  -- branch but its sender.
  pub hub_once :
      (vm : Vm V) (bytes : List ℕ) (sender ep : E) (now : ℕ) (m : MiniPlex E V)
      → IsPrompt m
      → contains dec m.perma_branches ep ≡ true
      → ep ≢ sender
      → copies dec ep (rcv_handler dec vm hub_mode false bytes sender now m).1 ≡ 1
  unfolding rcv_handler mode_handler hub
  hub_once vm bytes sender ep now m v fixed other =
      let n = branches dec sender now m in
      let w : IsPrompt n = branches-IsPrompt sender now m v in
      ground (
        arith,
        w.single ep,
        w.none_posted ep,
        w.sound.known ep,
        perma-branches dec sender now m,
        count-forward_all dec ep sender bytes n w.sound,
      )

  listed_added :
      (ep : E) (now : ℕ) (m : MiniPlex E V)
      → find dec ep m.active_branches.cache ≡ none
      → length m.active_branches.key_sequence < m.active_branches.max_size
      → ep ≢ m.trunk
      → (presence (find dec ep (branches dec ep now m).active_branches.cache) ≡ 1)
        × (count dec ep (branches dec ep now m).inactive_perma_branches ≡ 0)
  unfolding branches
  listed_added ep now m gone room t = ground (
    arith,
    add_room dec ep now m.active_branches gone room,
    presence-add dec ep ep now m.active_branches,
    count-set_erase dec ep ep m.inactive_perma_branches,
  )

  listed-run_posted :
      (ep : E) (m : MiniPlex E V)
      → contains dec m.perma_branches ep ≡ true
      → count dec ep m.inactive_perma_branches ≡ 0
      → listed dec (run_posted dec less ep m) ep
        ≡ presence (find dec ep m.active_branches.cache) + 1
  unfolding run_posted
  listed-run_posted ep m fixed away =
      ground (arith, count-set_insert dec less ep ep m.inactive_perma_branches)

  -- A fixed branch that is not active: its next datagram, then its timeout handler.
  twice :
      (ep sender : E) (bytes : List ℕ) (now : ℕ) (m : MiniPlex E V)
      → IsKnown dec m
      → contains dec m.perma_branches ep ≡ true
      → ep ≢ m.trunk
      → ep ≢ sender
      → find dec ep m.active_branches.cache ≡ none
      → length m.active_branches.key_sequence < m.active_branches.max_size
      → count dec ep
          (targets (forward_all dec bytes sender (run_posted dec less ep (branches dec ep now m))))
        ≡ 2
  twice ep sender bytes now m v fixed t s gone room =
      let n = branches dec ep now m in
      let w = branches-IsKnown dec ep now m v in
      ground (
        arith,
        count-forward_all dec ep sender bytes (run_posted dec less ep n)
            (run_posted-IsKnown dec less ep n w),
        listed_added ep now m gone room t,
        listed-run_posted ep n,
        perma-branches dec ep now m,
      )

  -- A branch expires and the pool runs its timeout handler before anything else happens.
  pub expire_at_once-IsPrompt :
      (ep : E) (now : ℕ) (m n : MiniPlex E V)
      → branch_timer dec ep false now m ≡ some n
      → IsPrompt m
      → IsPrompt (if contains dec n.posted ep then run_posted dec less ep n else n)
  unfolding branch_timer run_posted
  expire_at_once-IsPrompt ep now m n h v =
      elim (Option-cases (expire dec ep false now m.active_branches)) [
        | inl e ↦ ground arith
        | inr ((c, p), e) ↦
            let h₁ = handled dec ep false now m.active_branches c p e in
            let w = branch_timer-IsKnown dec ep false now m n (unfold branch_timer in h) v.sound in
            elim (Bool-cases (contains dec n.posted ep)) [
              | inl late ↦ rw late (record {
                sound = run_posted-IsKnown dec less ep n w;
                none_posted = λ j. ground (
                  arith,
                  timer_handler_posts dec ep false now m.active_branches c p h₁,
                  v.none_posted j,
                  count-posting dec p j m.posted,
                  count-erase_one_of dec ep j n.posted late,
                );
                single = λ j. ground (
                  arith,
                  timer_handler_posts dec ep false now m.active_branches c p h₁,
                  v.single j,
                  v.none_posted ep,
                  presence-timer_handler dec ep j false now m.active_branches c p h₁,
                  contains-count dec ep n.posted,
                  count-set_insert dec less ep j n.inactive_perma_branches,
                );
              })
              | inr idle ↦ rw idle (record {
                sound = w;
                none_posted = λ j. ground (
                  arith,
                  timer_handler_posts dec ep false now m.active_branches c p h₁,
                  v.none_posted j,
                  count-posting dec p j m.posted,
                  contains-count dec ep n.posted,
                );
                single = λ j. ground (
                  arith,
                  v.single j,
                  presence-timer_handler dec ep j false now m.active_branches c p h₁,
                );
              })
            ]
      ]

  -- When a fixed branch that has been idle for the timeout expires, and its next datagram is handled
  -- before its timeout handler runs, then in the state that the late handler leaves, forwarding a
  -- datagram of another endpoint to all branches, as Hub does, sends it to that branch twice.
  pub late_handler_duplicates :
      (ep sender : E) (bytes : List ℕ) (t₁ t₂ : ℕ) (m : MiniPlex E V) (e : CacheEntry)
      → IsKnown dec m
      → contains dec m.perma_branches ep ≡ true
      → ep ≢ m.trunk
      → ep ≢ sender
      → find dec ep m.active_branches.cache ≡ some e
      → e.access_time + m.active_branches.timeout ≤ t₁
      → (m₁ : MiniPlex E V) × (branch_timer dec ep false t₁ m ≡ some m₁)
        × (count dec ep (
              targets
                (forward_all dec bytes sender (run_posted dec less ep (branches dec ep t₂ m₁))))
            ≡ 2)
  unfolding branch_timer
  late_handler_duplicates ep sender bytes t₁ t₂ m e v fixed t s h idle =
      let (d, fires, gone, room) =
        timer_handler_idle dec ep t₁ m.active_branches e v.active h idle in
      let m₁ : MiniPlex E V = record m { active_branches = d; posted = m.posted ++ ep ∷ [] } in
      let ran : branch_timer dec ep false t₁ m ≡ some m₁ =
        ground (arith, expire-timer_handler dec ep false t₁ m.active_branches) in
      let w₁ : IsKnown dec m₁ = branch_timer-IsKnown dec ep false t₁ m m₁ ran v in
      (m₁, ran, twice ep sender bytes t₂ m₁ w₁ fixed t s gone room)

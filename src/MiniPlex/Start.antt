-- ===== src/MiniPlex/Start.antt =====
-- The constructor's state, and what holds of every state that handlers lead to from it.
use Prim.Native.String.{String}
use mini_plex.Base.{ℕ, ◌≤◌, ◌≡◌, Bool, [], Option, none, some, arith, ◌-◌, ◌^◌, ◌==◌, if◌then◌else◌}
use mini_plex.Base.Sets.{count, contains-count}
use mini_plex.TimeoutCache.{find, init, set_max_size}
use mini_plex.TimeoutCache.Invariant.{limited-IsLinked}
use mini_plex.MiniPlex.{MiniPlex, Vm}
use mini_plex.MiniPlex.Process.{Args, Udp, Mode, load_branches, open_socket, construct}
use mini_plex.MiniPlex.Fixed.{IsPrompt}
use mini_plex.MiniPlex.Switched.{no_addresses-AddrsOk}
use mini_plex.MiniPlex.Runs.{Inv, Reach, Reach-Inv, load_branches_once}

module _ {E : Type 0} (dec : Discrete E) (less : E → E → Bool) {V : Type 0} where
  record IsFresh (m : MiniPlex E V) : Type 0 where
    posted : m.posted ≡ []
    addresses : m.addr_branches ≡ []
    inactive : m.inactive_perma_branches ≡ m.perma_branches
    active : (max : ℕ) × (m.active_branches ≡ set_max_size max (init m.cache_timeout))

  construct-IsFresh :
      (udp : Udp E) (endpoint : String → ℕ → Option E) (unspecified : E)
      (program_load : String → Option V) (v : V) (a : Args) (m : MiniPlex E V) (mode : Mode)
      → construct dec less udp endpoint unspecified program_load v a ≡ some (m, mode)
      → IsFresh m
        × (load_branches dec less endpoint a.branch_ports 0 a.branch_addrs []
            ≡ some m.perma_branches)
  unfolding construct open_socket init set_max_size
  construct-IsFresh udp endpoint unspecified program_load v a m mode h = (
    record {
      posted = ground arith;
      addresses = ground arith;
      inactive = ground arith;
      active = (if a.max_branch_cache == 0 then 2 ^ 64 - 1 else a.max_branch_cache, ground arith);
    },
    ground arith,
  )

  absent :
      (max : ℕ) (ep : E) (m : MiniPlex E V)
      → m.active_branches ≡ set_max_size max (init m.cache_timeout)
      → find dec ep m.active_branches.cache ≡ none
  unfolding find init set_max_size
  absent max ep m e = ground arith

  fresh-IsPrompt :
      (m : MiniPlex E V)
      → IsFresh m
      → ((ep : E) → count dec ep m.perma_branches ≤ 1)
      → IsPrompt dec less m
  fresh-IsPrompt m f once =
      let (max, e) = f.active in
      record {
        sound = record {
          active = rw e (limited-IsLinked dec m.cache_timeout max);
          known = λ ep h. ground (arith, f.inactive, contains-count dec ep m.perma_branches);
          once = λ ep. ground (arith, f.inactive, once ep);
          fixed = λ ep h. ground (arith, f.inactive, contains-count dec ep m.perma_branches);
        };
        none_posted = λ ep. ground (arith, f.posted);
        single = λ ep. ground (arith, f.inactive, once ep, absent max ep m e);
      }

  -- The constructor, if it throws nothing, leaves every fixed branch listed exactly once and no
  -- address with a branch; and from there, whatever datagrams arrive and in whatever order timers
  -- and timeout handlers run, the caches stay well-formed and every fixed branch is active,
  -- inactive, or has its timeout handler on the way.
  pub construct-runs :
      (udp : Udp E) (endpoint : String → ℕ → Option E) (unspecified : E)
      (program_load : String → Option V) (v : V) (a : Args) (m : MiniPlex E V) (mode : Mode)
      (vm : Vm V) (n : MiniPlex E V)
      → construct dec less udp endpoint unspecified program_load v a ≡ some (m, mode)
      → Reach dec less vm m n
      → IsPrompt dec less m × (m.addr_branches ≡ []) × Inv dec less n
  construct-runs udp endpoint unspecified program_load v a m mode vm n h r =
      let (f, l) = construct-IsFresh udp endpoint unspecified program_load v a m mode h in
      let p = fresh-IsPrompt m f (λ ep.
        load_branches_once dec less endpoint a.branch_ports 0 a.branch_addrs [] m.perma_branches ep
          l (omega arith)) in
      (
        p,
        f.addresses,
        Reach-Inv dec less
            (record { known = p.sound; addrs = no_addresses-AddrsOk dec m f.addresses }) r,
      )

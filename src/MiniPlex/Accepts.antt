-- ===== src/MiniPlex/Accepts.antt =====
-- src/CmdArgs.h and src/MiniPlex.cpp: a command line that passes the checks constructs the object.
use Prim.Native.String.{String}
use text.Mathlib.Text as Text
use mini_plex.Base.{
  ℕ, zero, suc, ◌+◌, ◌<◌, ◌≡◌, ◌≢◌, refl, inl, inr, Bool, true, not, ◌&&◌, ◌||◌, List, [], ◌∷◌,
  Option, none, some, ◌==◌, get_elem?, length, has_value, ◌>>=◌, arith, Bool-cases, Option-cases,
}
use mini_plex.Base.Sets.{set_insert}
use mini_plex.MiniPlex.Process.{Args, Udp, mode_of, load_branches, open_socket, construct}

-- The loop over `BranchAddrs`.
unfoldable pub all_parse : (String → Bool) → List String → Bool
all_parse parses [] = true
all_parse parses (a ∷ addrs) = let rest = all_parse parses addrs in parses a && rest

-- The checks of `CmdArgs` after parsing: whether none of them throws. `parses` is whether
-- `from_string` reports no error.
unfoldable pub check_args : (String → Bool) → Args → Bool
unfolding all_parse
check_args parses a =
    let to_trunk = a.prune || a.trunk in
    not (to_trunk && (Text.◌==◌ a.trunk_addr "" || a.trunk_port == 0))
    && parses a.local_addr
    && not (to_trunk && not (parses a.trunk_addr))
    && all_parse parses a.branch_addrs
    && (length a.branch_addrs == length a.branch_ports)

-- The socket can be opened at the local address, and takes the size of its buffer.
abbrev pub opens : {E : Type 0} → Udp E → (String → ℕ → Option E) → Args → Bool
opens udp endpoint a =
    has_value (endpoint a.local_addr a.local_port >>= open_socket udp a.so_rcv_buf)

-- The constructor loads the byte code.
abbrev pub needs_code : Args → Bool
needs_code a = a.switch && not (a.hub || a.trunk || a.prune)

some_of : {A : Type 0} (o : Option A) → o ≢ none → (a : A) × (o ≡ some a)
some_of none h = absurd (h refl)
some_of (some a) h = (a, refl)

get_elem?-within : (xs : List ℕ) (i : ℕ) → i < length xs → get_elem? xs i ≢ none
get_elem?-within [] i h = ground arith
get_elem?-within (x ∷ xs) zero h = ground arith
get_elem?-within (x ∷ xs) (suc i) h = get_elem?-within xs i (omega arith)

module _ {E : Type 0} (dec : Discrete E) (less : E → E → Bool) where
  -- `from_string` throws only on what it reports as an error.
  abbrev pub AgreesOnErrors : (String → Bool) → (String → ℕ → Option E) → Type 0
  AgreesOnErrors parses endpoint =
      (addr : String) (port : ℕ) → parses addr ≡ true → endpoint addr port ≢ none

  load_branches-total :
      (parses : String → Bool) (endpoint : String → ℕ → Option E) (ports : List ℕ) (i : ℕ)
      (addrs : List String) (s : List E)
      → AgreesOnErrors parses endpoint
      → all_parse parses addrs ≡ true
      → i + length addrs ≡ length ports
      → load_branches dec less endpoint ports i addrs s ≢ none
  unfolding load_branches all_parse
  load_branches-total parses endpoint ports i [] s law p l = ground arith
  load_branches-total parses endpoint ports i (a ∷ addrs) s law p l =
      elim (Option-cases (get_elem? ports i)) [
        | inl e ↦ absurd (get_elem?-within ports i (omega (arith, l)) e)
        | inr (port, e) ↦ elim (Option-cases (endpoint a port)) [
          | inl f ↦ absurd (law a port (ground arith) f)
          | inr (b, f) ↦
              rw (e, f, load_branches)
                (load_branches-total parses endpoint ports (suc i) addrs (set_insert dec less b s)
                  law (ground arith) (omega (arith, l)))
        ]
      ]

  -- With one of the four modes, and when the checks of `CmdArgs` pass: the constructor makes the
  -- object exactly when the socket opens and the byte code that it needs can be loaded. No address
  -- fails to parse, and no branch lacks its port.
  pub construct-total :
      {V : Type 0} (udp : Udp E) (parses : String → Bool) (endpoint : String → ℕ → Option E)
      (unspecified : E) (program_load : String → Option V) (v : V) (a : Args)
      → AgreesOnErrors parses endpoint
      → (a.hub || a.trunk || a.prune || a.switch) ≡ true
      → check_args parses a ≡ true
      → has_value (construct dec less udp endpoint unspecified program_load v a) ≡ (
          opens udp endpoint a && (not (needs_code a) || has_value (program_load a.byte_code_file)))
  unfolding construct open_socket check_args mode_of
  construct-total udp parses endpoint unspecified program_load v a law one ok =
      let branches =
        load_branches-total parses endpoint a.branch_ports 0 a.branch_addrs [] law (ground arith)
          (ground arith) in
      let local = law a.local_addr a.local_port (ground arith) in
      let (ep, here) = some_of _ local in
      let (bs, listed) = some_of _ branches in
      elim (Bool-cases (a.trunk || a.prune)) [
        | inl t ↦
            let (far, there) = some_of _ (law a.trunk_addr a.trunk_port (ground arith)) in
            ground arith
        | inr t ↦ ground arith
      ]

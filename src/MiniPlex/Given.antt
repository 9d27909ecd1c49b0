-- ===== src/MiniPlex/Given.antt =====
-- src/CmdArgs.h: the options of the command line and their defaults. The text of the command line is
-- parsed by the library of options: a value is given here in its type, or not at all.
mod Tests
use Prim.Native.String.{String}
use mini_plex.Base.{
  ℕ, ◌+◌, ◌*◌, ◌≡◌, ◌≢◌, refl, ap, inl, inr, Bool, true, not, ◌&&◌, ◌||◌, has_value, List, Option,
  none, some, ◌==◌, ◌>>=◌, value_or, if◌then◌else◌, Bool-cases, Option-cases, arith,
}
use mini_plex.MiniPlex.Process.{
  Args, Udp, Mode, hub_mode, trunk_mode, prune_mode, switch_mode, mode_of, construct,
}
use mini_plex.MiniPlex.Accepts.{AgreesOnErrors, check_args, needs_code, opens, construct-total}

-- What the command line gives.
pub record Given : Type 0 where
  pub hub : Bool
  pub trunk : Bool
  pub prune : Bool
  pub switch : Bool
  pub local_addr : Option String
  pub local_port : Option ℕ
  pub so_rcv_buf : Option ℕ
  pub max_process_q : Option ℕ
  pub cache_timeout : Option ℕ
  pub max_branch_cache : Option ℕ
  pub max_switch_cache : Option ℕ
  pub trunk_addr : Option String
  pub trunk_port : Option ℕ
  pub branch_addrs : List String
  pub branch_ports : List ℕ
  pub byte_code_file : Option String
  pub console_level : Option String
  pub file_level : Option String
  pub log_file : Option String
  pub log_size : Option ℕ
  pub log_num : Option ℕ
  pub concurrency_hint : Option ℕ
  pub benchmark : Bool
  pub bench_duration : Option ℕ

-- The values of the options: those that the constructor of `MiniPlex` reads, and the others.
pub record CmdArgs : Type 0 where
  pub args : Args
  pub max_process_q : ℕ
  pub console_level : String
  pub file_level : String
  pub log_file : String
  pub log_size : ℕ
  pub log_num : ℕ
  pub concurrency_hint : ℕ
  pub benchmark : Bool
  pub bench_duration : ℕ

-- How many of the options that exclude each other are given.
abbrev pub modes_given : Given → ℕ
modes_given g =
    (if g.hub then 1 else 0)
    + (if g.trunk then 1 else 0)
    + (if g.prune then 1 else 0)
    + (if g.switch then 1 else 0)

-- The options with their defaults, for a port.
abbrev pub options : ℕ → ℕ → Given → CmdArgs
options hardware_concurrency local_port g = record {
  args = record {
    hub = g.hub;
    trunk = g.trunk;
    prune = g.prune;
    switch = g.switch;
    local_addr = value_or "0.0.0.0" g.local_addr;
    local_port = local_port;
    so_rcv_buf = value_or (512 * 1024) g.so_rcv_buf;
    cache_timeout = value_or 10000 g.cache_timeout;
    max_branch_cache = value_or 0 g.max_branch_cache;
    max_switch_cache = value_or 0 g.max_switch_cache;
    trunk_addr = value_or "" g.trunk_addr;
    trunk_port = value_or 0 g.trunk_port;
    branch_addrs = g.branch_addrs;
    branch_ports = g.branch_ports;
    byte_code_file = value_or "switch.bin" g.byte_code_file;
  };
  max_process_q = value_or 1024 g.max_process_q;
  console_level = value_or "critical" g.console_level;
  file_level = value_or "error" g.file_level;
  log_file = value_or "MiniPlex.log" g.log_file;
  log_size = value_or 5000 g.log_size;
  log_num = value_or 3 g.log_num;
  concurrency_hint = value_or hardware_concurrency g.concurrency_hint;
  benchmark = g.benchmark;
  bench_duration = value_or 10000 g.bench_duration;
}

-- All of them: `xorAdd` wants one mode, and the port has no default.
unfoldable pub parsed : ℕ → Given → Option CmdArgs
parsed hardware_concurrency g = do
  local_port ← g.local_port
  if modes_given g == 1 then some (options hardware_concurrency local_port g) else none

abbrev pub is_given : Mode → Given → Bool
is_given hub_mode g = g.hub
is_given trunk_mode g = g.trunk
is_given prune_mode g = g.prune
is_given switch_mode g = g.switch

parsed-mode_of :
    (hardware_concurrency : ℕ) (g : Given) (c : CmdArgs)
    → parsed hardware_concurrency g ≡ some c
    → (m : Mode) → is_given m g ≡ true
    → mode_of c.args ≡ some m
unfolding parsed mode_of
parsed-mode_of n g c e hub_mode h = elim (Option-cases g.local_port) [
  | inl p ↦ ground arith
  | inr (port, p) ↦ ground arith
]
parsed-mode_of n g c e trunk_mode h = elim (Option-cases g.local_port) [
  | inl p ↦ ground arith
  | inr (port, p) ↦ ground arith
]
parsed-mode_of n g c e prune_mode h = elim (Option-cases g.local_port) [
  | inl p ↦ ground arith
  | inr (port, p) ↦ ground arith
]
parsed-mode_of n g c e switch_mode h = elim (Option-cases g.local_port) [
  | inl p ↦ ground arith
  | inr (port, p) ↦ ground arith
]

parsed-one :
    (hardware_concurrency : ℕ) (g : Given) (c : CmdArgs)
    → parsed hardware_concurrency g ≡ some c
    → (c.args.hub || c.args.trunk || c.args.prune || c.args.switch) ≡ true
unfolding parsed
parsed-one n g c e = elim (Option-cases g.local_port) [
  | inl p ↦ ground arith
  | inr (port, p) ↦ ground arith
]

parsed-needs_code :
    (hardware_concurrency : ℕ) (g : Given) (c : CmdArgs)
    → parsed hardware_concurrency g ≡ some c
    → needs_code c.args ≡ c.args.switch
unfolding parsed
parsed-needs_code n g c e = elim (Option-cases g.local_port) [
  | inl p ↦ ground arith
  | inr (port, p) ↦ ground arith
]

module _ {E : Type 0} (dec : Discrete E) (less : E → E → Bool) where
  pub parsed-constructs :
      {V : Type 0} (udp : Udp E) (parses : String → Bool) (endpoint : String → ℕ → Option E)
      (unspecified : E) (program_load : String → Option V) (v : V) (hardware_concurrency : ℕ)
      (g : Given) (c : CmdArgs)
      → AgreesOnErrors dec less parses endpoint
      → parsed hardware_concurrency g ≡ some c
      → check_args parses c.args ≡ true
      → (has_value (construct dec less udp endpoint unspecified program_load v c.args) ≡ (
          opens udp endpoint c.args
          && (not c.args.switch || has_value (program_load c.args.byte_code_file))))
        × ((m : Mode) → is_given m g ≡ true → mode_of c.args ≡ some m)
  parsed-constructs udp parses endpoint unspecified program_load v n g c law e ok = (
    rw (parsed-needs_code n g c e) at (
        construct-total dec less udp parses endpoint unspecified program_load v c.args law
          (parsed-one n g c e) ok),
    parsed-mode_of n g c e,
  )

-- ===== src/MiniPlex/Given/Tests.antt =====
-- src/CmdArgs.h: a command line.
use mini_plex.Base.{ℕ, true, false, not, ◌==◌, [], ◌∷◌, none, some, ltb}
use mini_plex.MiniPlex.Process.{Udp}
use mini_plex.MiniPlex.Given.{Given, CmdArgs, options}

-- Trunk mode with one fixed branch.
abbrev given : Given
given = record {
  hub = false;
  trunk = true;
  prune = false;
  switch = false;
  local_addr = none;
  local_port = some 4000;
  so_rcv_buf = none;
  max_process_q = none;
  cache_timeout = none;
  max_branch_cache = none;
  max_switch_cache = none;
  trunk_addr = some "10.0.0.1";
  trunk_port = some 4001;
  branch_addrs = "10.0.0.2" ∷ [];
  branch_ports = 4002 ∷ [];
  byte_code_file = none;
  console_level = none;
  file_level = none;
  log_file = none;
  log_size = none;
  log_num = none;
  concurrency_hint = none;
  benchmark = false;
  bench_duration = none;
}

abbrev values : CmdArgs
values = options 8 4000 given

-- A socket that cannot be opened at the port 53.
abbrev udp : Udp ℕ
udp = record { binds = λ ep. not (ep == 53); sets_receive_buffer_size = λ size. ltb 0 size }

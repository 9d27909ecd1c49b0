-- ===== src/Programs/Tests.antt =====
-- src/main.cpp and src/LogSetup.cpp: a start of MiniPlex.
use Prim.Native.String.{String}
use text.Mathlib.Text as Text
use mini_plex.Base.{
  ℕ, ◌≡◌, refl, true, false, List, [], none, some, ltb, ℕ_discrete, if◌then◌else◌, arith,
}
use mini_plex.MiniPlex.{MiniPlex}
use mini_plex.MiniPlex.Given.{Given, CmdArgs, options, parsed}
use mini_plex.MiniPlex.Process.{Mode, Udp, construct}
use mini_plex.Programs.{Spdlog, Ran, finished, Outcome, setup_logs, mini_plex_main, proto_conv_main}
use mini_plex.ProtoConv.Args
use mini_plex.ProtoConv.Construct as Construct
use mini_plex.ProtoConv.Construct.Streams as Streams
use mini_plex.Programs.Log.{is_set_up, WritesAll, setup_logs-WritesAll}
use mini_plex.Programs.Exit.{
  Ends, accepts, constructs, mini_plex_main-accepts, proto_accepts, proto_conv_main-accepts,
}

abbrev level_of : String → ℕ
level_of name =
    if Text.◌==◌ name "trace"
    then 0
    else if Text.◌==◌ name "error"
    then 4
    else if Text.◌==◌ name "critical"
    then 5
    else 6

abbrev lib : Spdlog
lib = record { from_str = level_of; off = 6; err = 4; rotates = λ file size num. ltb 0 size }

-- An unknown level is refused, and "off" is not.
unknown_level : is_set_up (setup_logs lib "MiniPlex" "loud" "off" "log" 1 1) ≡ false
unfolding setup_logs
unknown_level = refl

trace_and_off :
    (is_set_up (setup_logs lib "MiniPlex" "trace" "off" "log" 1 1) ≡ true)
    × WritesAll 0 6 (setup_logs lib "MiniPlex" "trace" "off" "log" 1 1)
trace_and_off = setup_logs-WritesAll lib "MiniPlex" "trace" "off" "log" 1 1

-- Hub mode, and nothing else than the port.
abbrev given : Given
given = record {
  hub = true;
  trunk = false;
  prune = false;
  switch = false;
  local_addr = none;
  local_port = some 4000;
  so_rcv_buf = none;
  max_process_q = none;
  cache_timeout = none;
  max_branch_cache = none;
  max_switch_cache = none;
  trunk_addr = none;
  trunk_port = none;
  branch_addrs = [];
  branch_ports = [];
  byte_code_file = none;
  console_level = none;
  file_level = none;
  log_file = none;
  log_size = none;
  log_num = none;
  concurrency_hint = none;
  benchmark = false;
  bench_duration = none;
}

abbrev values : CmdArgs
values = options 8 4000 given

abbrev ran : MiniPlex ℕ (List ℕ) × Mode → Ran
ran o = finished

abbrev udp : Udp ℕ
udp = record { binds = λ ep. true; sets_receive_buffer_size = λ size. true }

abbrev outcome : Outcome
outcome =
    mini_plex_main ℕ_discrete ltb lib (λ a. true) udp (λ a port. some port) 0 (λ file. none) [] ran
      (parsed 8 given)

mini_plex_main-accepts_example :
    Ends ran 8
      (accepts lib (λ a. true) values)
      (constructs {V = List ℕ} udp (λ a port. some port) (λ file. none) values)
      (construct ℕ_discrete ltb udp (λ a port. some port) 0 (λ file. none) [] values.args)
      outcome
unfolding parsed
mini_plex_main-accepts_example =
    mini_plex_main-accepts ℕ_discrete ltb lib (λ a. true) udp (λ a port. some port) 0 (λ file. none)
      [] ran 8 given values (λ a port e h. ground arith) refl

-- ProtoConv with a delimiter and a TCP stream.
abbrev converter : Args.Args
converter = record {
  local_addr = "0.0.0.0";
  local_port = 4000;
  remote_addr = "10.0.0.1";
  remote_port = 4001;
  so_rcv_buf = 524288;
  max_write_q_sz = 3;
  delim = 9;
  seq_max_q = 100;
  seq_max_tms = 5000;
  tcp_addr = "10.0.0.2";
  tcp_is_client = true;
  tcp_connect_backoff_times = "125 30000 5000";
  tcp_port = 20000;
  serial_devices = [];
  serial_baud_rates = [];
  serial_flow_controls = [];
  serial_char_sizes = [];
  serial_stop_bits = [];
  frame_protocol = "DNP3";
  console_level = "critical";
  file_level = "error";
  log_file = "ProtoConv.log";
  log_size = 5000;
  log_num = 3;
  concurrency_hint = 8;
  frame_protocol_is_set = false;
}

-- Nothing outside fails; an endpoint is its port.
abbrev outside : Construct.Outside ℕ
outside = record {
  endpoint = λ addr port. some port;
  binds = λ ep. ltb 1023 ep;
  sets_receive_buffer_size = λ size. true;
  connects = λ ep. true;
  backoff_times = λ times. some (125, 30000, 5000);
  opens = λ dev. true;
  accepts_char_size = λ size. true;
  refuses = λ i x. false;
}

abbrev stopped : Construct.ProtoConv ℕ → Ran
stopped p = finished

proto_conv_main-accepts_example :
    Ends stopped 8
      (proto_accepts lib (λ a. true) converter)
      (Streams.constructs outside converter)
      (Construct.construct outside 0 converter)
      (proto_conv_main lib (λ a. true) outside 0 stopped (some converter))
proto_conv_main-accepts_example =
    proto_conv_main-accepts lib (λ a. true) outside 0 stopped converter (λ i x. refl)

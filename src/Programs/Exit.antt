-- ===== src/Programs/Exit.antt =====
-- src/main.cpp and src/ProtoConv/main.cpp: the exit code, and where an exception is reported.
use Prim.Native.String.{String}
use mini_plex.Base.{
  ℕ, zero, suc, ◌≡◌, refl, inl, inr, Bool, true, false, not, ◌&&◌, ◌||◌, ◌⊎◌, has_value, ◌*◌, ◌%◌,
  ◌^◌, Option, none, some, Bool-cases, arith,
}
use mini_plex.MiniPlex.{MiniPlex}
use mini_plex.MiniPlex.Accepts.{AgreesOnErrors, check_args, opens}
use mini_plex.MiniPlex.Given.{Given, CmdArgs, parsed, parsed-constructs}
use mini_plex.MiniPlex.Process.{Mode, Udp, construct}
use mini_plex.Programs.{
  Spdlog, Logger, SetupError, mini_plex_logs, Ran, finished, throws_in_main, throws_in_pool,
  Outcome, returns, terminates, no_report, in_log, on_stderr, after_run, run_object, run_logged,
  mini_plex_main, proto_conv_main, proto_conv_logs,
}
use mini_plex.ProtoConv.Args
use mini_plex.ProtoConv.Construct as Construct
use mini_plex.ProtoConv.Construct.Streams as Streams
use mini_plex.ProtoConv.Serial.Opening.{Setting}
use mini_plex.Programs.Log.{is_known, is_set_up, setup_logs-WritesAll}

-- The checks of the command line and of the logs.
abbrev pub accepts : Spdlog → (String → Bool) → CmdArgs → Bool
accepts lib parses c =
    check_args parses c.args
    && is_known lib c.file_level
    && is_known lib c.console_level
    && lib.rotates c.log_file (c.log_size * 1024 % 2 ^ 64) c.log_num

-- How a run of the context ends the program, for so many threads in the pool.
unfoldable pub IsEnd : ℕ → Ran → Outcome → Type 0
IsEnd threads finished r = r ≡ returns 0 no_report
IsEnd zero throws_in_main r = r ≡ returns 1 in_log
IsEnd (suc threads) throws_in_main r = r ≡ terminates
IsEnd threads throws_in_pool r = r ≡ terminates

-- How a program ends that checks its options, makes an object and runs it: for whether the checks
-- pass, and whether the object can be made.
unfoldable pub Ends : {O : Type 0} → (O → Ran) → ℕ → Bool → Bool → Option O → Outcome → Type 0
unfolding IsEnd
Ends ran threads false ready made r = r ≡ returns 1 on_stderr
Ends ran threads true false made r = r ≡ returns 1 in_log
Ends {O} ran threads true true made r = (o : O) × (made ≡ some o) × IsEnd threads (ran o) r

after_run-IsEnd : (threads : ℕ) (r : Ran) → IsEnd threads r (after_run threads r)
unfolding IsEnd after_run
after_run-IsEnd threads finished = refl
after_run-IsEnd zero throws_in_main = refl
after_run-IsEnd (suc threads) throws_in_main = ground arith
after_run-IsEnd threads throws_in_pool = refl

run_logged-Ends :
    {O : Type 0} (ran : O → Ran) (threads : ℕ) (ready : Bool) (made : Option O)
    (logs : SetupError ⊎ Logger)
    → has_value made ≡ ready
    → Ends ran threads (is_set_up logs) ready made (run_logged ran threads made logs)
unfolding Ends run_logged run_object
run_logged-Ends ran threads ready made (inl e) h = refl
run_logged-Ends ran threads true none (inr log) h = ground arith
run_logged-Ends ran threads false none (inr log) h = refl
run_logged-Ends ran threads true (some o) (inr log) h = (o, refl, after_run-IsEnd threads (ran o))
run_logged-Ends ran threads false (some o) (inr log) h = ground arith

-- What the constructor of MiniPlex needs for a command line with one mode that passes the checks.
abbrev pub constructs :
    {E V : Type 0} → Udp E → (String → ℕ → Option E) → (String → Option V) → CmdArgs → Bool
constructs udp endpoint load c =
    opens udp endpoint c.args && (not c.args.switch || has_value (load c.args.byte_code_file))

module _ {E : Type 0} (dec : Discrete E) (less : E → E → Bool) where
  -- `main` of MiniPlex for a command line that parses, where `from_string` throws only on an address
  -- that it reports as an error. If a check of the command line or of the logs
  -- fails, it reports this on stderr and returns 1. If they pass, but the socket cannot be opened at
  -- the local address or refuses the size of its buffer, or in Switch mode the byte code cannot be
  -- loaded, it reports this in the log and returns 1. Otherwise the object is made, and it returns 0
  -- if the context runs to its end; but an exception while there are threads in the pool ends the
  -- program in `std::terminate`, without a report. Only without such threads is it reported in the
  -- log.
  pub mini_plex_main-accepts :
      {V : Type 0} (lib : Spdlog) (parses : String → Bool) (udp : Udp E)
      (endpoint : String → ℕ → Option E) (unspecified : E) (load : String → Option V) (v : V)
      (ran : MiniPlex E V × Mode → Ran) (hardware_concurrency : ℕ) (g : Given) (c : CmdArgs)
      → AgreesOnErrors dec less parses endpoint
      → parsed hardware_concurrency g ≡ some c
      → Ends ran c.concurrency_hint
          (accepts lib parses c)
          (constructs udp endpoint load c)
          (construct dec less udp endpoint unspecified load v c.args)
          (mini_plex_main dec less lib parses udp endpoint unspecified load v ran
            (parsed hardware_concurrency g))
  unfolding mini_plex_main mini_plex_logs Ends
  mini_plex_main-accepts lib parses udp endpoint unspecified load v ran n g c law p =
      let made = construct dec less udp endpoint unspecified load v c.args in
      let logs =
        setup_logs-WritesAll lib "MiniPlex" c.file_level c.console_level c.log_file c.log_size
          c.log_num in
      elim (Bool-cases (check_args parses c.args)) [
        | inl e ↦
            let value =
              (parsed-constructs dec less udp parses endpoint unspecified load v n g c law p e).0 in
            rw (p, e)
              (rw logs.0 at (
                run_logged-Ends ran c.concurrency_hint (constructs udp endpoint load c) made
                  (mini_plex_logs lib c) value))
        | inr e ↦ rw (p, e) refl
      ]

-- The checks of the command line and of the logs of ProtoConv.
abbrev pub proto_accepts : Spdlog → (String → Bool) → Args.Args → Bool
proto_accepts lib parses a =
    Args.check_args parses a
    && is_known lib a.file_level
    && is_known lib a.console_level
    && lib.rotates a.log_file (a.log_size * 1024 % 2 ^ 64) a.log_num

-- `main` of ProtoConv for a command line that parses, where no serial port refuses a setting. If a
-- check of the command line or of the logs fails, it reports this on stderr and returns 1. If they
-- pass, but an address does not parse, the UDP socket, the framing, the times of a TCP stream or a
-- serial device cannot be set up as the command line says, it reports this in the log and returns 1.
-- Otherwise the object is made, and it returns 0 if the context runs to its end; but an exception
-- while there are threads in the pool ends the program in `std::terminate`, without a report. Only
-- without such threads is it reported in the log.
pub proto_conv_main-accepts :
    {E : Type 0} (lib : Spdlog) (parses : String → Bool) (o : Construct.Outside E) (now : ℕ)
    (ran : Construct.ProtoConv E → Ran) (a : Args.Args)
    → ((i : ℕ) (x : Setting) → o.refuses i x ≡ false)
    → Ends ran a.concurrency_hint
        (proto_accepts lib parses a)
        (Streams.constructs o a)
        (Construct.construct o now a)
        (proto_conv_main lib parses o now ran (some a))
unfolding proto_conv_main proto_conv_logs Ends
proto_conv_main-accepts lib parses o now ran a h =
    let logs =
      setup_logs-WritesAll lib "ProtoConv" a.file_level a.console_level a.log_file a.log_size
        a.log_num in
    elim (Bool-cases (Args.check_args parses a)) [
      | inl e ↦ rw e (
          rw logs.0 at (
            run_logged-Ends ran a.concurrency_hint (Streams.constructs o a)
              (Construct.construct o now a) (proto_conv_logs lib a)
              (Streams.construct-throws o now a h)))
      | inr e ↦ rw e refl
    ]

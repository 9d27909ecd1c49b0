-- ===== src/Programs.antt =====
-- src/main.cpp, src/LogSetup.cpp, src/ProtoConv/main.cpp and src/ProtoConv/LogSetup.cpp: the set-up of
-- the log, and the two programs, from the command line to the exit code. What the logging library and
-- the run of the context do are parameters.
pub mod Log
pub mod Exit
mod Tests
use Prim.Native.String.{String}
use text.Mathlib.Text as Text
use mini_plex.Base.{
  ℕ, ◌*◌, ◌%◌, ◌^◌, Bool, true, not, ◌&&◌, ◌⊎◌, inl, inr, Option, none, some, ◌==◌, ltb,
  if◌then◌else◌,
}
use mini_plex.MiniPlex.{MiniPlex}
use mini_plex.MiniPlex.Accepts
use mini_plex.MiniPlex.Given.{CmdArgs}
use mini_plex.MiniPlex.Process as Process
use mini_plex.ProtoConv.Args
use mini_plex.ProtoConv.Construct as Construct

-- The logging library: `level::from_str`, `level::off`, `level::err`, and whether a rotating file can
-- be made of a name, a size and a number of files. Levels are numbers, a greater one for a graver
-- message.
pub record Spdlog : Type 0 where
  pub from_str : String → ℕ
  pub off : ℕ
  pub err : ℕ
  pub rotates : String → ℕ → ℕ → Bool

pub data SetupError : Type 0 where
  unknown_file_level unknown_console_level no_file : SetupError

-- `async_overflow_policy`
pub data OverflowPolicy : Type 0 where
  block overrun_oldest : OverflowPolicy

-- The logger that is registered, with its two sinks, and the queue of messages that it writes from.
pub record Logger : Type 0 where
  pub name : String
  pub file_name : String
  pub file_size : ℕ
  pub file_num : ℕ
  pub file_level : ℕ
  pub console_level : ℕ
  pub level : ℕ
  pub flush_level : ℕ
  pub queue_size : ℕ
  pub overflow_policy : OverflowPolicy
  pub flush_seconds : ℕ

-- `setup_logs`, for a name and the values of the options.
unfoldable pub setup_logs : Spdlog → String → String → String → String → ℕ → ℕ → SetupError ⊎ Logger
setup_logs lib name file_arg console_arg log_file log_size log_num =
    let file_level = lib.from_str file_arg in
    let console_level = lib.from_str console_arg in
    if file_level == lib.off && not (Text.◌==◌ file_arg "off")
    then inl unknown_file_level
    else if console_level == lib.off && not (Text.◌==◌ console_arg "off")
    then inl unknown_console_level
    else if not (lib.rotates log_file (log_size * 1024 % 2 ^ 64) log_num)
    then inl no_file
    else inr (record {
      name = name;
      file_name = log_file;
      file_size = log_size * 1024 % 2 ^ 64;
      file_num = log_num;
      file_level = file_level;
      console_level = console_level;
      level = if ltb file_level console_level then file_level else console_level;
      flush_level = lib.err;
      queue_size = 4096;
      overflow_policy = overrun_oldest;
      flush_seconds = 3;
    })

-- `setup_logs` of MiniPlex
unfoldable pub mini_plex_logs : Spdlog → CmdArgs → SetupError ⊎ Logger
unfolding setup_logs
mini_plex_logs lib c =
    setup_logs lib "MiniPlex" c.file_level c.console_level c.log_file c.log_size c.log_num

-- `setup_logs` of ProtoConv
unfoldable pub proto_conv_logs : Spdlog → Args.Args → SetupError ⊎ Logger
unfolding setup_logs
proto_conv_logs lib a =
    setup_logs lib "ProtoConv" a.file_level a.console_level a.log_file a.log_size a.log_num

-- How the runs of the context end: all return after a signal, or an exception leaves the run of the
-- thread of `main`, or that of a thread of the pool.
pub data Ran : Type 0 where
  finished throws_in_main throws_in_pool : Ran

-- Where `main` reports an exception.
pub data Report : Type 0 where
  no_report in_log on_stderr : Report

-- How the program ends: in the library of options, with an exit code, or in `std::terminate`.
pub data Outcome : Type 0 where
  library_exits : Outcome
  returns : ℕ → Report → Outcome
  terminates : Outcome

-- The end of `main` for so many threads in the pool, which are joined only after the run: an exception
-- before that destroys them while they can be joined.
unfoldable pub after_run : ℕ → Ran → Outcome
after_run threads finished = returns 0 no_report
after_run threads throws_in_main = if threads == 0 then returns 1 in_log else terminates
after_run threads throws_in_pool = terminates

-- `main` after the logs are set up, for the object, `none` if its constructor throws.
unfoldable pub run_object : {O : Type 0} → (O → Ran) → ℕ → Option O → Outcome
unfolding after_run
run_object ran threads none = returns 1 in_log
run_object ran threads (some object) = after_run threads (ran object)

-- `main` after the options are checked.
unfoldable pub run_logged : {O : Type 0} → (O → Ran) → ℕ → Option O → SetupError ⊎ Logger → Outcome
unfolding run_object
run_logged ran threads object (inl e) = returns 1 on_stderr
run_logged ran threads object (inr log) = run_object ran threads object

module _ {E : Type 0} where
  -- `main` of MiniPlex for the parsed options. What the constructor needs is that of `construct`. The
  -- context is made and the threads of the pool start: the libraries can do it.
  unfoldable pub mini_plex_main :
      Discrete E
      → (E → E → Bool)
      → {V : Type 0} → Spdlog
      → (String → Bool)
      → Process.Udp E
      → (String → ℕ → Option E)
      → E
      → (String → Option V)
      → V
      → (MiniPlex E V × Process.Mode → Ran)
      → Option CmdArgs
      → Outcome
  unfolding run_logged mini_plex_logs
  mini_plex_main dec less lib parses udp endpoint unspecified load vm ran none = library_exits
  mini_plex_main dec less lib parses udp endpoint unspecified load vm ran (some c) =
      if Accepts.check_args parses c.args
      then run_logged ran c.concurrency_hint
          (Process.construct dec less udp endpoint unspecified load vm c.args)
          (mini_plex_logs lib c)
      else returns 1 on_stderr

  -- `main` of ProtoConv for the parsed options, at a time.
  unfoldable pub proto_conv_main :
      Spdlog
      → (String → Bool)
      → Construct.Outside E
      → ℕ
      → (Construct.ProtoConv E → Ran)
      → Option Args.Args
      → Outcome
  unfolding run_logged proto_conv_logs
  proto_conv_main lib parses outside now ran none = library_exits
  proto_conv_main lib parses outside now ran (some a) =
      if Args.check_args parses a
      then run_logged ran a.concurrency_hint (Construct.construct outside now a)
          (proto_conv_logs lib a)
      else returns 1 on_stderr

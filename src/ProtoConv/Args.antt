-- ===== src/ProtoConv/Args.antt =====
-- src/ProtoConv/CmdArgs.h: the options of the command line, their defaults, and the checks after
-- parsing. The text of the command line is parsed by the library of options: a value is given here
-- in its type, or not at all.
use Prim.Native.String.{String}
use text.Mathlib.Text as Text
use mini_plex.Base.{
  ℕ, ◌*◌, Bool, true, not, ◌&&◌, ◌||◌, List, Option, some, ◌==◌, ◌>>=◌, has_value, value_or, is_nil,
}

-- What the command line gives.
pub record Given : Type 0 where
  pub local_addr : Option String
  pub local_port : Option ℕ
  pub remote_addr : Option String
  pub remote_port : Option ℕ
  pub so_rcv_buf : Option ℕ
  pub max_write_q_sz : Option ℕ
  pub delim : Option ℕ
  pub seq_max_q : Option ℕ
  pub seq_max_tms : Option ℕ
  pub tcp_addr : Option String
  pub tcp_is_client : Option Bool
  pub tcp_connect_backoff_times : Option String
  pub tcp_port : Option ℕ
  pub serial_devices : List String
  pub serial_baud_rates : List ℕ
  pub serial_flow_controls : List String
  pub serial_char_sizes : List ℕ
  pub serial_stop_bits : List String
  pub frame_protocol : Option String
  pub console_level : Option String
  pub file_level : Option String
  pub log_file : Option String
  pub log_size : Option ℕ
  pub log_num : Option ℕ
  pub concurrency_hint : Option ℕ

-- The values of the options; `frame_protocol_is_set` is `FrameProtocol.isSet()`.
pub record Args : Type 0 where
  pub local_addr : String
  pub local_port : ℕ
  pub remote_addr : String
  pub remote_port : ℕ
  pub so_rcv_buf : ℕ
  pub max_write_q_sz : ℕ
  pub delim : ℕ
  pub seq_max_q : ℕ
  pub seq_max_tms : ℕ
  pub tcp_addr : String
  pub tcp_is_client : Bool
  pub tcp_connect_backoff_times : String
  pub tcp_port : ℕ
  pub serial_devices : List String
  pub serial_baud_rates : List ℕ
  pub serial_flow_controls : List String
  pub serial_char_sizes : List ℕ
  pub serial_stop_bits : List String
  pub frame_protocol : String
  pub console_level : String
  pub file_level : String
  pub log_file : String
  pub log_size : ℕ
  pub log_num : ℕ
  pub concurrency_hint : ℕ
  pub frame_protocol_is_set : Bool

-- The options with their defaults; an option that is required has none.
unfoldable pub parsed : ℕ → Given → Option Args
parsed hardware_concurrency g = do
  local_port ← g.local_port
  remote_addr ← g.remote_addr
  remote_port ← g.remote_port
  some (record {
    local_addr = value_or "0.0.0.0" g.local_addr;
    local_port = local_port;
    remote_addr = remote_addr;
    remote_port = remote_port;
    so_rcv_buf = value_or (512 * 1024) g.so_rcv_buf;
    max_write_q_sz = value_or 1024 g.max_write_q_sz;
    delim = value_or 0 g.delim;
    seq_max_q = value_or 100 g.seq_max_q;
    seq_max_tms = value_or 5000 g.seq_max_tms;
    tcp_addr = value_or "" g.tcp_addr;
    tcp_is_client = value_or true g.tcp_is_client;
    tcp_connect_backoff_times = value_or "125 30000 5000" g.tcp_connect_backoff_times;
    tcp_port = value_or 0 g.tcp_port;
    serial_devices = g.serial_devices;
    serial_baud_rates = g.serial_baud_rates;
    serial_flow_controls = g.serial_flow_controls;
    serial_char_sizes = g.serial_char_sizes;
    serial_stop_bits = g.serial_stop_bits;
    frame_protocol = value_or "DNP3" g.frame_protocol;
    console_level = value_or "critical" g.console_level;
    file_level = value_or "error" g.file_level;
    log_file = value_or "ProtoConv.log" g.log_file;
    log_size = value_or 5000 g.log_size;
    log_num = value_or 3 g.log_num;
    concurrency_hint = value_or hardware_concurrency g.concurrency_hint;
    frame_protocol_is_set = has_value g.frame_protocol;
  })

-- The checks: whether none of them throws. `parses` is whether `from_string` reports no error.
unfoldable pub check_args : (String → Bool) → Args → Bool
check_args parses a =
    let no_tcp = Text.◌==◌ a.tcp_addr "" in
    (no_tcp || is_nil a.serial_devices)
    && not (no_tcp && is_nil a.serial_devices)
    && not (not (a.delim == 0) && a.frame_protocol_is_set)
    && parses a.local_addr
    && parses a.remote_addr
    && (no_tcp || parses a.tcp_addr)

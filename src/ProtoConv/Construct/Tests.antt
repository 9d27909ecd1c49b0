-- ===== src/ProtoConv/Construct/Tests.antt =====
-- src/ProtoConv/ProtoConv.cpp: constructions.
use text.Mathlib.Text as Text
use mini_plex.Base.{
  ℕ, ◌≡◌, ◌<◌, refl, true, false, ◌&&◌, List, [], ◌∷◌, length, get_elem?, none, some, has_value,
  leb, arith,
}
use mini_plex.ProtoConv.Args.{Args, Given, parsed, check_args}
use mini_plex.ProtoConv.Reorder.{new_handler}
use mini_plex.ProtoConv.Serial.{new_manager}
use mini_plex.ProtoConv.Serial.Opening.{attempt, start_flow_control, start_port, start}
use mini_plex.ProtoConv.Serial.Settings.{
  SerialDeviceSettings, new_settings, hardware, no_parity, one, two, no_flow_control,
}
use mini_plex.ProtoConv.Construct.{
  ProtoConv, Outside, delim_framing, serial_stream, framing_of, stream_of, open_all, configure,
  construct,
}
use mini_plex.ProtoConv.Construct.Devices.{device, configure-device}
use mini_plex.ProtoConv.Construct.Streams.{
  constructs, StreamFits, construct-throws, construct-StreamFits,
}

-- Two serial devices with a delimiter; the first has hardware flow control.
abbrev given : Given
given = record {
  local_addr = none;
  local_port = some 4000;
  remote_addr = some "10.0.0.1";
  remote_port = some 4001;
  so_rcv_buf = none;
  max_write_q_sz = some 3;
  delim = some 9;
  seq_max_q = none;
  seq_max_tms = none;
  tcp_addr = none;
  tcp_is_client = none;
  tcp_connect_backoff_times = none;
  tcp_port = none;
  serial_devices = "/dev/ttyS0" ∷ "/dev/ttyS1" ∷ [];
  serial_baud_rates = 9600 ∷ 19200 ∷ [];
  serial_flow_controls = "HARDWARE" ∷ "NONE" ∷ [];
  serial_char_sizes = [];
  serial_stop_bits = "TWO" ∷ "ONE" ∷ [];
  frame_protocol = none;
  console_level = none;
  file_level = none;
  log_file = none;
  log_size = none;
  log_num = none;
  concurrency_hint = none;
}

-- The values of its options.
abbrev args : Args
args = record {
  local_addr = "0.0.0.0";
  local_port = 4000;
  remote_addr = "10.0.0.1";
  remote_port = 4001;
  so_rcv_buf = 524288;
  max_write_q_sz = 3;
  delim = 9;
  seq_max_q = 100;
  seq_max_tms = 5000;
  tcp_addr = "";
  tcp_is_client = true;
  tcp_connect_backoff_times = "125 30000 5000";
  tcp_port = 0;
  serial_devices = "/dev/ttyS0" ∷ "/dev/ttyS1" ∷ [];
  serial_baud_rates = 9600 ∷ 19200 ∷ [];
  serial_flow_controls = "HARDWARE" ∷ "NONE" ∷ [];
  serial_char_sizes = [];
  serial_stop_bits = "TWO" ∷ "ONE" ∷ [];
  frame_protocol = "DNP3";
  console_level = "critical";
  file_level = "error";
  log_file = "ProtoConv.log";
  log_size = 5000;
  log_num = 3;
  concurrency_hint = 8;
  frame_protocol_is_set = false;
}

given-args : parsed 8 given ≡ some args
unfolding parsed
given-args = refl

-- Everything outside accepts what it is given; an endpoint is its port.
abbrev outside : Outside ℕ
outside = record {
  endpoint = λ addr port. some port;
  binds = λ ep. leb 1024 ep;
  sets_receive_buffer_size = λ size. true;
  connects = λ ep. true;
  backoff_times = λ times. none;
  opens = λ dev. true;
  accepts_char_size = λ size. leb 5 size && leb size 8;
  refuses = λ i x. false;
}

abbrev settings : List SerialDeviceSettings
settings =
    record {
      baud_rate = 9600;
      character_size = 8;
      flow_control = hardware;
      parity = no_parity;
      stop_bits = two;
    }
    ∷ record {
      baud_rate = 19200;
      character_size = 8;
      flow_control = no_flow_control;
      parity = no_parity;
      stop_bits = one;
    }
    ∷ []

second_device : get_elem? settings 1 ≡ device (λ size. true) args 1
unfolding configure new_settings
second_device = configure-device (λ size. true) args 2 settings 1 refl (omega arith)

construct-throws_example : has_value (construct outside 0 args) ≡ constructs outside args
construct-throws_example = construct-throws outside 0 args (λ i x. refl)

abbrev object : ProtoConv ℕ
object = record {
  local_ep = 4000;
  remote_ep = 4001;
  max_write_q_sz = 3;
  delim = 9;
  delim_seq = 0;
  framing = delim_framing 9 (new_handler 100 5000 0);
  stream = serial_stream (new_manager 2 3) settings;
}

args-object : construct outside 0 args ≡ some object
unfolding construct framing_of stream_of configure new_settings open_all start start_port
    start_flow_control attempt
args-object = refl

serial_fits :
    StreamFits outside args object.stream
    × ((Text.◌==◌ args.tcp_addr "" ≡ true) → 0 < length args.serial_devices)
serial_fits =
    construct-StreamFits outside (λ addr. true) 0 args object (unfold check_args in refl)
      args-object

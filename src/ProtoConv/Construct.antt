-- ===== src/ProtoConv/Construct.antt =====
-- src/ProtoConv/ProtoConv.cpp: the constructor. An exception is `none`. What the library of
-- addresses, the UDP socket, the string stream, the serial ports and the platform do are parameters.
pub mod Devices
pub mod Streams
mod Tests
use Prim.Native.String.{String}
use text.Mathlib.Text as Text
use mini_plex.Base.{
  ℕ, ◌≡◌, Bool, true, false, not, ◌&&◌, ◌||◌, List, [], ◌∷◌, Option, none, some, ◌==◌, ◌>>=◌,
  is_nil, length, if◌then◌else◌,
}
use mini_plex.ProtoConv.Args.{Args}
use mini_plex.ProtoConv.Flows.{TransportFlow}
use mini_plex.ProtoConv.Reorder.{DelimFragHandler, new_handler}
use mini_plex.ProtoConv.Serial.{SerialPortsManager, new_manager}
use mini_plex.ProtoConv.Serial.Settings.{
  SerialDeviceSettings, new_settings, set_baud_rate, set_char_size, set_flow_control, set_stop_bits,
  when_given,
}
use mini_plex.ProtoConv.Serial.Opening.{Setting, start}

-- `pFramer` and `pFragHandler`, which are chosen together: the checker, and the handler's state.
pub data Framing : Type 0 where
  delim_framing : ℕ → DelimFragHandler → Framing
  dnp3_framing : List (ℕ × TransportFlow) → Framing
  null_framing : Framing

-- The members of `AutoOpenOpts` that the constructor sets.
pub record AutoOpenOpts : Type 0 where
  pub min_retry_time_ms : ℕ
  pub max_retry_time_ms : ℕ
  pub min_established_time_ms : ℕ

-- `pStream`: the arguments of the socket manager, the serial ports, or the null pointer.
pub data Stream : Type 0 where
  tcp_stream : Bool → String → ℕ → ℕ → AutoOpenOpts → Stream
  serial_stream : SerialPortsManager → List SerialDeviceSettings → Stream
  no_stream : Stream

-- The object's fields.
pub record ProtoConv (E : Type 0) : Type 0 where
  pub local_ep : E
  pub remote_ep : E
  pub max_write_q_sz : ℕ
  pub delim : ℕ
  pub delim_seq : ℕ
  pub framing : Framing
  pub stream : Stream

-- What the constructor calls outside of this code: the library of addresses, the UDP socket, the
-- string stream, the serial ports and the platform.
pub record Outside (E : Type 0) : Type 0 where
  pub endpoint : String → ℕ → Option E
  pub binds : E → Bool
  pub sets_receive_buffer_size : ℕ → Bool
  pub connects : E → Bool
  pub backoff_times : String → Option (ℕ × ℕ × ℕ)
  pub opens : String → Bool
  pub accepts_char_size : ℕ → Bool
  pub refuses : ℕ → Setting → Bool

unfoldable pub framing_of : ℕ → Args → Option Framing
unfolding new_handler
framing_of now a =
    if not (a.delim == 0)
    then some (delim_framing a.delim (new_handler a.seq_max_q a.seq_max_tms now))
    else if Text.◌==◌ a.frame_protocol "DNP3"
    then some (dnp3_framing [])
    else if Text.◌==◌ a.frame_protocol "Null"
    then some null_framing
    else none

-- The settings from the command line. The parity cannot be given.
unfoldable pub configure :
    (ℕ → Bool) → Args → List SerialDeviceSettings → Option (List SerialDeviceSettings)
unfolding set_baud_rate set_char_size set_flow_control set_stop_bits
configure accepts a s = do
  s ← when_given set_baud_rate a.serial_baud_rates s
  s ← when_given (set_char_size accepts) a.serial_char_sizes s
  s ← when_given set_flow_control a.serial_flow_controls s
  when_given set_stop_bits a.serial_stop_bits s

-- `ports.back().open(dev)` for each device.
unfoldable pub open_all : (String → Bool) → List String → Bool
open_all opens [] = true
open_all opens (dev ∷ devs) = let rest = open_all opens devs in opens dev && rest

unfoldable pub stream_of : {E : Type 0} → Outside E → Args → Option Stream
unfolding new_manager new_settings configure open_all start
stream_of o a =
    let num_ports = length a.serial_devices in
    let tcp = o.backoff_times a.tcp_connect_backoff_times >>= λ times. some (
      tcp_stream (not a.tcp_is_client) a.tcp_addr a.tcp_port a.max_write_q_sz (record {
        min_retry_time_ms = times.0;
        max_retry_time_ms = times.1;
        min_established_time_ms = times.2;
      })) in
    let serial = configure o.accepts_char_size a (new_settings num_ports) >>= λ settings.
    if (start o.refuses 0 settings).1
    then none
    else some (serial_stream (new_manager num_ports a.max_write_q_sz) settings) in
    if not (Text.◌==◌ a.tcp_addr "")
    then tcp
    else if is_nil a.serial_devices
    then some no_stream
    else if open_all o.opens a.serial_devices
    then serial
    else none

-- The constructor, at a time.
unfoldable pub construct : {E : Type 0} → Outside E → ℕ → Args → Option (ProtoConv E)
unfolding framing_of stream_of
construct o now a = do
  local_ep ← o.endpoint a.local_addr a.local_port
  remote_ep ← o.endpoint a.remote_addr a.remote_port
  framing ← if o.binds local_ep then framing_of now a else none
  stream ←
      if o.sets_receive_buffer_size a.so_rcv_buf && o.connects remote_ep
      then stream_of o a
      else none
  some (record {
    local_ep = local_ep;
    remote_ep = remote_ep;
    max_write_q_sz = a.max_write_q_sz;
    delim = a.delim;
    delim_seq = 0;
    framing = framing;
    stream = stream;
  })

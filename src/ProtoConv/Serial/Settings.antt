-- ===== src/ProtoConv/Serial/Settings.antt =====
-- src/ProtoConv/SerialPortsManager.h and src/ProtoConv/SerialPortsManager.cpp: the settings of each
-- device. An exception is `none`. The types of the sockets library that the code names are written
-- with the enumerators that it uses.
use Prim.Native.String.{String}
use text.Mathlib.Text as Text
use mini_plex.Base.{
  ℕ, zero, suc, ◌%◌, ◌^◌, Bool, List, [], ◌∷◌, length, ◌==◌, if◌then◌else◌, Option, none, some,
  ◌>>=◌, is_nil,
}

pub data FlowControl : Type 0 where
  no_flow_control hardware software : FlowControl

pub data Parity : Type 0 where
  no_parity even odd : Parity

pub data StopBits : Type 0 where
  one onepointfive two : StopBits

-- `SerialDeviceSettings`
pub record SerialDeviceSettings : Type 0 where
  pub baud_rate : ℕ
  pub character_size : ℕ
  pub flow_control : FlowControl
  pub parity : Parity
  pub stop_bits : StopBits

-- The initializers, and the defaults of the sockets library for the members without one.
abbrev pub default_settings : SerialDeviceSettings
default_settings = record {
  baud_rate = 38400;
  character_size = 8;
  flow_control = no_flow_control;
  parity = no_parity;
  stop_bits = one;
}

-- `port_settings(devs.size())`
unfoldable pub new_settings : ℕ → List SerialDeviceSettings
new_settings zero = []
new_settings (suc num_ports) = default_settings ∷ new_settings num_ports

-- The loop of a setter: one value for each port, in their order.
unfoldable pub put_each :
    {A : Type 0}
    → (A → SerialDeviceSettings → Option SerialDeviceSettings)
    → List A
    → List SerialDeviceSettings
    → Option (List SerialDeviceSettings)
put_each put (a ∷ values) (s ∷ port_settings) = do
  t ← put a s
  ts ← put_each put values port_settings
  some (t ∷ ts)
put_each put [] port_settings = some port_settings
put_each put values [] = some []

-- The guard of a setter.
unfoldable pub set_each :
    {A : Type 0}
    → (A → SerialDeviceSettings → Option SerialDeviceSettings)
    → List A
    → List SerialDeviceSettings
    → Option (List SerialDeviceSettings)
unfolding put_each
set_each put values port_settings =
    if length values == length port_settings then put_each put values port_settings else none

-- The library's `baud_rate` takes an `unsigned int`.
abbrev pub put_baud_rate : ℕ → SerialDeviceSettings → Option SerialDeviceSettings
put_baud_rate br s = some (record s { baud_rate = br % 2 ^ 32 })

-- The library's `character_size` takes an `unsigned int`; `accepts` is whether it throws on none.
abbrev pub put_character_size : (ℕ → Bool) → ℕ → SerialDeviceSettings → Option SerialDeviceSettings
put_character_size accepts cs s =
    if accepts (cs % 2 ^ 32) then some (record s { character_size = cs % 2 ^ 32 }) else none

abbrev pub flow_control_of : String → FlowControl
flow_control_of fc =
    if Text.◌==◌ fc "HARDWARE"
    then hardware
    else if Text.◌==◌ fc "SOFTWARE"
    then software
    else no_flow_control

abbrev pub put_flow_control : String → SerialDeviceSettings → Option SerialDeviceSettings
put_flow_control fc s = some (record s { flow_control = flow_control_of fc })

abbrev pub parity_of : String → Parity
parity_of p = if Text.◌==◌ p "EVEN" then even else if Text.◌==◌ p "ODD" then odd else no_parity

abbrev pub put_parity : String → SerialDeviceSettings → Option SerialDeviceSettings
put_parity p s = some (record s { parity = parity_of p })

abbrev pub stop_bits_of : String → StopBits
stop_bits_of sb =
    if Text.◌==◌ sb "ONEPOINTFIVE" then onepointfive else if Text.◌==◌ sb "TWO" then two else one

abbrev pub put_stop_bits : String → SerialDeviceSettings → Option SerialDeviceSettings
put_stop_bits sb s = some (record s { stop_bits = stop_bits_of sb })

-- `SetBaudRate`
unfoldable pub set_baud_rate :
    List ℕ → List SerialDeviceSettings → Option (List SerialDeviceSettings)
unfolding set_each
set_baud_rate = set_each put_baud_rate

-- `SetCharSize`
unfoldable pub set_char_size :
    (ℕ → Bool) → List ℕ → List SerialDeviceSettings → Option (List SerialDeviceSettings)
unfolding set_each
set_char_size accepts = set_each (put_character_size accepts)

-- `SetFlowControl`
unfoldable pub set_flow_control :
    List String → List SerialDeviceSettings → Option (List SerialDeviceSettings)
unfolding set_each
set_flow_control = set_each put_flow_control

-- `SetParity`
unfoldable pub set_parity :
    List String → List SerialDeviceSettings → Option (List SerialDeviceSettings)
unfolding set_each
set_parity = set_each put_parity

-- `SetStopBits`
unfoldable pub set_stop_bits :
    List String → List SerialDeviceSettings → Option (List SerialDeviceSettings)
unfolding set_each
set_stop_bits = set_each put_stop_bits

-- A setter of the serial ports is called only for a list that is not empty.
abbrev pub when_given : {A S : Type 0} → (List A → S → Option S) → List A → S → Option S
when_given set values s = if is_nil values then some s else set values s

-- ===== src/ProtoConv/Serial/Opening.antt =====
-- src/ProtoConv/SerialPortsManager.cpp: `Start` configures each port and posts its first read,
-- `Read` reads until an error, and `Stop` closes the ports. Whether the sockets library, or the platform, refuses a call on a
-- port with an exception is a parameter.
use mini_plex.Base.{
  ap, ◌≡◌, refl, inl, inr, Bool-cases, arith, Option, none, some, ◌&&◌, ◌||◌, ltb, length, ℕ, zero,
  suc, Bool, true, false, not, List, [], ◌∷◌, ◌++◌, if◌then◌else◌,
}
use mini_plex.ProtoConv.Serial.{indices}
use mini_plex.ProtoConv.Serial.Settings.{
  FlowControl, no_flow_control, hardware, software, Parity, StopBits, SerialDeviceSettings,
}

-- The options that `Start` sets on a port.
pub data Setting : Type 0 where
  baud_rate : ℕ → Setting
  character_size : ℕ → Setting
  parity : Parity → Setting
  stop_bits : StopBits → Setting
  flow_control : FlowControl → Setting
  native_hardware_flow_control : Bool → Setting

-- What `Start` does: a call that sets an option of a port, or a post of a read on it.
pub data Action : Type 0 where
  sets : ℕ → Setting → Action
  reads : ℕ → Action

abbrev pub is_hardware : FlowControl → Bool
is_hardware hardware = true
is_hardware software = false
is_hardware no_flow_control = false

-- Calls up to the first that throws: the calls made, and whether one threw.
unfoldable pub attempt : (ℕ → Setting → Bool) → ℕ → List Setting → List Action × Bool
attempt refuses i [] = ([], false)
attempt refuses i (x ∷ xs) =
    let rest = attempt refuses i xs in
    if refuses i x then (sets i x ∷ [], true) else (sets i x ∷ rest.0, rest.1)

-- The second part of a pair of calls is made when the first does not throw.
abbrev pub and_then : List Action × Bool → List Action × Bool → List Action × Bool
and_then a b = if a.1 then a else (a.0 ++ b.0, b.1)

-- The calls of `catch` are made when those of `try` throw.
abbrev pub or_else : List Action × Bool → List Action × Bool → List Action × Bool
or_else a b = if a.1 then (a.0 ++ b.0, b.1) else a

-- The `try` block for the flow control, and its `catch`.
unfoldable pub start_flow_control : (ℕ → Setting → Bool) → ℕ → FlowControl → List Action × Bool
unfolding attempt
start_flow_control refuses i fc =
    let hard_flow = is_hardware fc in
    let tried =
      attempt refuses i
        (flow_control fc ∷ (if hard_flow then [] else native_hardware_flow_control false ∷ [])) in
    let caught =
      attempt refuses i (flow_control no_flow_control ∷ native_hardware_flow_control true ∷ []) in
    or_else tried (if hard_flow then caught else ([], true))

-- One turn of the loop of `Start`.
unfoldable pub start_port : (ℕ → Setting → Bool) → ℕ → SerialDeviceSettings → List Action × Bool
unfolding attempt start_flow_control
start_port refuses i s =
    and_then
      (attempt refuses i (
        baud_rate s.baud_rate
        ∷ character_size s.character_size
        ∷ parity s.parity
        ∷ stop_bits s.stop_bits
        ∷ []))
      (and_then (start_flow_control refuses i s.flow_control) (reads i ∷ [], false))

-- `Start` from port `i` on: what it does, and whether it throws.
unfoldable pub start : (ℕ → Setting → Bool) → ℕ → List SerialDeviceSettings → List Action × Bool
unfolding start_port
start refuses i [] = ([], false)
start refuses i (s ∷ port_settings) =
    let rest = start refuses (suc i) port_settings in and_then (start_port refuses i s) rest

-- What `Stop` posts for each port: an error of `cancel` is only logged, and the port is closed.
pub data Closing : Type 0 where
  cancels : ℕ → Closing
  closes : ℕ → Closing

unfoldable pub stop : ℕ → ℕ → List Closing
stop i zero = []
stop i (suc num_ports) = cancels i ∷ closes i ∷ stop (suc i) num_ports

-- The handler of a read that has ended, for each read in turn: `none` is an error, and the last read.
-- `handle` is the manager's `ReadHandler`, which leaves what it does not take in the port's buffer.
unfoldable pub read_all :
    {S : Type 0} → (List ℕ → S → S × List ℕ) → List (Option (List ℕ)) → List ℕ → S → S × List ℕ
read_all handle [] buf s = (s, buf)
read_all handle (none ∷ results) buf s = (s, buf)
read_all handle (some bytes ∷ results) buf s =
    let r = handle (buf ++ bytes) s in read_all handle results r.1 r.0

-- The ports on which a read is posted, in order.
abbrev pub ports_read : List Action → List ℕ
ports_read [] = []
ports_read (sets i x ∷ actions) = ports_read actions
ports_read (reads i ∷ actions) = i ∷ ports_read actions

-- What a port must accept: every option of its settings, where hardware flow control may instead be
-- turned on by the platform once the port is set to none.
abbrev pub can_start : (ℕ → Setting → Bool) → ℕ → SerialDeviceSettings → Bool
can_start refuses i s =
    not (refuses i (baud_rate s.baud_rate))
    && not (refuses i (character_size s.character_size))
    && not (refuses i (parity s.parity))
    && not (refuses i (stop_bits s.stop_bits))
    && (if is_hardware s.flow_control
        then not (refuses i (flow_control s.flow_control))
          || (not (refuses i (flow_control no_flow_control))
              && not (refuses i (native_hardware_flow_control true)))
        else not (refuses i (flow_control s.flow_control))
          && not (refuses i (native_hardware_flow_control false)))

-- The ports before the first that does not.
abbrev pub startable : (ℕ → Setting → Bool) → ℕ → List SerialDeviceSettings → ℕ
startable refuses i [] = 0
startable refuses i (s ∷ port_settings) =
    let rest = startable refuses (suc i) port_settings in
    if can_start refuses i s then suc rest else 0

ports_read-append : (xs ys : List Action) → ports_read (xs ++ ys) ≡ ports_read xs ++ ports_read ys
ports_read-append [] ys = refl
ports_read-append (sets i x ∷ xs) ys = ports_read-append xs ys
ports_read-append (reads i ∷ xs) ys = ap (λ t. i ∷ t) (ports_read-append xs ys)

start_port-result :
    (refuses : ℕ → Setting → Bool) (i : ℕ) (s : SerialDeviceSettings)
    → ((start_port refuses i s).1 ≡ not (can_start refuses i s))
      × (ports_read (start_port refuses i s).0 ≡ (if can_start refuses i s then i ∷ [] else []))
unfolding start_port start_flow_control attempt
start_port-result refuses i s = (ground arith, ground arith)

-- `Start` posts a read on exactly the ports before the first that cannot start, in their order, and
-- throws when there is such a port.
pub start-ports :
    (refuses : ℕ → Setting → Bool) (i : ℕ) (port_settings : List SerialDeviceSettings)
    → let r = start refuses i port_settings in
      (ports_read r.0 ≡ indices i (startable refuses i port_settings))
      × (r.1 ≡ ltb (startable refuses i port_settings) (length port_settings))
unfolding start
start-ports refuses i [] = (refl, refl)
start-ports refuses i (s ∷ port_settings) =
    let (t, e) = start_port-result refuses i s in
    let (p, q) = start-ports refuses (suc i) port_settings in
    elim (Bool-cases (can_start refuses i s)) [
      | inl c ↦ ground (
        arith,
        ports_read-append (start_port refuses i s).0 (start refuses (suc i) port_settings).0,
      )
      | inr c ↦ ground arith
    ]

pub start-accepted :
    (refuses : ℕ → Setting → Bool)
    → ((i : ℕ) (x : Setting) → refuses i x ≡ false)
    → (i : ℕ) (port_settings : List SerialDeviceSettings)
    → (start refuses i port_settings).1 ≡ false
unfolding start start_port start_flow_control attempt
start-accepted refuses h i [] = refl
start-accepted refuses h i (s ∷ port_settings) =
    let rest = start-accepted refuses h (suc i) port_settings in
    let t = (start_port-result refuses i s).0 in
    let c : can_start refuses i s ≡ true = ground (
      arith,
      h i (baud_rate s.baud_rate),
      h i (character_size s.character_size),
      h i (parity s.parity),
      h i (stop_bits s.stop_bits),
      h i (flow_control s.flow_control),
      h i (native_hardware_flow_control false),
    ) in
    ground (arith, t, c, rest)

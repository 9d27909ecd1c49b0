-- ===== src/ProtoConv/Serial.antt =====
-- src/ProtoConv/SerialPortsManager.cpp: datagrams wait in a queue while every port is writing.
pub mod Queue
pub mod Scheduled
pub mod Live
pub mod Settings
pub mod Opening
pub mod PerPort
pub mod Lifetime
pub mod Returns
mod Tests
use mini_plex.Base.{
  ℕ, zero, suc, List, [], ◌∷◌, ◌++◌, length, ltb, if◌then◌else◌, Option, none, some,
}

-- The members that `Write` uses.
pub record SerialPortsManager : Type 0 where
  pub idle_port_idx_q : List ℕ
  pub write_q : List (List ℕ)
  pub max_write_q_sz : ℕ

-- How a message leaves the manager: its write starts on a port, or it is dropped.
pub data Leaving : Type 0 where
  started : ℕ → List ℕ → Leaving
  dropped : List ℕ → Leaving

-- `0, 1, …` up to the number of devices, from `i` on.
abbrev pub indices : ℕ → ℕ → List ℕ
indices i zero = []
indices i (suc n) = i ∷ indices (suc i) n

-- The constructor's queues, for so many devices.
unfoldable pub new_manager : ℕ → ℕ → SerialPortsManager
new_manager num_ports max_write_q_sz = record {
  idle_port_idx_q = indices 0 num_ports;
  write_q = [];
  max_write_q_sz = max_write_q_sz;
}

-- The queue gets too long: its oldest message goes.
unfoldable pub limit_q : ℕ → List (List ℕ) → List (List ℕ) × List Leaving
limit_q max [] = ([], [])
limit_q max (m ∷ q) = if ltb max (length (m ∷ q)) then (q, dropped m ∷ []) else (m ∷ q, [])

-- The function that `Write` posts, on the front of the idle ports. A write on a port starts at once.
unfoldable pub write_with : List ℕ → List ℕ → SerialPortsManager → SerialPortsManager × List Leaving
unfolding limit_q
write_with bytes (idx ∷ idle) s = (record s { idle_port_idx_q = idle }, started idx bytes ∷ [])
write_with bytes [] s =
    let r = limit_q s.max_write_q_sz (s.write_q ++ bytes ∷ []) in
    (record s { idle_port_idx_q = []; write_q = r.0 }, r.1)

-- `Write` of a message
unfoldable pub write : List ℕ → SerialPortsManager → SerialPortsManager × List Leaving
unfolding write_with
write bytes s = write_with bytes s.idle_port_idx_q s

-- The handler of a write on a port that has ended, well or not, on the queue.
unfoldable pub write_done_with :
    ℕ → List (List ℕ) → SerialPortsManager → SerialPortsManager × List Leaving
write_done_with idx (m ∷ q) s = (record s { write_q = q }, started idx m ∷ [])
write_done_with idx [] s =
    (record s { idle_port_idx_q = s.idle_port_idx_q ++ idx ∷ []; write_q = [] }, [])

unfoldable pub write_done : ℕ → SerialPortsManager → SerialPortsManager × List Leaving
unfolding write_done_with
write_done idx s = write_done_with idx s.write_q s

-- ===== src/ProtoConv/Serial/Queue.antt =====
-- src/ProtoConv/SerialPortsManager.cpp: which messages are written, on which ports, in which order.
use mini_plex.Base.{
  ℕ, ◌+◌, ◌≤◌, ◌≡◌, true, ◌||◌, List, [], ◌∷◌, ◌++◌, map, is_nil, length, ltb, if◌then◌else◌,
  ℕ_discrete,
}
use mini_plex.Base.Sets.{count, contains, erase_one}
use mini_plex.ProtoConv.Serial.{
  SerialPortsManager, Leaving, started, dropped, new_manager, write, write_done,
}

-- The manager, the ports on which a write is outstanding, and what has left so far, in order.
pub record Writing : Type 0 where
  pub manager : SerialPortsManager
  pub busy : List ℕ
  pub left : List Leaving
  pub arrived : List (List ℕ)

abbrev pub ports_of : List Leaving → List ℕ
ports_of [] = []
ports_of (started idx m ∷ ls) = idx ∷ ports_of ls
ports_of (dropped m ∷ ls) = ports_of ls

abbrev pub message : Leaving → List ℕ
message (started idx m) = m
message (dropped m) = m

unfoldable pub after_write : List ℕ → Writing → Writing
unfolding write
after_write m w =
    let r = write m w.manager in
    record {
      manager = r.0;
      busy = ports_of r.1 ++ w.busy;
      left = w.left ++ r.1;
      arrived = w.arrived ++ m ∷ [];
    }

unfoldable pub after_done : ℕ → Writing → Writing
unfolding write_done
after_done idx w =
    let r = write_done idx w.manager in
    record w {
      manager = r.0;
      busy = ports_of r.1 ++ erase_one ℕ_discrete idx w.busy;
      left = w.left ++ r.1;
    }

-- A message arrives, or an outstanding write ends.
pub data Step (w : Writing) : Writing → Type 0 where
  arrives : (m : List ℕ) → Step w (after_write m w)
  ends : (idx : ℕ) → contains ℕ_discrete w.busy idx ≡ true → Step w (after_done idx w)

pub data Reach (w : Writing) : Writing → Type 0 where
  here : Reach w w
  next : {u v : Writing} → Reach w u → Step u v → Reach w v

unfoldable pub initially : ℕ → ℕ → Writing
unfolding new_manager
initially num_ports max = record {
  manager = new_manager num_ports max;
  busy = [];
  left = [];
  arrived = [];
}

-- Every port is idle, or has one outstanding write; messages wait only while none is idle, and not
-- too many; messages leave in the order in which they arrived.
pub record IsScheduled (num_ports max : ℕ) (w : Writing) : Type 0 where
  pub ports :
      (i : ℕ)
      → count ℕ_discrete i w.manager.idle_port_idx_q + count ℕ_discrete i w.busy
        ≡ (if ltb i num_ports then 1 else 0)
  pub working : (is_nil w.manager.idle_port_idx_q || is_nil w.manager.write_q) ≡ true
  pub limit : w.manager.max_write_q_sz ≡ max
  pub bounded : length w.manager.write_q ≤ max
  pub in_order : map message w.left ++ w.manager.write_q ≡ w.arrived

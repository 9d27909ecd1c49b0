-- ===== src/ProtoConv/Serial/Lifetime.antt =====
-- src/ProtoConv/SerialPortsManager.cpp: the handlers that hold `handler_tracker`, and the destructor,
-- which runs handlers until none holds it. Any outstanding handler may be the next to run, and a
-- handler may have an error.
use mini_plex.Base.{
  ℕ, zero, suc, ◌<◌, ◌≡◌, Option, some, none, Bool, true, false, List, [], ◌∷◌, ◌++◌, length,
  if◌then◌else◌,
}
use mini_plex.ProtoConv.Serial.{SerialPortsManager, Leaving, started, dropped, write, write_done}

-- A function with a copy of the tracker: posted by `Start`, for `async_read`, posted by `Stop`, posted
-- by the two functions `Write`, and for `async_write`.
pub data Handler : Type 0 where
  starting : ℕ → Handler
  reading : ℕ → Handler
  stopping : ℕ → Handler
  writing : List ℕ → Handler
  sending : ℕ → List ℕ → Handler
  sent : ℕ → Handler

-- The queues, and the outstanding handlers.
pub record Ports : Type 0 where
  pub manager : SerialPortsManager
  pub handlers : List Handler

-- The functions that are posted for writes that start.
abbrev pub to_post : List Leaving → List Handler
to_post [] = []
to_post (started idx m ∷ ls) = sending idx m ∷ to_post ls
to_post (dropped m ∷ ls) = to_post ls

-- What a handler does, with an error or without.
unfoldable pub run_handler : Bool → Handler → SerialPortsManager → SerialPortsManager × List Handler
unfolding write write_done
run_handler err (starting i) m = (m, reading i ∷ [])
run_handler err (reading i) m = (m, if err then [] else reading i ∷ [])
run_handler err (stopping i) m = (m, [])
run_handler err (writing bytes) m = let r = write bytes m in (r.0, to_post r.1)
run_handler err (sending idx bytes) m = (m, sent idx ∷ [])
run_handler err (sent idx) m = let r = write_done idx m in (r.0, to_post r.1)

-- `poll_one` takes the handler at a place.
unfoldable pub poll_with :
    ℕ → Bool → List Handler → SerialPortsManager → SerialPortsManager × List Handler
unfolding run_handler
poll_with k err [] m = (m, [])
poll_with zero err (h ∷ hs) m = let r = run_handler err h m in (r.0, hs ++ r.1)
poll_with (suc k) err (h ∷ hs) m = let r = poll_with k err hs m in (r.0, h ∷ r.1)

unfoldable pub poll_one : ℕ → Bool → Ports → Ports
unfolding poll_with
poll_one k err s =
    let r = poll_with k err s.handlers s.manager in record { manager = r.0; handlers = r.1 }

abbrev pub is_none_left : List Handler → Bool
is_none_left [] = true
is_none_left (h ∷ hs) = false

-- A turn of the destructor's loop: whether it finds the context stopped, the place of the handler that
-- is ready, past the end if none is, and whether that handler has an error.
pub record Turn : Type 0 where
  pub stopped : Bool
  pub place : ℕ
  pub err : Bool

-- `~SerialPortsManager`: what is left when it returns, or `none` while it has not after these turns.
unfoldable pub destroy : List Turn → Ports → Option Ports
unfolding poll_one
destroy [] s = if is_none_left s.handlers then some s else none
destroy (t ∷ turns) s =
    let rest = destroy turns (poll_one t.place t.err s) in
    if is_none_left s.handlers then some s else if t.stopped then some s else rest

-- Each turn finds the context running and a handler ready, and a read fails, as on a closed port.
unfoldable pub AllRun : List Turn → Ports → Type 0
AllRun [] s = Unit
AllRun (t ∷ turns) s =
    (t.stopped ≡ false)
    × (t.err ≡ true)
    × (is_none_left s.handlers ≡ false → t.place < length s.handlers)
    × AllRun turns (poll_one t.place t.err s)

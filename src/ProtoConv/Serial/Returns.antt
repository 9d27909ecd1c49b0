-- ===== src/ProtoConv/Serial/Returns.antt =====
-- src/ProtoConv/SerialPortsManager.cpp: when the destructor returns.
use mini_plex.Base.{
  ℕ, zero, suc, ◌+◌, ◌*◌, ◌≤◌, ◌<◌, ◌≡◌, refl, ◌||◌, some, none, ltb, length-append, inl, inr, Bool,
  true, false, List, [], ◌∷◌, ◌++◌, length, Bool-cases, arith,
}
use mini_plex.ProtoConv.Serial.{
  SerialPortsManager, limit_q, write, write_with, write_done, write_done_with,
}
use mini_plex.ProtoConv.Serial.Lifetime.{
  Handler, starting, reading, stopping, writing, sending, sent, Ports, to_post, run_handler,
  poll_with, poll_one, is_none_left, Turn, destroy, AllRun,
}

-- How many handlers are still to run for a handler, and for all and the messages that wait.
abbrev pub weight : Handler → ℕ
weight (starting i) = 2
weight (reading i) = 1
weight (stopping i) = 1
weight (writing bytes) = 3
weight (sending idx bytes) = 2
weight (sent idx) = 1

unfoldable pub weights : List Handler → ℕ
weights [] = 0
weights (h ∷ hs) = weight h + weights hs

unfoldable pub to_run : SerialPortsManager → List Handler → ℕ
unfolding weights
to_run m hs = weights hs + 2 * length m.write_q

weights-append : (hs gs : List Handler) → weights (hs ++ gs) ≡ weights hs + weights gs
unfolding weights
weights-append [] gs = omega arith
weights-append (h ∷ hs) gs = omega (arith, weights-append hs gs)

limit_q-weights :
    (max : ℕ) (q : List (List ℕ))
    → weights (to_post (limit_q max q).1) + 2 * length (limit_q max q).0 ≤ 2 * length q
unfolding limit_q weights
limit_q-weights max [] = omega arith
limit_q-weights max (m ∷ q) = elim (Bool-cases (ltb max (length (m ∷ q)))) [
  | inl e ↦ rw e (omega arith)
  | inr e ↦ rw e (omega arith)
]

write_with-weights :
    (bytes : List ℕ) (idle : List ℕ) (m : SerialPortsManager)
    → let r = write_with bytes idle m in
      weights (to_post r.1) + 2 * length r.0.write_q < 3 + 2 * length m.write_q
unfolding write_with weights
write_with-weights bytes (idx ∷ idle) m = omega arith
write_with-weights bytes [] m = omega (
  arith,
  limit_q-weights m.max_write_q_sz (m.write_q ++ bytes ∷ []),
  length-append m.write_q (bytes ∷ []),
)

write_done_with-weights :
    (idx : ℕ) (q : List (List ℕ)) (m : SerialPortsManager)
    → let r = write_done_with idx q m in
      weights (to_post r.1) + 2 * length r.0.write_q < 1 + 2 * length q
unfolding write_done_with weights
write_done_with-weights idx [] m = omega arith
write_done_with-weights idx (b ∷ q) m = omega arith

run_handler-weights :
    (h : Handler) (m : SerialPortsManager)
    → to_run (run_handler true h m).0 (run_handler true h m).1 < weight h + 2 * length m.write_q
unfolding run_handler to_run write write_done weights
run_handler-weights (starting i) m = omega arith
run_handler-weights (reading i) m = omega arith
run_handler-weights (stopping i) m = omega arith
run_handler-weights (writing bytes) m = write_with-weights bytes m.idle_port_idx_q m
run_handler-weights (sending idx bytes) m = omega arith
run_handler-weights (sent idx) m = write_done_with-weights idx m.write_q m

poll_with-weights :
    (k : ℕ) (hs : List Handler) (m : SerialPortsManager)
    → k < length hs
    → let r = poll_with k true hs m in to_run r.0 r.1 < to_run m hs
unfolding poll_with to_run weights
poll_with-weights k [] m l = ground arith
poll_with-weights zero (h ∷ hs) m l =
    omega (arith, run_handler-weights h m, weights-append hs (run_handler true h m).1)
poll_with-weights (suc k) (h ∷ hs) m l = omega (arith, poll_with-weights k hs m (omega arith))

none_left : (hs : List Handler) → is_none_left hs ≡ true → hs ≡ []
none_left [] e = refl
none_left (h ∷ hs) e = ground arith

weight-positive : (h : Handler) → 1 ≤ weight h
weight-positive (starting i) = omega arith
weight-positive (reading i) = omega arith
weight-positive (stopping i) = omega arith
weight-positive (writing bytes) = omega arith
weight-positive (sending i bytes) = omega arith
weight-positive (sent i) = omega arith

nothing_to_run : (m : SerialPortsManager) (hs : List Handler) → to_run m hs ≤ 0 → hs ≡ []
unfolding to_run weights
nothing_to_run m [] l = refl
nothing_to_run m (h ∷ hs) l = absurd (omega (arith, weight-positive h, l))

-- While the context runs, a handler is ready in each turn and every read fails, as after `Stop`: the
-- destructor returns after at most `to_run` turns, which are one, two or three for each outstanding
-- handler, by its kind, and two for each message that waits, and no handler is outstanding then.
pub destroy-returns :
    (turns : List Turn) (s : Ports)
    → AllRun turns s
    → to_run s.manager s.handlers ≤ length turns
    → (after : Ports) × (destroy turns s ≡ some after) × (after.handlers ≡ [])
unfolding destroy AllRun poll_one
destroy-returns [] s v l =
    let empty = nothing_to_run s.manager s.handlers l in (s, rw empty refl, empty)
destroy-returns (t ∷ turns) s (a, b, c, v) l = elim (Bool-cases (is_none_left s.handlers)) [
  | inl e ↦ (s, rw e refl, none_left s.handlers e)
  | inr e ↦
      let less = poll_with-weights t.place s.handlers s.manager (c e) in
      let rest =
        destroy-returns turns (poll_one t.place t.err s) v (rw b (omega (arith, less, l))) in
      (rest.0, rw (e, a) rest.1, rest.2)
]

-- A read is outstanding.
abbrev is_reading : Handler → Bool
is_reading (starting i) = false
is_reading (reading i) = true
is_reading (stopping i) = false
is_reading (writing bytes) = false
is_reading (sending i bytes) = false
is_reading (sent i) = false

unfoldable pub has_reading : List Handler → Bool
has_reading [] = false
has_reading (h ∷ hs) = is_reading h || has_reading hs

-- Each turn finds the context running, and no read fails.
unfoldable pub AllReading : List Turn → Type 0
AllReading [] = Unit
AllReading (t ∷ turns) = (t.stopped ≡ false) × (t.err ≡ false) × AllReading turns

has_reading-append :
    (hs gs : List Handler) → has_reading (hs ++ gs) ≡ (has_reading hs || has_reading gs)
unfolding has_reading
has_reading-append [] gs = refl
has_reading-append (h ∷ hs) gs = ground (arith, has_reading-append hs gs)

run_handler-reading :
    (h : Handler) (m : SerialPortsManager)
    → is_reading h ≡ true
    → has_reading (run_handler false h m).1 ≡ true
unfolding run_handler has_reading
run_handler-reading (starting i) m e = refl
run_handler-reading (reading i) m e = refl
run_handler-reading (stopping i) m e = ground arith
run_handler-reading (writing bytes) m e = ground arith
run_handler-reading (sending i bytes) m e = ground arith
run_handler-reading (sent i) m e = ground arith

poll_with-reading :
    (k : ℕ) (hs : List Handler) (m : SerialPortsManager)
    → has_reading hs ≡ true
    → has_reading (poll_with k false hs m).1 ≡ true
unfolding poll_with has_reading
poll_with-reading k [] m e = ground arith
poll_with-reading zero (h ∷ hs) m e =
    let split = has_reading-append hs (run_handler false h m).1 in
    ground (arith, split, run_handler-reading h m)
poll_with-reading (suc k) (h ∷ hs) m e = ground (arith, poll_with-reading k hs m)

some_left : (hs : List Handler) → has_reading hs ≡ true → is_none_left hs ≡ false
unfolding has_reading
some_left [] e = ground arith
some_left (h ∷ hs) e = refl

-- Without `Stop`: while the context runs, a read is outstanding and no read fails, the destructor does
-- not return, whatever handlers run.
pub destroy-waits :
    (turns : List Turn) (s : Ports)
    → AllReading turns
    → has_reading s.handlers ≡ true
    → destroy turns s ≡ none
unfolding destroy AllReading poll_one
destroy-waits [] s v h = rw (some_left s.handlers h) refl
destroy-waits (t ∷ turns) s (a, b, v) h =
    let again = poll_with-reading t.place s.handlers s.manager h in
    rw (some_left s.handlers h, a) (destroy-waits turns (poll_one t.place t.err s) v (rw b again))

-- ===== src/ProtoConv/Serial/Tests.antt =====
-- src/ProtoConv/SerialPortsManager.cpp: runs of the write queue and of `Start`.
use mini_plex.Base.{
  ℕ, ◌≡◌, refl, Bool, List, [], ◌∷◌, ◌++◌, ◌==◌, length, ltb, true, false, some, arith,
}
use mini_plex.ProtoConv.Serial.{
  new_manager, write, write_with, write_done, write_done_with, limit_q, started, dropped, indices,
}
use mini_plex.ProtoConv.Serial.Queue.{
  Writing, after_write, Reach, here, next, arrives, initially, IsScheduled,
}
use mini_plex.ProtoConv.Serial.Scheduled.{Reach-IsScheduled}
use mini_plex.ProtoConv.Serial.Live.{end_all, started_on, waiting_written}
use mini_plex.ProtoConv.Serial.Settings.{default_settings, SerialDeviceSettings}
use mini_plex.ProtoConv.Serial.Opening.{Setting, start, startable, ports_read, start-ports}
use mini_plex.ProtoConv.Serial.Lifetime.{
  reading, stopping, writing, Ports, run_handler, poll_with, poll_one, Turn, destroy, AllRun,
}
use mini_plex.ProtoConv.Serial.Returns.{to_run, weights, destroy-returns}

-- Two ports and five messages: two are written at once, one is dropped, and two wait.
abbrev two_wait : Writing
two_wait = after_write (5 ∷ []) (
    after_write (4 ∷ [])
      (after_write (3 ∷ []) (after_write (2 ∷ []) (after_write (1 ∷ []) (initially 2 2)))))

two_wait-left :
    (two_wait.left ≡ started 0 (1 ∷ []) ∷ started 1 (2 ∷ []) ∷ dropped (3 ∷ []) ∷ [])
    × (two_wait.manager.write_q ≡ (4 ∷ []) ∷ (5 ∷ []) ∷ [])
unfolding initially new_manager after_write write write_with limit_q
two_wait-left = (refl, refl)

two_wait-Reach : Reach (initially 2 2) two_wait
two_wait-Reach =
    next
      (next (next (next (next here (arrives (1 ∷ []))) (arrives (2 ∷ []))) (arrives (3 ∷ [])))
        (arrives (4 ∷ [])))
      (arrives (5 ∷ []))

Reach-IsScheduled_example : IsScheduled 2 2 two_wait
Reach-IsScheduled_example = Reach-IsScheduled 2 2 two_wait-Reach

waiting_written_example :
    Reach two_wait (end_all (1 ∷ 0 ∷ []) two_wait)
    × ((end_all (1 ∷ 0 ∷ []) two_wait).manager.write_q ≡ [])
    × ((end_all (1 ∷ 0 ∷ []) two_wait).left
        ≡ two_wait.left ++ started_on (1 ∷ 0 ∷ []) two_wait.manager.write_q)
waiting_written_example =
    waiting_written 2 2 (1 ∷ 0 ∷ []) two_wait-Reach refl
      (unfold initially new_manager after_write write write_with limit_q in refl)

-- The second of three ports refuses every setting.
abbrev second_refuses : ℕ → Setting → Bool
second_refuses i x = i == 1

abbrev three : List SerialDeviceSettings
three = default_settings ∷ default_settings ∷ default_settings ∷ []

start-ports_example :
    (ports_read (start second_refuses 0 three).0 ≡ indices 0 (startable second_refuses 0 three))
    × ((start second_refuses 0 three).1 ≡ ltb (startable second_refuses 0 three) (length three))
start-ports_example = start-ports second_refuses 0 three

second_refuses-startable : startable second_refuses 0 three ≡ 1
second_refuses-startable = refl

-- `Stop` has posted its function, and a message is to be written, while a read is outstanding.
abbrev stopped_ports : Ports
stopped_ports = record {
  manager = new_manager 1 4;
  handlers = reading 0 ∷ stopping 0 ∷ writing (7 ∷ []) ∷ [];
}

abbrev turn : ℕ → Turn
turn k = record { stopped = false; place = k; err = true }

abbrev last_turns : List Turn
last_turns = turn 1 ∷ turn 0 ∷ turn 0 ∷ turn 0 ∷ turn 0 ∷ []

destroy-returns_example :
    (after : Ports) × (destroy last_turns stopped_ports ≡ some after) × (after.handlers ≡ [])
unfolding AllRun poll_one poll_with run_handler write write_with write_done write_done_with
    new_manager to_run weights
destroy-returns_example =
    destroy-returns last_turns stopped_ports
      (
        refl,
        refl,
        (λ e. omega arith),
        (
          refl,
          refl,
          (λ e. omega arith),
          (
            refl,
            refl,
            (λ e. omega arith),
            (refl, refl, (λ e. omega arith), (refl, refl, (λ e. omega arith), tt)),
          ),
        ),
      )
      (omega arith)

-- ===== src/ProtoConv/Reorder/Tests.antt =====
-- src/ProtoConv/DelimFragHandler.h: runs with a few frames.
use mathlib.Core.List.{Perm}
use mathlib.Core.List.Perm
use mini_plex.ProtoConv.Reorder.Restoring.{AllTimely, frames_of}
use mini_plex.ProtoConv.Reorder.Restored.{handle_all-IsRun}
use mini_plex.Base.{◌^◌, ◌-◌, ◌≡◌, refl, true, List, [], ◌∷◌, ◌++◌, ℕ, ◌≤◌, length, map, arith}
use mini_plex.ProtoConv.{Frame}
use mini_plex.ProtoConv.Reorder.{
  DelimFragHandler, new_handler, handle_all, handle_frame, release, emplace, frame_cmp, drain,
  start_seq, note_top, is_stuck, strip,
}
use mini_plex.ProtoConv.Reorder.Conserved.{AllWords, handle_all-Perm, handle_all-bound}
use mini_plex.ProtoConv.Reorder.Late.{late_frame_blocks}
use mini_plex.ProtoConv.Reorder.Sequence.{AllFramed, IsRun, Released, handle_frame-Released}

-- A frame of one byte and a trailer.
abbrev numbered : ℕ → Frame
numbered n = record { buf = n ∷ []; len = 11; fir = true; fin = true; flow = 1; seq = n }

abbrev swapped : List (ℕ × Frame)
swapped = (0, numbered 1) ∷ (1, numbered 0) ∷ []

-- Frames in the wrong order are written in sequence.
swapped_writes :
    (handle_all swapped (new_handler 10 100 0)).1 ≡ strip (numbered 0) ∷ strip (numbered 1) ∷ []
unfolding new_handler handle_all handle_frame release emplace frame_cmp drain start_seq note_top
    is_stuck
swapped_writes = refl

handle_all-Perm_example :
    Perm
      ((handle_all swapped (new_handler 10 100 0)).1
        ++ map strip (handle_all swapped (new_handler 10 100 0)).0.frame_q)
      (strip (numbered 1) ∷ strip (numbered 0) ∷ [])
unfolding new_handler
handle_all-Perm_example = handle_all-Perm swapped (new_handler 10 100 0)

handle_all-bound_example : length (handle_all swapped (new_handler 10 100 0)).0.frame_q ≤ 10
unfolding AllWords
handle_all-bound_example = handle_all-bound 10 100 0 swapped (omega arith, (omega arith, tt))

handle_frame-Released_example :
    Released 3
      (emplace (numbered 0) [])
      (new_handler 10 100 0)
      (handle_frame 3 (numbered 0) (new_handler 10 100 0)).0
      (handle_frame 3 (numbered 0) (new_handler 10 100 0)).1
unfolding new_handler
handle_frame-Released_example = handle_frame-Released 3 (numbered 0) (new_handler 10 100 0) refl

-- A run that wraps around, in the wrong order.
abbrev wrapping : DelimFragHandler
wrapping = record (new_handler 10 100 0) { expected_seq = 2 ^ 32 - 1; last_top_seq = 2 ^ 32 - 2 }

abbrev shuffled : List (ℕ × Frame)
shuffled = (7, numbered 1) ∷ (8, numbered 0) ∷ (9, numbered (2 ^ 32 - 1)) ∷ []

abbrev restored : List Frame
restored = numbered (2 ^ 32 - 1) ∷ numbered 0 ∷ numbered 1 ∷ []

shuffled-restored : Perm (frames_of shuffled) restored
shuffled-restored =
    Perm.trans (Perm.cons (numbered 1) (Perm.swap (numbered (2 ^ 32 - 1)) (numbered 0) [])) (
      Perm.trans (Perm.swap (numbered (2 ^ 32 - 1)) (numbered 1) (numbered 0 ∷ []))
        (Perm.cons (numbered (2 ^ 32 - 1)) (Perm.swap (numbered 0) (numbered 1) [])))

handle_all-IsRun_example :
    ((handle_all shuffled wrapping).1 ≡ map strip restored)
    × ((handle_all shuffled wrapping).0.frame_q ≡ [])
    × ((handle_all shuffled wrapping).0.expected_seq ≡ 2)
unfolding new_handler AllFramed IsRun AllTimely
handle_all-IsRun_example =
    handle_all-IsRun shuffled restored 2 7 wrapping refl (omega arith) (refl, (refl, (refl, tt)))
      (refl, (refl, (refl, refl))) shuffled-restored (omega arith) (omega arith)
      (omega arith, omega arith, (omega arith, omega arith, (omega arith, omega arith, tt)))
      (omega arith)

-- The handler expects frame 5.
abbrev expecting : DelimFragHandler
expecting = record (new_handler 10 100 0) { expected_seq = 5 }

late_frame_blocks_example :
    ((handle_all ((1, numbered 3) ∷ (2, numbered 5) ∷ []) expecting).1 ≡ [])
    × ((handle_all ((1, numbered 3) ∷ (2, numbered 5) ∷ []) expecting).0.frame_q
        ≡ numbered 3 ∷ numbered 5 ∷ [])
    × ((handle_all ((1, numbered 3) ∷ (2, numbered 5) ∷ []) expecting).0.expected_seq ≡ 5)
unfolding new_handler
late_frame_blocks_example =
    late_frame_blocks (numbered 3) (numbered 5) 1 2 expecting refl refl refl (omega arith)
      (omega arith) (omega arith) refl (omega arith) (omega arith) (omega arith) (omega arith)

-- ===== src/ProtoConv/Reorder/Restored.antt =====
-- src/ProtoConv/DelimFragHandler.h: frames of a run that arrive in any order.
use mathlib.Core.List.{Perm}
use mini_plex.Base.{ℕ, ◌+◌, ◌-◌, ◌%◌, ◌≤◌, ◌<◌, ◌^◌, ◌≡◌, refl, inl, List, [], map, length, arith}
use native.Mathlib.Bridge.{le_prop}
use native.Mathlib.Nat.{le_refl}
use mini_plex.Base.Every.{Every, Every-Perm}
use mini_plex.Base.Placing.{Apart-Perm, Clear-nil, Increasing-Apart, place_all-Perm}
use mini_plex.ProtoConv.{Frame, Frame_set}
use mini_plex.ProtoConv.Reorder.{DelimFragHandler, strip, handle_all}
use mini_plex.ProtoConv.Reorder.Circular.{offset, IsWithin}
use mini_plex.ProtoConv.Reorder.InTime.{IsTimely}
use mini_plex.ProtoConv.Reorder.Restoring.{AllTimely, frames_of, zeroth, handle_all-IsRestoring}
use mini_plex.ProtoConv.Reorder.Runs.{run-Every, run-Increasing}
use mini_plex.ProtoConv.Reorder.Sequence.{IsRun, IsBlocked, AllFramed}

IsWithin-prop : (e n : ℕ) (f : Frame) → IsProp (IsWithin e n f)
IsWithin-prop e n f =
    let inside : IsProp (offset e f < n) = le_prop in
    let word : IsProp (f.seq < 2 ^ 32) = le_prop in hlevel

-- While no frame waits: the frames of a run of sequence numbers from `expected_seq` on, which may wrap
-- around, in any order of arrival, are all written, stripped, in the order of the run; none waits
-- after them, and `expected_seq` is the next number. They are at most `SeqMaxQ` and fewer than 2 ^ 31,
-- arrive within `SeqMaxTms` after a time `from`, and the last top was not one of their numbers.
pub handle_all-IsRun :
    (fs : List (ℕ × Frame)) (run : List Frame) (next from : ℕ) (s : DelimFragHandler)
    → s.frame_q ≡ []
    → s.expected_seq < 2 ^ 32
    → AllFramed fs
    → IsRun s.expected_seq run next
    → Perm (frames_of fs) run
    → length run ≤ s.seq_max_q
    → length run ≤ 0x7fffffff
    → AllTimely from s.seq_max_tms fs
    → length run ≤ (s.last_top_seq + 2 ^ 32 - s.expected_seq) % 2 ^ 32
    → ((handle_all fs s).1 ≡ map strip run)
      × ((handle_all fs s).0.frame_q ≡ [])
      × ((handle_all fs s).0.expected_seq ≡ next)
unfolding IsRun IsBlocked Every IsTimely
handle_all-IsRun fs run next from s q word framed r p room window times top =
    let e = s.expected_seq in
    let n = length run in
    let run₀ = zeroth e n word window from run next r in
    let rising = run-Increasing e n word window 0 next run (omega arith) run₀ in
    handle_all-IsRestoring e n word window from fs [] run next s
      (record {
        sent = refl;
        blocked = rw q tt;
        waiting = rw q tt;
        coming =
            Every-Perm (IsWithin e n) (IsWithin-prop e n) (frames_of fs) run p
              (run-Every e n word window 0 next run (omega arith) run₀);
        framed = framed;
        apart =
            Apart-Perm (offset e) (frames_of fs) run p (Increasing-Apart (offset e) 0 run rising);
        clear = rw q (Clear-nil (offset e) (frames_of fs));
        all = rw q (place_all-Perm (offset e) Frame_set 0 (frames_of fs) run p rising);
        room = room;
        short = le_refl n;
        times = times;
        timely = inl top;
      })
      r

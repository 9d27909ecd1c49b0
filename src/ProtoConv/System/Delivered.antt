-- ===== src/ProtoConv/System/Delivered.antt =====
-- src/ProtoConv/ProtoConv.cpp with a delimiter: datagrams that arrive in any order and in any reads.
use mathlib.Core.List.{Perm}
use mathlib.Core.List.Perm
use mini_plex.Base.{
  ℕ, ◌+◌, ◌-◌, ◌≤◌, ◌<◌, ◌%◌, ◌^◌, ◌≡◌, ◌≢◌, ap, ◌∙◌, true, List, [], ◌∷◌, map, length,
}
use mini_plex.Base.Every.{Every, Every-Perm}
use mini_plex.ProtoConv.Construct.{delim_framing}
use mini_plex.ProtoConv.Delim.{delim_checker}
use mini_plex.ProtoConv.Reorder.{DelimFragHandler, handle_all, is_framed}
use mini_plex.ProtoConv.Reorder.Restoring.{frames_of}
use mini_plex.ProtoConv.Reorder.Restored.{handle_all-IsRun}
use mini_plex.ProtoConv.Stream.Reads.{Sent, IsFound, joined, delivered, bytes_of, rcv_all-Sent}
use mini_plex.ProtoConv.System.{rcv_streams}
use mini_plex.ProtoConv.System.Datagrams.{
  sent_datagrams, sent_datagrams-AllFound, after_all, sent_datagrams-IsRun, sent_datagrams-datagram,
  IsQueued, sent_datagrams-IsQueued, length-sent_datagrams,
}
use mini_plex.ProtoConv.System.Messages.{read_bytes, IsFound-prop}
use mini_plex.ProtoConv.System.Timed.{
  timed, AllReads, rcv_streams-timed, frames_of-timed, timed-AllTimely, frames_of-AllFramed,
}
use mini_plex.ProtoConv.Through.{datagram}
use mini_plex.ProtoConv.Wire.{AllClean}

Every-delivered :
    (delim : ℕ) (nz : delim ≢ 0) (ss : List Sent)
    → Every (IsQueued delim nz) ss
    → Every (λ f. is_framed f ≡ true) (map delivered ss)
unfolding Every
Every-delivered delim nz [] v = tt
Every-delivered delim nz (s ∷ ss) (h, v) = (h, Every-delivered delim nz ss v)

-- With a delimiter that is not 0: datagrams of at most 65,526 bytes, none with a valid trailer that
-- begins in its own bytes, which a sender numbers from `expected_seq` on, and which arrive on the
-- stream in any order and in any reads, while no frame waits. They are at most `SeqMaxQ` and fewer
-- than 2 ^ 31, the reads are within `SeqMaxTms` of a time `from`, and the last top was not one of
-- their numbers. Then exactly these datagrams are written to UDP, without their trailers and in the
-- order of the sender, no byte stays in the stream's buffer, and no frame waits.
pub rcv_streams-datagrams :
    (delim from : ℕ) (ds : List (List ℕ)) (arrival : List Sent)
    → (chunks : List (ℕ × List ℕ)) (s : DelimFragHandler) → delim ≢ 0
    → s.expected_seq < 2 ^ 32
    → AllClean delim s.expected_seq ds
    → Perm arrival (sent_datagrams delim s.expected_seq ds)
    → bytes_of (read_bytes chunks) ≡ joined arrival
    → s.frame_q ≡ []
    → length ds ≤ s.seq_max_q
    → length ds ≤ 0x7fffffff
    → AllReads from s.seq_max_tms chunks
    → length ds ≤ (s.last_top_seq + 2 ^ 32 - s.expected_seq) % 2 ^ 32
    → let r = rcv_streams chunks [] (delim_framing delim s) in
      (t : DelimFragHandler) × (r.0 ≡ delim_framing delim t)
      × (t.frame_q ≡ [])
      × (r.1.0 ≡ [])
      × (map datagram r.1.1 ≡ ds)
rcv_streams-datagrams delim from ds arrival chunks s nz word clean p b q room window times top =
    let sent = sent_datagrams delim s.expected_seq ds in
    let all =
      Every-Perm (IsFound (delim_checker delim)) (IsFound-prop (delim_checker delim)) arrival sent p
        (sent_datagrams-AllFound delim nz s.expected_seq ds word clean) in
    let queued =
      Every-Perm (IsQueued delim nz) (λ x. hlevel) arrival sent p
        (sent_datagrams-IsQueued delim nz s.expected_seq ds) in
    let found = rcv_all-Sent (delim_checker delim) (read_bytes chunks) arrival all b in
    let frames : frames_of (timed delim chunks []) ≡ map delivered arrival =
      frames_of-timed delim chunks [] ∙ ap (λ r. r.0) found in
    let size = length-sent_datagrams delim nz s.expected_seq ds in
    let restored =
      handle_all-IsRun (timed delim chunks []) (map delivered sent)
        (after_all delim nz s.expected_seq ds) from s q word
        (frames_of-AllFramed (timed delim chunks [])
          (rw frames (Every-delivered delim nz arrival queued)))
        (sent_datagrams-IsRun delim nz s.expected_seq ds) (rw frames (Perm.map delivered p))
        (rw size room) (rw size window) (timed-AllTimely delim from s.seq_max_tms chunks [] times)
        (rw size top) in
    let whole = rcv_streams-timed delim chunks [] s in
    (
      (handle_all (timed delim chunks []) s).0,
      ap (λ r. r.0) whole,
      restored.1,
      ap (λ r. r.1.0) whole ∙ ap (λ r. r.1) found,
      ap (λ r. map datagram r.1.1) whole
          ∙ ap (map datagram) restored.0
          ∙ sent_datagrams-datagram delim nz s.expected_seq ds,
    )

-- ===== src/ProtoConv/Dnp3/Tests.antt =====
-- src/ProtoConv/DNP3FrameChecker.cpp: runs on short buffers.
use mini_plex.Base.{◌≡◌, ◌≢◌, ◌<◌, refl, none, List, [], ◌∷◌, ℕ, take, drop, arith}
use mini_plex.ProtoConv.Dnp3.{
  start_bytes_offset, scan_start, crc_check, crc_loop, crc_step, dnp3_check_frame, check_blocks,
  check_body, crc_checked_length, full_length,
}
use mini_plex.ProtoConv.Dnp3.Starts.{MayStart, start_bytes_offset-MayStart}
use mini_plex.ProtoConv.Dnp3.Lengths.{check_blocks-enough, short_header_stalls}
use mini_plex.ProtoConv.{frame}
use mini_plex.ProtoConv.Dnp3.Encode.{fragment, link_frame}
use mini_plex.ProtoConv.Dnp3.RoundTrip.{dnp3_check_frame-fragment}
use mini_plex.ProtoConv.Dnp3.Lengths.{dnp3_checker}
use mini_plex.ProtoConv.Dnp3.Arriving.{
  sent_fragment, sent_fragment-IsFound, sent_link, sent_link-IsFound,
}
use mini_plex.ProtoConv.Stream.Reads.{Sent, joined, delivered, bytes_of, rcv_all, rcv_all-Sent}
use mini_plex.Base.Every.{Every}
use mini_plex.Base.{true, false, length, map, ◌++◌}

-- A header with the length byte 5, and its CRC.
abbrev header : List ℕ
header = 0x05 ∷ 0x64 ∷ 5 ∷ 0xc4 ∷ 1 ∷ 0 ∷ 2 ∷ 0 ∷ 0x6c ∷ 0x6f ∷ []

header_frame : (dnp3_check_frame header).len ≡ 10
unfolding dnp3_check_frame start_bytes_offset scan_start crc_checked_length crc_check crc_loop
    crc_step full_length check_body check_blocks
header_frame = refl

-- A header with the length byte 2, and its CRC.
abbrev short_header : List ℕ
short_header = 0x05 ∷ 0x64 ∷ 2 ∷ 0xc4 ∷ 1 ∷ 0 ∷ 2 ∷ 0 ∷ 0x52 ∷ 0xb1 ∷ []

short_header_stalls_example : (dnp3_check_frame short_header).len ≡ 0
unfolding start_bytes_offset scan_start crc_check crc_loop crc_step
short_header_stalls_example = short_header_stalls short_header refl refl (omega arith) (omega arith)

-- A false start, and a last byte that may be the first start byte.
abbrev cut_start : List ℕ
cut_start = 7 ∷ 5 ∷ 9 ∷ 5 ∷ []

start_bytes_offset-MayStart_example :
    MayStart (5 ∷ []) × ((j : ℕ) → j < 3 → ¬ MayStart (drop j cut_start))
unfolding start_bytes_offset scan_start
start_bytes_offset-MayStart_example = start_bytes_offset-MayStart cut_start

header_fuel : check_blocks 13 10 13 header ≢ none
header_fuel = check_blocks-enough 13 10 13 header (omega arith) (omega arith)

-- Seventeen bytes of user data take two blocks.
abbrev app : List ℕ
app = 0xc0 ∷ 1 ∷ 60 ∷ 2 ∷ 6 ∷ 60 ∷ 3 ∷ 6 ∷ 60 ∷ 4 ∷ 6 ∷ 60 ∷ 1 ∷ 6 ∷ 9 ∷ 9 ∷ []

fragment_bytes : length (fragment 0xc4 1 2 true false 5 app) ≡ 31
unfolding link_frame
fragment_bytes = refl

dnp3_check_frame-fragment_example :
    dnp3_check_frame (fragment 0xc4 1 2 true false 5 app ++ 7 ∷ 7 ∷ [])
    ≡ frame (length (fragment 0xc4 1 2 true false 5 app)) true false 0x20001 5
dnp3_check_frame-fragment_example =
    dnp3_check_frame-fragment 0xc4 1 2 true false 5 app (7 ∷ 7 ∷ []) (omega arith) (omega arith)
      (omega arith) (omega arith)

-- A link frame and a fragment, in reads that end within each.
abbrev both : List Sent
both = sent_link 0xc9 1 2 ∷ sent_fragment 0xc4 1 2 true false 5 app ∷ []

abbrev three_reads : List (List ℕ)
three_reads =
    take 4 (joined both) ∷ take 20 (drop 4 (joined both)) ∷ drop 20 (drop 4 (joined both)) ∷ []

three_reads_frames : rcv_all dnp3_checker three_reads [] ≡ (map delivered both, [])
unfolding Every joined link_frame bytes_of
three_reads_frames =
    rcv_all-Sent dnp3_checker three_reads both
      (
        sent_link-IsFound 0xc9 1 2 (omega arith) (omega arith),
        (
          sent_fragment-IsFound 0xc4 1 2 true false 5 app (omega arith) (omega arith) (omega arith)
              (omega arith),
          tt,
        ),
      )
      refl

-- ===== src/ProtoConv/Dnp3.antt =====
-- src/ProtoConv/DNP3FrameChecker.cpp: frames of the data link layer of DNP3 in a byte stream.
-- A `size_t` has 64 bits, and buffers are shorter than 2 ^ 64 bytes.
pub mod Table
pub mod Starts
pub mod Lengths
pub mod Encode
pub mod Blocks
pub mod Transport
pub mod RoundTrip
pub mod Arriving
mod Tests
use Prim.Native.Nat.{bit_and, bit_xor}
use mini_plex.Base.{
  ℕ, zero, suc, ◌+◌, ◌-◌, ◌*◌, ◌/◌, ◌%◌, ◌^◌, Bool, true, false, not, ◌&&◌, List, [], ◌∷◌, length,
  ◌==◌, ltb, leb, drop, get_or, if◌then◌else◌, Option, none, some,
}
use mini_plex.ProtoConv.{Frame, frame, frame_of}
use mini_plex.ProtoConv.Dnp3.Table.{crc_look_up_table}

-- The loop of `StartBytesOffset`, with `num_unframed_bytes` and `prev_byte` after it.
unfoldable pub scan_start : ℕ → ℕ → List ℕ → ℕ × ℕ
scan_start prev_byte n [] = (n, prev_byte)
scan_start prev_byte n (byte ∷ bytes) =
    let next = scan_start byte (suc n) bytes in
    if prev_byte == 0x05 && byte == 0x64 then (n, prev_byte) else next

-- `StartBytesOffset`
unfoldable pub start_bytes_offset : List ℕ → ℕ
unfolding scan_start
start_bytes_offset readbuf = let r = scan_start 0 0 readbuf in if r.1 == 0x05 then r.0 - 1 else r.0

-- The step of the CRC for one byte.
unfoldable pub crc_step : ℕ → ℕ → ℕ
crc_step crc byte =
    bit_xor (get_or crc_look_up_table (bit_and (bit_xor crc byte) 0xff) 0) (crc / 2 ^ 8)

-- The loop of `CRCCheck` at index `i`; `at` is the index of the byte to return.
unfoldable pub crc_loop : ℕ → ℕ → ℕ → ℕ → ℕ → List ℕ → Bool × ℕ
unfolding crc_step
crc_loop n at i crc return_byte [] = (true, return_byte)
crc_loop n at i crc return_byte (byte ∷ bytes) =
    let crc₁ = crc_step crc byte in
    let crc₂ = if ltb i n then if i == n - 1 then 0xffff - crc₁ else crc₁ else crc in
    let byte₂ = if ltb i n && i == at then byte else return_byte in
    let next = crc_loop n at (suc i) crc₂ byte₂ bytes in
    if ltb (n + 1) i
    then (true, return_byte)
    else if i == n && not (byte == bit_and crc 0xff)
    then (false, 0)
    else if i == n + 1 && not (byte == crc / 2 ^ 8)
    then (false, 0)
    else next

-- `CRCCheck`
unfoldable pub crc_check : List ℕ → ℕ → ℕ → ℕ → Bool × ℕ
unfolding crc_loop
crc_check readbuf start_offset n return_offset =
    if ltb (length readbuf) (start_offset + n + 2)
    then (false, 0)
    else crc_loop n ((return_offset + 2 ^ 64 - start_offset) % 2 ^ 64) 0 0 0
        (drop start_offset readbuf)

-- The sum of `CRCCheckedLength` for the length byte of a header.
unfoldable pub full_length : ℕ → ℕ
full_length len =
    let user_data = (len + 2 ^ 64 - 5) % 2 ^ 64 in
    (len + (5 + 2 * (user_data / 16) + (if user_data % 16 == 0 then 0 else 2))) % 2 ^ 64

-- `CRCCheckedLength`
unfoldable pub crc_checked_length : List ℕ → ℕ
unfolding crc_check full_length
crc_checked_length readbuf =
    let good_n_len = crc_check readbuf 0 8 2 in if good_n_len.0 then full_length good_n_len.1 else 0

-- `src_dst`
abbrev pub src_dst : List ℕ → ℕ
src_dst buf =
    get_or buf 7 0 * 2 ^ 24 + get_or buf 6 0 * 2 ^ 16 + get_or buf 5 0 * 2 ^ 8 + get_or buf 4 0

-- The loop over the blocks: `GoodCRCs` and `start_offset` after it.
unfoldable pub check_blocks : ℕ → ℕ → ℕ → List ℕ → Option (Bool × ℕ)
check_blocks zero start_offset len readbuf = none
check_blocks (suc fuel) start_offset len readbuf =
    let n = if leb 18 (len - start_offset) then 16 else len - start_offset - 2 in
    let good = (crc_check readbuf start_offset n 0).0 in
    let next = check_blocks fuel (start_offset + 18) len readbuf in
    if good && ltb (start_offset + 18) len then next else some (good, start_offset + 18)

-- What `CheckFrame` returns for a frame of `len` bytes with a good header, after the blocks.
unfoldable pub blocks_frame : ℕ → List ℕ → Option (Bool × ℕ) → Frame
blocks_frame len readbuf none = frame_of 0
blocks_frame len readbuf (some (false, start_offset)) = frame_of (start_offset - 18)
blocks_frame len readbuf (some (true, start_offset)) =
    let tx_ctl_byte = get_or readbuf 10 0 in
    frame len (not (bit_and tx_ctl_byte 0x40 == 0)) (not (bit_and tx_ctl_byte 0x80 == 0))
      (src_dst readbuf) (bit_and tx_ctl_byte 0x3f)

-- `CheckFrame` from the header's CRC on, for the length of the frame, 0 if the CRC is wrong. A block
-- is 18 bytes, so `len` is enough fuel.
unfoldable pub check_body : ℕ → List ℕ → Frame
unfolding check_blocks blocks_frame
check_body len readbuf =
    if len == 0
    then frame_of 2
    else if ltb (length readbuf) len
    then frame_of 0
    else if len == 10
    then frame len true true (src_dst readbuf) 0
    else blocks_frame len readbuf (check_blocks len 10 len readbuf)

-- `DNP3FrameChecker::CheckFrame`
unfoldable pub dnp3_check_frame : List ℕ → Frame
unfolding start_bytes_offset crc_checked_length check_body
dnp3_check_frame readbuf =
    let num_unframed_bytes = start_bytes_offset readbuf in
    if ltb (length readbuf) 1
    then frame_of 0
    else if not (num_unframed_bytes == 0)
    then frame_of num_unframed_bytes
    else if leb 10 (length readbuf)
    then check_body (crc_checked_length readbuf) readbuf
    else frame_of 0

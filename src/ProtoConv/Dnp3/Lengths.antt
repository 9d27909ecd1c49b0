-- ===== src/ProtoConv/Dnp3/Lengths.antt =====
-- src/ProtoConv/DNP3FrameChecker.cpp: lengths of frames.
use mini_plex.Base.{
  ℕ, zero, suc, ◌+◌, ◌*◌, ◌≤◌, ◌<◌, ◌^◌, ◌≡◌, ◌≢◌, Bool, true, false, List, length, if◌then◌else◌,
  Option, none, some, arith,
}
use mini_plex.ProtoConv.{FrameChecker}
use mini_plex.ProtoConv.Dnp3.Starts.{scan_start-ge}
use mini_plex.ProtoConv.Dnp3.{
  start_bytes_offset, crc_check, full_length, crc_checked_length, check_blocks, check_body,
  blocks_frame, dnp3_check_frame,
}

check_blocks-le :
    (fuel start len n : ℕ) (buf : List ℕ)
    → start ≤ n
    → len ≤ n
    → (blocks_frame len buf (check_blocks fuel start len buf)).len ≤ n
unfolding check_blocks blocks_frame
check_blocks-le zero start len n buf h l = omega arith
check_blocks-le (suc fuel) start len n buf h l =
    ground (arith, check_blocks-le fuel (start + 18) len n buf)

full_length-short : (b : ℕ) → b < 5 → full_length b ≡ 2 ^ 61 + b + 5
unfolding full_length
full_length-short b h = ground arith

check_body-le : (len : ℕ) (buf : List ℕ) → 10 ≤ length buf → (check_body len buf).len ≤ length buf
unfolding check_body
check_body-le len buf l = ground (arith, check_blocks-le len 10 len (length buf) buf)

start_bytes_offset-le : (buf : List ℕ) → start_bytes_offset buf ≤ length buf
unfolding start_bytes_offset
start_bytes_offset-le buf = ground (arith, (scan_start-ge 0 0 buf).1)

pub len-dnp3_check_frame-le : (buf : List ℕ) → (dnp3_check_frame buf).len ≤ length buf
unfolding dnp3_check_frame
len-dnp3_check_frame-le buf =
    ground (arith, start_bytes_offset-le buf, check_body-le (crc_checked_length buf) buf)

-- `DNP3FrameChecker`
abbrev pub dnp3_checker : FrameChecker
dnp3_checker = record {
  check_frame = dnp3_check_frame;
  len-check_frame-le = len-dnp3_check_frame-le;
}

either_some :
    (c : Bool) (x : Option (Bool × ℕ)) (a : Bool × ℕ) → x ≢ none → (if c then x else some a) ≢ none
either_some true x a h e = h e
either_some false x a h e = ground arith

-- The fuel of the loop over blocks is enough.
pub check_blocks-enough :
    (fuel start len : ℕ) (buf : List ℕ)
    → len ≤ start + 18 * fuel
    → 0 < fuel
    → check_blocks fuel start len buf ≢ none
unfolding check_blocks
check_blocks-enough zero start len buf h p = ground arith
check_blocks-enough (suc zero) start len buf h p = ground arith
check_blocks-enough (suc (suc fuel)) start len buf h p =
    either_some _ _ _
      (check_blocks-enough (suc fuel) (start + 18) len buf (omega arith) (omega arith))

-- A header whose CRC is right but whose length byte is less than 5: `CheckFrame` waits for more than
-- 2 ^ 61 bytes, so it finds no frame, however many bytes arrive before.
pub short_header_stalls :
    (buf : List ℕ)
    → start_bytes_offset buf ≡ 0
    → (crc_check buf 0 8 2).0 ≡ true
    → (crc_check buf 0 8 2).1 < 5
    → length buf ≤ 2 ^ 61
    → (dnp3_check_frame buf).len ≡ 0
unfolding dnp3_check_frame crc_checked_length check_body
short_header_stalls buf s good short l =
    let f = full_length-short (crc_check buf 0 8 2).1 short in ground (arith, s, good, f)

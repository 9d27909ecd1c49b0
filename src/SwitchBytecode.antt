-- ===== src/SwitchBytecode.antt =====
-- src/Examples/SwitchBytecode: the programs that Switch mode runs to find the addresses of DNP3.
pub mod Bits
pub mod Agrees
mod Tests
use Prim.Native.Nat.{bit_and, bit_or, bit_xor}
use mini_plex.Base.{
  ℕ, zero, suc, ◌+◌, ◌-◌, ◌*◌, ◌/◌, ◌%◌, ◌^◌, Bool, true, false, not, ◌&&◌, ◌||◌, List, [], ◌∷◌,
  ◌==◌, ltb, length, take, get_or, if◌then◌else◌, Option, none, some,
}

-- The loop of `computeCRC`, so many times. A byte and a CRC have 8 and 16 bits, and no operation
-- makes more of them.
unfoldable pub crc_bit_loop : ℕ → ℕ → ℕ → ℕ
crc_bit_loop zero data_octet crc_accum = crc_accum
crc_bit_loop (suc n) data_octet crc_accum =
    let temp = bit_and (bit_xor crc_accum data_octet) 1 in
    let shifted = crc_accum / 2 in
    crc_bit_loop n (data_octet / 2) (if temp == 0 then shifted else bit_xor shifted 0xa6bc)

-- `computeCRC`
unfoldable pub compute_crc : ℕ → ℕ → ℕ
unfolding crc_bit_loop
compute_crc data_octet crc_accum = crc_bit_loop 8 data_octet crc_accum

-- The loop of `getAddrs` over the first bytes.
unfoldable pub compute_crcs : List ℕ → ℕ → ℕ
unfolding compute_crc
compute_crcs [] crc = crc
compute_crcs (byte ∷ bytes) crc = compute_crcs bytes (compute_crc byte crc)

-- The checks of `getAddrs`.
unfoldable pub is_header : List ℕ → Bool
unfolding compute_crcs
is_header buf =
    let n = length buf in
    let crc = 0xffff - compute_crcs (take 8 buf) 0 in
    if ltb n 10
    then false
    else if ltb n (get_or buf 2 0)
    then false
    else (get_or buf 8 0 == crc % 2 ^ 8) && (get_or buf 9 0 == crc / 2 ^ 8 % 2 ^ 8)

-- `getAddrs` of SwitchDNP3_CRC.c: the source and the destination, or a result that is not 0.
unfoldable pub get_addrs : List ℕ → Option (ℕ × ℕ)
unfolding is_header
get_addrs buf =
    if is_header buf
    then some (
      bit_or (get_or buf 7 0 * 2 ^ 8) (get_or buf 6 0),
      bit_or (get_or buf 5 0 * 2 ^ 8) (get_or buf 4 0),
    )
    else none

-- Four bytes, the first one highest.
abbrev pub four_bytes : ℕ → ℕ → ℕ → ℕ → ℕ
four_bytes a b c d = bit_or (bit_or (bit_or (a * 2 ^ 24) (b * 2 ^ 16)) (c * 2 ^ 8)) d

-- `getAddrs` of SwitchDNP3_CRC_FLOW.c
unfoldable pub get_flows : List ℕ → Option (ℕ × ℕ)
unfolding is_header
get_flows buf =
    if is_header buf
    then some (
      four_bytes (get_or buf 5 0) (get_or buf 4 0) (get_or buf 7 0) (get_or buf 6 0),
      four_bytes (get_or buf 7 0) (get_or buf 6 0) (get_or buf 5 0) (get_or buf 4 0),
    )
    else none

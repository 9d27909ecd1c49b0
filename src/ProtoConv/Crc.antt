-- ===== src/ProtoConv/Crc.antt =====
-- `crc_ccitt` of FrameChecker.h.
use Prim.Native.Nat.{bit_and, bit_xor}
use mini_plex.Base.{
  ℕ, zero, suc, ◌*◌, ◌%◌, ◌^◌, ◌<◌, ◌≡◌, refl, List, [], ◌∷◌, ◌==◌, if◌then◌else◌, arith,
}

-- One round of the inner loop, in 16 bits.
crc_bit : ℕ → ℕ → ℕ
crc_bit poly crc =
    if bit_and crc 0x8000 == 0 then crc * 2 % 2 ^ 16 else bit_xor (crc * 2) poly % 2 ^ 16

crc_bits : ℕ → ℕ → ℕ → ℕ
unfolding crc_bit
crc_bits poly zero crc = crc
crc_bits poly (suc n) crc = crc_bits poly n (crc_bit poly crc)

unfoldable pub crc_ccitt_from : ℕ → List ℕ → ℕ → ℕ
unfolding crc_bits
crc_ccitt_from poly [] crc = crc
crc_ccitt_from poly (b ∷ rest) crc =
    crc_ccitt_from poly rest (crc_bits poly 8 (bit_xor crc (b * 2 ^ 8) % 2 ^ 16))

-- `crc_ccitt` with its default arguments.
unfoldable pub crc_ccitt : List ℕ → ℕ
unfolding crc_ccitt_from
crc_ccitt bytes = crc_ccitt_from 0x1021 bytes 0xffff

crc_bits-lt : (poly n crc : ℕ) → crc < 2 ^ 16 → crc_bits poly n crc < 2 ^ 16
unfolding crc_bits crc_bit
crc_bits-lt poly zero crc h = h
crc_bits-lt poly (suc n) crc h =
    crc_bits-lt poly n (crc_bit poly crc) (unfold crc_bit in ground arith)

crc_ccitt_from-lt :
    (poly : ℕ) (bytes : List ℕ) (crc : ℕ) → crc < 2 ^ 16 → crc_ccitt_from poly bytes crc < 2 ^ 16
unfolding crc_ccitt_from
crc_ccitt_from-lt poly [] crc h = h
crc_ccitt_from-lt poly (b ∷ bytes) crc h =
    crc_ccitt_from-lt poly bytes _ (crc_bits-lt poly 8 _ (omega arith))

pub crc_ccitt-lt : (bytes : List ℕ) → crc_ccitt bytes < 2 ^ 16
unfolding crc_ccitt
crc_ccitt-lt bytes = crc_ccitt_from-lt 0x1021 bytes 0xffff (omega arith)

-- The known check value of CRC-16/CCITT-FALSE, of the text "123456789".
crc_ccitt_check :
    crc_ccitt (0x31 ∷ 0x32 ∷ 0x33 ∷ 0x34 ∷ 0x35 ∷ 0x36 ∷ 0x37 ∷ 0x38 ∷ 0x39 ∷ []) ≡ 0x29b1
unfolding crc_ccitt
crc_ccitt_check = refl

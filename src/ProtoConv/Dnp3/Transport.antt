-- ===== src/ProtoConv/Dnp3/Transport.antt =====
-- src/ProtoConv/DNP3FrameChecker.cpp: the fields of the transport byte.
use Prim.Native.Nat.{bit_and}
use mini_plex.Base.{ℕ, ◌*◌, ◌/◌, ◌%◌, ◌<◌, ◌≡◌, Bool, true, false, not, ◌==◌, arith}
use mini_plex.Base.Xor.{bit_and_step, bit_and_one}
use mini_plex.ProtoConv.Dnp3.Encode.{transport_byte}

and_seven : (a : ℕ) → bit_and a 7 ≡ a % 8
and_seven a = omega (arith, bit_and_step a 7, bit_and_step (a / 2) 3, bit_and_one (a / 2 / 2))

and_low : (a : ℕ) → bit_and a 0x3f ≡ a % 64
and_low a = omega (
  arith,
  bit_and_step a 63,
  bit_and_step (a / 2) 31,
  bit_and_step (a / 2 / 2) 15,
  and_seven (a / 2 / 2 / 2),
)

and_eight : (a : ℕ) → bit_and a 8 ≡ a / 8 % 2 * 8
and_eight a = omega (
  arith,
  bit_and_step a 8,
  bit_and_step (a / 2) 4,
  bit_and_step (a / 2 / 2) 2,
  bit_and_one (a / 2 / 2 / 2),
)

and_sixth : (a : ℕ) → bit_and a 0x40 ≡ a / 64 % 2 * 64
and_sixth a = omega (
  arith,
  bit_and_step a 64,
  bit_and_step (a / 2) 32,
  bit_and_step (a / 2 / 2) 16,
  and_eight (a / 2 / 2 / 2),
)

and_seventh : (a : ℕ) → bit_and a 0x80 ≡ a / 128 % 2 * 128
and_seventh a = omega (arith, bit_and_step a 128, and_sixth (a / 2))

-- `CheckFrame` reads from a transport byte what the sender put there.
pub transport_byte-fields :
    (fir fin : Bool) (seq : ℕ)
    → seq < 64
    → let t = transport_byte fir fin seq in
      (not (bit_and t 0x40 == 0) ≡ fir) × (not (bit_and t 0x80 == 0) ≡ fin) × (bit_and t 0x3f ≡ seq)
transport_byte-fields true true seq h =
    let t = transport_byte true true seq in ground (arith, and_sixth t, and_seventh t, and_low t)
transport_byte-fields true false seq h =
    let t = transport_byte true false seq in ground (arith, and_sixth t, and_seventh t, and_low t)
transport_byte-fields false true seq h =
    let t = transport_byte false true seq in ground (arith, and_sixth t, and_seventh t, and_low t)
transport_byte-fields false false seq h =
    let t = transport_byte false false seq in ground (arith, and_sixth t, and_seventh t, and_low t)

-- ===== src/SwitchBytecode/Bits.antt =====
-- src/Examples/SwitchBytecode and src/ProtoConv/DNP3FrameChecker.cpp: the CRC bit by bit is the CRC by
-- table.
use Prim.Native.Nat.{bit_and, bit_xor}
use mini_plex.Base.{
  ℕ, zero, suc, ◌+◌, ◌*◌, ◌/◌, ◌%◌, ◌^◌, ◌<◌, ◌≡◌, refl, sym, ap, ◌∙◌, inl, inr, ◌⊎◌, get_or, ◌==◌,
  Bool-cases, if◌then◌else◌, arith,
}
use mini_plex.Base.Xor.{
  bit_xor-half, bit_xor-odd, bit_xor_comm, bit_xor_assoc, bit_xor_zero, bit_xor_fields, bit_and_one,
  bit_and_byte, bit_xor-byte, bit_xor_self,
}
use mini_plex.ProtoConv.Dnp3.{crc_step}
use mini_plex.ProtoConv.Dnp3.Table.{
  crc_look_up_table, dnp3_bits, dnp3_table, crc_look_up_table-bits,
}
use mini_plex.SwitchBytecode.{crc_bit_loop, compute_crc}

-- One bit of the CRC, for a register that already has the byte.
abbrev bit_step : ℕ → ℕ
bit_step x = if bit_and x 1 == 0 then x / 2 else bit_xor (x / 2) 0xa6bc

bit_step-even : (x : ℕ) → x % 2 ≡ 0 → bit_step x ≡ x / 2
bit_step-even x h = ground (arith, bit_and_one x)

bit_step-odd : (x : ℕ) → x % 2 ≡ 1 → bit_step x ≡ bit_xor (x / 2) 0xa6bc
bit_step-odd x h = ground (arith, bit_and_one x)

-- A bit of the loop, with the rest of the byte in the register.
bit_loop-step :
    (byte crc : ℕ)
    → bit_xor
        (if bit_and (bit_xor crc byte) 1 == 0 then crc / 2 else bit_xor (crc / 2) 0xa6bc)
        (byte / 2)
      ≡ bit_step (bit_xor crc byte)
bit_loop-step byte crc = elim (Bool-cases (bit_and (bit_xor crc byte) 1 == 0)) [
  | inl e ↦ rw e (sym (bit_xor-half crc byte))
  | inr e ↦ rw e (
      bit_xor_assoc (crc / 2) 0xa6bc (byte / 2)
      ∙ ap (bit_xor (crc / 2)) (bit_xor_comm 0xa6bc (byte / 2))
      ∙ sym (bit_xor_assoc (crc / 2) (byte / 2) 0xa6bc)
      ∙ ap (λ t. bit_xor t 0xa6bc) (sym (bit_xor-half crc byte)))
]

abbrev shifted : ℕ → ℕ → ℕ
shifted zero x = x
shifted (suc n) x = shifted n (x / 2)

crc_bit_loop_lem :
    (n byte crc : ℕ)
    → bit_xor (crc_bit_loop n byte crc) (shifted n byte) ≡ dnp3_bits n (bit_xor crc byte)
unfolding crc_bit_loop dnp3_bits
crc_bit_loop_lem zero byte crc = refl
crc_bit_loop_lem (suc n) byte crc =
    crc_bit_loop_lem n (byte / 2)
      (if bit_and (bit_xor crc byte) 1 == 0 then crc / 2 else bit_xor (crc / 2) 0xa6bc)
    ∙ ap (dnp3_bits n) (bit_loop-step byte crc)

compute_crc-bits :
    (byte crc : ℕ) → byte < 256 → compute_crc byte crc ≡ dnp3_bits 8 (bit_xor crc byte)
unfolding compute_crc
compute_crc-bits byte crc h =
    let gone : shifted 8 byte ≡ 0 = omega arith in
    sym (bit_xor_zero (crc_bit_loop 8 byte crc))
    ∙ ap (bit_xor (crc_bit_loop 8 byte crc)) (sym gone)
    ∙ crc_bit_loop_lem 8 byte crc

parity : (x : ℕ) → (x % 2 ≡ 0) ⊎ (x % 2 ≡ 1)
parity x = omega arith

-- The two steps, when they are known.
both :
    (a b c d : ℕ)
    → bit_step a ≡ c
    → bit_step b ≡ d
    → bit_xor (bit_step a) (bit_step b) ≡ bit_xor c d
both a b c d p q = ap (λ t. bit_xor t (bit_step b)) p ∙ ap (bit_xor c) q

xor_right : (a b p : ℕ) → bit_xor (bit_xor a b) p ≡ bit_xor (bit_xor a p) b
xor_right a b p =
    bit_xor_assoc a b p ∙ ap (bit_xor a) (bit_xor_comm b p) ∙ sym (bit_xor_assoc a p b)

xor_cancel : (a b p : ℕ) → bit_xor (bit_xor a p) (bit_xor b p) ≡ bit_xor a b
xor_cancel a b p =
    sym (bit_xor_assoc (bit_xor a p) b p)
    ∙ xor_right (bit_xor a p) b p
    ∙ ap (λ t. bit_xor t b) (bit_xor_assoc a p p ∙ ap (bit_xor a) (bit_xor_self p) ∙ bit_xor_zero a)

bit_step_xor : (a b : ℕ) → bit_step (bit_xor a b) ≡ bit_xor (bit_step a) (bit_step b)
bit_step_xor a b =
    let p : ℕ = 0xa6bc in
    let half = bit_xor-half a b in
    let flipped = ap (λ t. bit_xor t p) half in
    let odd = bit_xor-odd a b in
    let x = bit_xor a b in
    elim (parity a) [
      | inl e ↦ elim (parity b) [
        | inl f ↦
            bit_step-even x (omega (arith, odd))
            ∙ half
            ∙ sym (both a b (a / 2) (b / 2) (bit_step-even a e) (bit_step-even b f))
        | inr f ↦
            bit_step-odd x (omega (arith, odd))
            ∙ flipped
            ∙ bit_xor_assoc (a / 2) (b / 2) p
            ∙ sym (both a b (a / 2) (bit_xor (b / 2) p) (bit_step-even a e) (bit_step-odd b f))
      ]
      | inr e ↦ elim (parity b) [
        | inl f ↦
            bit_step-odd x (omega (arith, odd))
            ∙ flipped
            ∙ xor_right (a / 2) (b / 2) p
            ∙ sym (both a b (bit_xor (a / 2) p) (b / 2) (bit_step-odd a e) (bit_step-even b f))
        | inr f ↦
            bit_step-even x (omega (arith, odd))
            ∙ half
            ∙ sym (xor_cancel (a / 2) (b / 2) p)
            ∙ sym (
                both a b (bit_xor (a / 2) p) (bit_xor (b / 2) p) (bit_step-odd a e)
                  (bit_step-odd b f))
      ]
    ]

dnp3_bits_xor : (n a b : ℕ) → dnp3_bits n (bit_xor a b) ≡ bit_xor (dnp3_bits n a) (dnp3_bits n b)
unfolding dnp3_bits
dnp3_bits_xor zero a b = refl
dnp3_bits_xor (suc n) a b =
    ap (dnp3_bits n) (bit_step_xor a b) ∙ dnp3_bits_xor n (bit_step a) (bit_step b)

abbrev doubled : ℕ → ℕ → ℕ
doubled zero x = x
doubled (suc n) x = 2 * doubled n x

dnp3_bits-doubled : (n x : ℕ) → dnp3_bits n (doubled n x) ≡ x
unfolding dnp3_bits
dnp3_bits-doubled zero x = refl
dnp3_bits-doubled (suc n) x =
    let d = doubled n x in
    let even = bit_step-even (2 * d) (omega arith) in
    let half : 2 * d / 2 ≡ d = omega arith in ap (dnp3_bits n) (even ∙ half) ∙ dnp3_bits-doubled n x

-- The high bits only move down.
dnp3_bits-fields : (x : ℕ) → dnp3_bits 8 x ≡ bit_xor (x / 256) (dnp3_bits 8 (x % 256))
dnp3_bits-fields x =
    let whole : bit_xor (x / 256 * 2 ^ 8) (x % 256) ≡ x =
      omega (arith, bit_xor_fields 8 (x / 256) (x % 256) (omega arith)) in
    let high : x / 256 * 2 ^ 8 ≡ doubled 8 (x / 256) = omega arith in
    ap (dnp3_bits 8) (sym whole)
    ∙ dnp3_bits_xor 8 (x / 256 * 2 ^ 8) (x % 256)
    ∙ ap (λ t. bit_xor t (dnp3_bits 8 (x % 256)))
        (ap (dnp3_bits 8) high ∙ dnp3_bits-doubled 8 (x / 256))

get_or-dnp3_table : (n b i : ℕ) → i < n → get_or (dnp3_table n b) i 0 ≡ dnp3_bits 8 (b + i)
unfolding dnp3_table
get_or-dnp3_table zero b i h = absurd (omega arith)
get_or-dnp3_table (suc n) b zero h = ap (dnp3_bits 8) (omega arith)
get_or-dnp3_table (suc n) b (suc i) h =
    get_or-dnp3_table n (b + 1) i (omega arith) ∙ ap (dnp3_bits 8) (omega arith)

-- For every byte and every register, the eight turns of `computeCRC` do what one look-up in the table
-- of `DNP3FrameChecker` does.
pub compute_crc_table : (byte crc : ℕ) → byte < 256 → compute_crc byte crc ≡ crc_step crc byte
unfolding crc_step
compute_crc_table byte crc h =
    let x = bit_xor crc byte in
    let entry : get_or crc_look_up_table (bit_and x 0xff) 0 ≡ dnp3_bits 8 (x % 256) =
      ap (λ t. get_or t (bit_and x 0xff) 0) crc_look_up_table-bits
      ∙ ap (λ t. get_or (dnp3_table 256 0) t 0) (bit_and_byte x)
      ∙ get_or-dnp3_table 256 0 (x % 256) (omega arith)
      ∙ ap (dnp3_bits 8) (omega arith) in
    compute_crc-bits byte crc h
    ∙ dnp3_bits-fields x
    ∙ bit_xor_comm (x / 256) (dnp3_bits 8 (x % 256))
    ∙ ap (bit_xor (dnp3_bits 8 (x % 256))) (bit_xor-byte crc byte h)
    ∙ ap (λ t. bit_xor t (crc / 256)) (sym entry)

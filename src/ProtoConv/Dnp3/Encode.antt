-- ===== src/ProtoConv/Dnp3/Encode.antt =====
-- src/ProtoConv/DNP3FrameChecker.cpp: how a sender of DNP3 makes a frame, by the standard, and that
-- each block of 1 to 16 bytes with its CRC passes `CRCCheck`, wherever it is in the buffer.
use mini_plex.Base.{
  ℕ, zero, suc, ◌+◌, ◌-◌, ◌/◌, ◌%◌, ◌≤◌, ◌<◌, ◌^◌, ◌≡◌, refl, ap, ◌∙◌, Bool, true, false, List, [],
  ◌∷◌, ◌++◌, length, take, drop, ◌==◌, ltb, if◌then◌else◌, length-append, length-drop, append_assoc,
  arith,
}
use mini_plex.Base.Xor.{bit_and_byte}
use mini_plex.ProtoConv.Dnp3.{crc_step, crc_loop, crc_check}

-- The CRC before it is inverted.
unfoldable pub crc_from : ℕ → List ℕ → ℕ
crc_from crc [] = crc
crc_from crc (b ∷ bytes) = crc_from (crc_step crc b) bytes

-- Bytes with their inverted CRC, the low byte first.
unfoldable pub with_crc : List ℕ → List ℕ
unfolding crc_from
with_crc bytes = let crc = 0xffff - crc_from 0 bytes in bytes ++ (crc % 256) ∷ (crc / 256) ∷ []

-- The user data of a frame, in blocks of at most 16 bytes.
unfoldable pub with_crcs : ℕ → List ℕ → List ℕ
unfolding with_crc
with_crcs zero bytes = []
with_crcs (suc fuel) [] = []
with_crcs (suc fuel) (b ∷ bytes) =
    with_crc (take 16 (b ∷ bytes)) ++ with_crcs fuel (drop 16 (b ∷ bytes))

-- The transport byte of a fragment.
abbrev pub transport_byte : Bool → Bool → ℕ → ℕ
transport_byte fir fin seq = (if fin then 128 else 0) + (if fir then 64 else 0) + seq

-- A frame of the data link layer: its control byte, its addresses, and its user data.
unfoldable pub link_frame : ℕ → ℕ → ℕ → List ℕ → List ℕ
unfolding with_crcs with_crc
link_frame control dst src user_data =
    with_crc (
      0x05
      ∷ 0x64
      ∷ (5 + length user_data)
      ∷ control
      ∷ (dst % 256)
      ∷ (dst / 256)
      ∷ (src % 256)
      ∷ (src / 256)
      ∷ [])
    ++ with_crcs (length user_data) user_data

-- A frame with a fragment of a message.
abbrev pub fragment : ℕ → ℕ → ℕ → Bool → Bool → ℕ → List ℕ → List ℕ
fragment control dst src fir fin seq app =
    link_frame control dst src (transport_byte fir fin seq ∷ app)

crc_loop-last :
    (n at crc byte : ℕ) (rest : List ℕ)
    → (crc_loop n at n crc byte ((crc % 256) ∷ (crc / 256) ∷ rest)) ≡ (true, byte)
unfolding crc_loop
crc_loop-last n at crc byte [] = ground (arith, bit_and_byte crc)
crc_loop-last n at crc byte (b ∷ rest) = ground (arith, bit_and_byte crc)

-- The byte that the loop keeps.
unfoldable pub kept : ℕ → ℕ → ℕ → List ℕ → ℕ
kept at i byte [] = byte
kept at i byte (b ∷ bytes) = kept at (suc i) (if i == at then b else byte) bytes

lt_true : (x y : ℕ) → x < y → ltb x y ≡ true
lt_true x y h = ground arith

lt_false : (x y : ℕ) → y ≤ x → ltb x y ≡ false
lt_false x y h = ground arith

eq_false : (x y : ℕ) → x < y → (x == y) ≡ false
eq_false x y h = ground arith

-- One byte that is not the last.
crc_loop-byte :
    (n at i crc byte b : ℕ) (bytes : List ℕ)
    → suc i < n
    → crc_loop n at i crc byte (b ∷ bytes)
      ≡ crc_loop n at (suc i) (crc_step crc b) (if i == at then b else byte) bytes
unfolding crc_loop
crc_loop-byte n at i crc byte b bytes h =
    rw
      (
        lt_false (n + 1) i (omega arith),
        lt_true i n (omega arith),
        eq_false i n (omega arith),
        eq_false i (n + 1) (omega arith),
        eq_false i (n - 1) (omega arith),
      )
      refl

-- The last byte, after which the CRC is inverted.
crc_loop-inverted :
    (n at i crc byte b : ℕ) (bytes : List ℕ)
    → suc i ≡ n
    → crc_loop n at i crc byte (b ∷ bytes)
      ≡ crc_loop n at n (0xffff - crc_step crc b) (if i == at then b else byte) bytes
unfolding crc_loop
crc_loop-inverted n at i crc byte b bytes h =
    let last : (i == n - 1) ≡ true = ground arith in
    rw
      (
        lt_false (n + 1) i (omega arith),
        lt_true i n (omega arith),
        eq_false i n (omega arith),
        eq_false i (n + 1) (omega arith),
        last,
        h,
      )
      refl

crc_loop-bytes :
    (n at i crc byte b : ℕ) (bytes rest : List ℕ)
    → i + suc (length bytes) ≡ n
    → let last = 0xffff - crc_from crc (b ∷ bytes) in
      crc_loop n at i crc byte ((b ∷ bytes) ++ ((last % 256) ∷ (last / 256) ∷ rest))
      ≡ (true, kept at i byte (b ∷ bytes))
unfolding crc_from kept
crc_loop-bytes n at i crc byte b [] rest h =
    crc_loop-inverted n at i crc byte b _ (omega arith)
    ∙ crc_loop-last n at (0xffff - crc_step crc b) (if i == at then b else byte) rest
crc_loop-bytes n at i crc byte b (c ∷ bytes) rest h =
    crc_loop-byte n at i crc byte b _ (omega arith)
    ∙ crc_loop-bytes n at (suc i) (crc_step crc b) (if i == at then b else byte) c bytes rest
        (omega arith)

module _ (b : ℕ) (bytes rest : List ℕ) where
  block-append : (x : List ℕ) (l h : ℕ) → (x ++ (l ∷ h ∷ [])) ++ rest ≡ x ++ (l ∷ h ∷ rest)
  block-append x l h = append_assoc x (l ∷ h ∷ []) rest

  -- A block passes `CRCCheck` at its place in the buffer.
  pub crc_check-with_crc :
      (buf : List ℕ) (start offset : ℕ)
      → drop start buf ≡ with_crc (b ∷ bytes) ++ rest
      → crc_check buf start (suc (length bytes)) offset
        ≡ (true, kept ((offset + 2 ^ 64 - start) % 2 ^ 64) 0 0 (b ∷ bytes))
  unfolding crc_check with_crc
  crc_check-with_crc buf start offset h =
      let at = (offset + 2 ^ 64 - start) % 2 ^ 64 in
      let crc = 0xffff - crc_from 0 (b ∷ bytes) in
      let shape : drop start buf ≡ (b ∷ bytes) ++ (crc % 256 ∷ crc / 256 ∷ rest) =
        h ∙ block-append (b ∷ bytes) (crc % 256) (crc / 256) in
      let long : ltb (length buf) (start + suc (length bytes) + 2) ≡ false = ground (
        arith,
        ap length shape,
        length-drop start buf,
        length-append (b ∷ bytes) (crc % 256 ∷ crc / 256 ∷ rest),
      ) in
      rw (long, shape) (crc_loop-bytes (suc (length bytes)) at 0 0 0 b bytes rest (omega arith))

-- ===== src/ProtoConv/Dnp3/Blocks.antt =====
-- src/ProtoConv/DNP3FrameChecker.cpp: the loop over the blocks, on the blocks that a sender makes.
use mini_plex.Base.{
  ℕ, zero, suc, ◌+◌, ◌-◌, ◌*◌, ◌/◌, ◌%◌, ◌≤◌, ◌<◌, ◌≡◌, refl, ap, ◌∙◌, true, false, List, [], ◌∷◌,
  ◌++◌, length, take, drop, ltb, leb, if◌then◌else◌, inl, inr, length-append, length-drop,
  length-take, drop-append, append_assoc, some, Bool-cases, arith,
}
use mini_plex.ProtoConv.Dnp3.{crc_check, check_blocks}
use mini_plex.ProtoConv.Dnp3.Encode.{with_crc, with_crcs, crc_from, crc_check-with_crc}

drop_nil : (n : ℕ) → drop {A = ℕ} n [] ≡ []
drop_nil zero = refl
drop_nil (suc n) = refl

zero_plus : (n : ℕ) → 0 + n ≡ n
zero_plus n = omega arith

suc_plus : (m n : ℕ) → suc m + n ≡ suc (m + n)
suc_plus m n = omega arith

drop-drop : (m n : ℕ) (xs : List ℕ) → drop (m + n) xs ≡ drop n (drop m xs)
drop-drop zero n xs = rw (zero_plus n) refl
drop-drop (suc m) n [] = rw (drop_nil (suc m + n), drop_nil n) refl
drop-drop (suc m) n (x ∷ xs) = rw (suc_plus m n) (drop-drop m n xs)

drop_all : (n : ℕ) (xs : List ℕ) → length xs ≤ n → drop n xs ≡ []
drop_all n [] h = drop_nil n
drop_all zero (x ∷ xs) h = ground arith
drop_all (suc n) (x ∷ xs) h = drop_all n xs (omega arith)

pub length-with_crc : (bytes : List ℕ) → length (with_crc bytes) ≡ length bytes + 2
unfolding with_crc
length-with_crc bytes =
    let crc = 0xffff - crc_from 0 bytes in length-append bytes (crc % 256 ∷ crc / 256 ∷ [])

-- The bytes of the user data, with two more for each block.
pub length-with_crcs :
    (fuel : ℕ) (bytes : List ℕ)
    → length bytes ≤ fuel
    → length (with_crcs fuel bytes) ≡ length bytes + 2 * ((length bytes + 15) / 16)
unfolding with_crcs
length-with_crcs zero [] h = refl
length-with_crcs zero (b ∷ bytes) h = ground arith
length-with_crcs (suc fuel) [] h = refl
length-with_crcs (suc fuel) (b ∷ bytes) h =
    let block = take 16 (b ∷ bytes) in
    let rest = drop 15 bytes in
    omega (
      arith,
      length-append (with_crc block) (with_crcs fuel rest),
      length-with_crc block,
      length-take 16 (b ∷ bytes),
      length-drop 15 bytes,
      length-with_crcs fuel rest (omega (arith, length-drop 15 bytes)),
    )

-- The next block.
drop-block :
    (fuel b : ℕ) (bytes rest : List ℕ)
    → 16 ≤ suc (length bytes)
    → drop 18 (with_crcs (suc fuel) (b ∷ bytes) ++ rest) ≡ with_crcs fuel (drop 15 bytes) ++ rest
unfolding with_crcs
drop-block fuel b bytes rest h =
    let block = take 16 (b ∷ bytes) in
    let next = with_crcs fuel (drop 15 bytes) in
    let size : length (with_crc block) ≡ 18 =
      omega (arith, length-with_crc block, length-take 16 (b ∷ bytes)) in
    let all : drop 18 (with_crc block) ≡ [] = drop_all 18 (with_crc block) (omega arith) in
    ap (drop 18) (append_assoc (with_crc block) next rest)
    ∙ drop-append 18 (with_crc block) (next ++ rest) (omega (arith, size))
    ∙ ap (λ x. x ++ (next ++ rest)) all

lt_false : (x y : ℕ) → y ≤ x → ltb x y ≡ false
lt_false x y h = ground arith

-- A block of user data is good, wherever it is.
check-block :
    (fuel start len b : ℕ) (bytes rest buf : List ℕ)
    → drop start buf ≡ with_crcs (suc fuel) (b ∷ bytes) ++ rest
    → len ≡ start + suc (length bytes) + 2 * ((suc (length bytes) + 15) / 16)
    → (crc_check buf start (if leb 18 (len - start) then 16 else len - start - 2) 0).0 ≡ true
unfolding with_crcs
check-block fuel start len b bytes rest buf h l =
    let size : (if leb 18 (len - start) then 16 else len - start - 2)
        ≡ suc (length (take 15 bytes)) =
      ground (arith, length-take 15 bytes) in
    let next = with_crcs fuel (drop 15 bytes) in
    rw size (
      ap (λ r. r.0)
        (crc_check-with_crc b (take 15 bytes) (next ++ rest) buf start 0
          (h ∙ append_assoc (with_crc (take 16 (b ∷ bytes))) next rest)))

-- All blocks of user data are good.
pub check_blocks-with_crcs :
    (fuel k start len : ℕ) (bytes rest buf : List ℕ)
    → 0 < length bytes
    → length bytes ≤ k
    → drop start buf ≡ with_crcs k bytes ++ rest
    → len ≡ start + length bytes + 2 * ((length bytes + 15) / 16)
    → len ≤ start + 18 * fuel
    → (end : ℕ) × (check_blocks fuel start len buf ≡ some (true, end))
unfolding check_blocks
check_blocks-with_crcs fuel k start len [] rest buf p q h l m = ground arith
check_blocks-with_crcs zero k start len (b ∷ bytes) rest buf p q h l m = ground arith
check_blocks-with_crcs (suc fuel) zero start len (b ∷ bytes) rest buf p q h l m = ground arith
check_blocks-with_crcs (suc fuel) (suc k) start len (b ∷ bytes) rest buf p q h l m =
    let good = check-block k start len b bytes rest buf h l in
    elim (Bool-cases (ltb (start + 18) len)) [
      | inl e ↦
          let more : start + 18 < len = ground arith in
          let size = length-drop 15 bytes in
          let next =
            check_blocks-with_crcs fuel k (start + 18) len (drop 15 bytes) rest buf
              (omega (arith, size)) (omega (arith, size))
              (drop-drop start 18 buf ∙ ap (drop 18) h ∙ drop-block k b bytes rest (omega arith))
              (omega (arith, size)) (omega arith) in
          (next.0, rw (good, e) next.1)
      | inr e ↦ (start + 18, rw (good, e) refl)
    ]

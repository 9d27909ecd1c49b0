-- ===== src/Base/Xor.antt =====
-- Exclusive or, or, and and of numbers, bit by bit.
use Prim.Native.Nat.{
  ℕ, zero, suc, ◌+◌, ◌*◌, ◌/◌, ◌%◌, ◌^◌, ◌≤◌, ◌<◌, digits, bitwise, differ, min, bit_xor, bit_and,
  bit_or, max, bit_xor-bitwise, bit_and-bitwise, bit_or-bitwise,
}
use mathlib.Core.Path.{◌≡◌, refl, ap, ◌∙◌}
use native.Mathlib.Nat.{le_refl, pow-suc}
use native.Mathlib.Omega.{arith}

module _ (past : ℕ → ℕ) (digit : ℕ → ℕ → ℕ) where
  -- Any two counts of digits that are enough give the same.
  same_digits : (a b k n : ℕ) → a ≤ n → a ≤ k → digits past digit n a b ≡ digits past digit k a b
  same_digits zero b (suc k) (suc n) below above = refl
  same_digits zero b (suc k) zero below above = refl
  same_digits zero b zero (suc n) below above = refl
  same_digits zero b zero zero below above = refl
  same_digits (suc a) b k zero below above = absurd (omega (arith, below))
  same_digits (suc a) b zero n below above = absurd (omega (arith, above))
  same_digits (suc a) b (suc k) (suc n) below above =
      let rest =
        same_digits (suc a / 2) (b / 2) k n (omega (arith, below)) (omega (arith, above)) in
      ap (λ high. high * 2 + digit (suc a % 2) (b % 2)) rest

  -- The lowest digit apart, where it is so of the numbers past the first.
  lowest_apart :
      ((b : ℕ) → past b ≡ past (b / 2) * 2 + digit 0 (b % 2))
      → (a b : ℕ)
      → bitwise past digit a b ≡ bitwise past digit (a / 2) (b / 2) * 2 + digit (a % 2) (b % 2)
  lowest_apart law zero b = law b
  lowest_apart law (suc a) b =
      let rest = same_digits (suc a / 2) (b / 2) (suc a / 2) a (omega arith) (omega arith) in
      ap (λ high. high * 2 + digit (suc a % 2) (b % 2)) rest

differ_sum : (x y : ℕ) → x < 2 → y < 2 → differ x y ≡ (x + y) % 2
differ_sum zero y h l = omega arith
differ_sum (suc zero) zero h l = refl
differ_sum (suc zero) (suc zero) h l = refl
differ_sum (suc zero) (suc (suc y)) h l = absurd (omega arith)
differ_sum (suc (suc x)) y h l = absurd (omega arith)

bit_xor_low : (a b : ℕ) → bit_xor a b ≡ bit_xor (a / 2) (b / 2) * 2 + differ (a % 2) (b % 2)
bit_xor_low a b = simp bit_xor-bitwise (lowest_apart (λ y. y) differ (λ y. omega arith) a b)

-- The lowest digit, and the others.
pub bit_xor_step : (a b : ℕ) → bit_xor a b ≡ bit_xor (a / 2) (b / 2) * 2 + (a + b) % 2
bit_xor_step a b =
    omega (arith, bit_xor_low a b, differ_sum (a % 2) (b % 2) (omega arith) (omega arith))

pub bit_and_step : (a b : ℕ) → bit_and a b ≡ bit_and (a / 2) (b / 2) * 2 + min (a % 2) (b % 2)
bit_and_step a b = simp bit_and-bitwise (lowest_apart (λ y. zero) min (λ y. omega arith) a b)

pub bit_xor-half : (a b : ℕ) → bit_xor a b / 2 ≡ bit_xor (a / 2) (b / 2)
bit_xor-half a b = omega (arith, bit_xor_step a b)

pub bit_xor-odd : (a b : ℕ) → bit_xor a b % 2 ≡ (a + b) % 2
bit_xor-odd a b = omega (arith, bit_xor_step a b)

xor_comm_to : (n a b : ℕ) → a ≤ n → b ≤ n → bit_xor a b ≡ bit_xor b a
xor_comm_to zero zero zero h l = refl
xor_comm_to zero (suc a) b h l = absurd (omega arith)
xor_comm_to zero zero (suc b) h l = absurd (omega arith)
xor_comm_to (suc n) a b h l = omega (
  arith,
  bit_xor_step a b,
  bit_xor_step b a,
  xor_comm_to n (a / 2) (b / 2) (omega arith) (omega arith),
)

pub bit_xor_comm : (a b : ℕ) → bit_xor a b ≡ bit_xor b a
bit_xor_comm a b = xor_comm_to (a + b) a b (omega arith) (omega arith)

xor_assoc_to :
    (n a b c : ℕ) → a ≤ n → b ≤ n → c ≤ n → bit_xor (bit_xor a b) c ≡ bit_xor a (bit_xor b c)
xor_assoc_to zero zero zero zero h l m = refl
xor_assoc_to zero (suc a) b c h l m = absurd (omega arith)
xor_assoc_to zero zero (suc b) c h l m = absurd (omega arith)
xor_assoc_to zero zero zero (suc c) h l m = absurd (omega arith)
xor_assoc_to (suc n) a b c h l m =
    let left = bit_xor_step (bit_xor a b) c in
    let right = bit_xor_step a (bit_xor b c) in
    let ih = xor_assoc_to n (a / 2) (b / 2) (c / 2) (omega arith) (omega arith) (omega arith) in
    let p = ap (λ t. bit_xor t (c / 2)) (bit_xor-half a b) in
    let q = ap (bit_xor (a / 2)) (bit_xor-half b c) in
    omega (arith, left, right, ih, p, q, bit_xor-odd a b, bit_xor-odd b c)

pub bit_xor_assoc : (a b c : ℕ) → bit_xor (bit_xor a b) c ≡ bit_xor a (bit_xor b c)
bit_xor_assoc a b c = xor_assoc_to (a + b + c) a b c (omega arith) (omega arith) (omega arith)

xor_zero_to : (n a : ℕ) → a ≤ n → bit_xor a 0 ≡ a
xor_zero_to zero zero h = refl
xor_zero_to zero (suc a) h = absurd (omega arith)
xor_zero_to (suc n) a h = omega (arith, bit_xor_step a 0, xor_zero_to n (a / 2) (omega arith))

pub bit_xor_zero : (a : ℕ) → bit_xor a 0 ≡ a
bit_xor_zero a = xor_zero_to a a (omega arith)

xor_self_to : (n a : ℕ) → a ≤ n → bit_xor a a ≡ 0
xor_self_to zero zero h = refl
xor_self_to zero (suc a) h = absurd (omega arith)
xor_self_to (suc n) a h = omega (arith, bit_xor_step a a, xor_self_to n (a / 2) (omega arith))

pub bit_xor_self : (a : ℕ) → bit_xor a a ≡ 0
bit_xor_self a = xor_self_to a a (omega arith)

-- High digits and low digits.
pub bit_xor_fields : (k q r : ℕ) → r < 2 ^ k → bit_xor (q * 2 ^ k) r ≡ q * 2 ^ k + r
bit_xor_fields zero q r h = ground (arith, bit_xor_zero q)
bit_xor_fields (suc k) q r h =
    let twice : q * 2 ^ suc k ≡ 2 * (q * 2 ^ k) = omega (arith, ap (λ t. q * t) (pow-suc 2 k)) in
    let halves : q * 2 ^ suc k / 2 ≡ q * 2 ^ k = omega (arith, twice) in
    let s = bit_xor_step (q * 2 ^ suc k) r in
    let p = ap (λ t. bit_xor t (r / 2)) halves in
    omega (arith, s, twice, p, pow-suc 2 k, bit_xor_fields k q (r / 2) (omega (arith, pow-suc 2 k)))

and_zero_to : (n a : ℕ) → a ≤ n → bit_and a 0 ≡ 0
and_zero_to zero zero h = refl
and_zero_to zero (suc a) h = absurd (omega arith)
and_zero_to (suc n) a h = omega (arith, bit_and_step a 0, and_zero_to n (a / 2) (omega arith))

bit_and_zero : (a : ℕ) → bit_and a 0 ≡ 0
bit_and_zero a = and_zero_to a a (omega arith)

pub bit_and_one : (a : ℕ) → bit_and a 1 ≡ a % 2
bit_and_one a = omega (arith, bit_and_step a 1, bit_and_zero (a / 2))

and_three : (a : ℕ) → bit_and a 3 ≡ a % 4
and_three a = omega (arith, bit_and_step a 3, bit_and_one (a / 2))

and_fifteen : (a : ℕ) → bit_and a 15 ≡ a % 16
and_fifteen a = omega (arith, bit_and_step a 15, bit_and_step (a / 2) 7, and_three (a / 2 / 2))

pub bit_and_byte : (a : ℕ) → bit_and a 0xff ≡ a % 256
bit_and_byte a = omega (
  arith,
  bit_and_step a 255,
  bit_and_step (a / 2) 127,
  bit_and_step (a / 2 / 2) 63,
  bit_and_step (a / 2 / 2 / 2) 31,
  and_fifteen (a / 2 / 2 / 2 / 2),
)

bit_xor-quarter : (a b : ℕ) → bit_xor a b / 4 ≡ bit_xor (a / 4) (b / 4)
bit_xor-quarter a b =
    let p : a / 2 / 2 ≡ a / 4 = omega arith in
    let q : b / 2 / 2 ≡ b / 4 = omega arith in
    let r = ap (λ t. bit_xor t (b / 2 / 2)) p ∙ ap (bit_xor (a / 4)) q in
    omega (arith, bit_xor-half a b, bit_xor-half (a / 2) (b / 2), r)

bit_xor-sixteenth : (a b : ℕ) → bit_xor a b / 16 ≡ bit_xor (a / 16) (b / 16)
bit_xor-sixteenth a b =
    let p : a / 4 / 4 ≡ a / 16 = omega arith in
    let q : b / 4 / 4 ≡ b / 16 = omega arith in
    let r = ap (λ t. bit_xor t (b / 4 / 4)) p ∙ ap (bit_xor (a / 16)) q in
    omega (arith, bit_xor-quarter a b, bit_xor-quarter (a / 4) (b / 4), r)

-- A byte does not change the bits above it.
pub bit_xor-byte : (a b : ℕ) → b < 256 → bit_xor a b / 256 ≡ a / 256
bit_xor-byte a b h =
    let q : b / 16 / 16 ≡ 0 = omega arith in
    let r = ap (bit_xor (a / 16 / 16)) q ∙ bit_xor_zero (a / 16 / 16) in
    omega (arith, bit_xor-sixteenth a b, bit_xor-sixteenth (a / 16) (b / 16), r)

bit_or_step : (a b : ℕ) → bit_or a b ≡ bit_or (a / 2) (b / 2) * 2 + max (a % 2) (b % 2)
bit_or_step a b = simp bit_or-bitwise (lowest_apart (λ y. y) max (λ y. omega arith) a b)

or_zero_to : (n a : ℕ) → a ≤ n → bit_or a 0 ≡ a
or_zero_to zero zero h = refl
or_zero_to zero (suc a) h = absurd (omega arith)
or_zero_to (suc n) a h = omega (arith, bit_or_step a 0, or_zero_to n (a / 2) (omega arith))

-- High digits and low digits.
pub bit_or_sum : (k q r : ℕ) → r < 2 ^ k → bit_or (q * 2 ^ k) r ≡ q * 2 ^ k + r
bit_or_sum zero q r h = ground (arith, or_zero_to q q (le_refl _))
bit_or_sum (suc k) q r h =
    let twice : q * 2 ^ suc k ≡ 2 * (q * 2 ^ k) = omega (arith, ap (λ t. q * t) (pow-suc 2 k)) in
    let halves : q * 2 ^ suc k / 2 ≡ q * 2 ^ k = omega (arith, twice) in
    let p = ap (λ t. bit_or t (r / 2)) halves in
    omega (
      arith,
      bit_or_step (q * 2 ^ suc k) r,
      twice,
      p,
      pow-suc 2 k,
      bit_or_sum k q (r / 2) (omega (arith, pow-suc 2 k)),
    )

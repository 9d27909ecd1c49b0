-- ===== src/ProtoConv/Bytes.antt =====
-- Integers as bytes in memory, least significant first, and equality of byte strings.
use mini_plex.Base.{
  ℕ, zero, suc, ◌+◌, ◌*◌, ◌/◌, ◌%◌, ◌^◌, ◌<◌, ◌≡◌, refl, Bool, true, false, ◌&&◌, List, [], ◌∷◌,
  ◌==◌, arith,
}

-- The `n` bytes of an integer, as `memcpy` reads them.
abbrev pub le_bytes : ℕ → ℕ → List ℕ
le_bytes zero x = []
le_bytes (suc n) x = x % 256 ∷ le_bytes n (x / 256)

abbrev pub of_le_bytes : List ℕ → ℕ
of_le_bytes [] = 0
of_le_bytes (b ∷ bs) = b + 256 * of_le_bytes bs

-- `std::equal`
abbrev pub same_bytes : List ℕ → List ℕ → Bool
same_bytes [] [] = true
same_bytes [] (y ∷ ys) = false
same_bytes (x ∷ xs) [] = false
same_bytes (x ∷ xs) (y ∷ ys) = (x == y) && same_bytes xs ys

pub of_le_bytes_word : (x : ℕ) → x < 2 ^ 32 → of_le_bytes (le_bytes 4 x) ≡ x
of_le_bytes_word x h = omega arith

pub of_le_bytes_half : (x : ℕ) → x < 2 ^ 16 → of_le_bytes (le_bytes 2 x) ≡ x
of_le_bytes_half x h = omega arith

pub same_bytes_self : (xs : List ℕ) → same_bytes xs xs ≡ true
same_bytes_self [] = refl
same_bytes_self (x ∷ xs) = ground (arith, same_bytes_self xs)

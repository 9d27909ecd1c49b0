-- ===== src/ProtoConv/Dnp3/Starts.antt =====
-- src/ProtoConv/DNP3FrameChecker.cpp: the search for the start bytes 0x05 0x64.
use mini_plex.Base.{
  ℕ, suc, ◌+◌, ◌-◌, ◌≤◌, ◌≡◌, ◌⊎◌, refl, sym, ap, ◌∙◌, subst, inl, inr, true, false, ◌&&◌, List, [],
  ◌∷◌, length, ◌≢◌, drop, zero, ◌<◌, ◌==◌, Bool-cases, arith,
}
use mini_plex.ProtoConv.Dnp3.{scan_start, start_bytes_offset}

-- What is left from `prev_byte` on when the loop ends: that byte, and nothing after it, or it is
-- 0x05 and 0x64 comes next.
Stops : List ℕ → ℕ → Type 0
Stops left prev_byte =
    (left ≡ prev_byte ∷ []) ⊎ ((rest : List ℕ) × (prev_byte ≡ 0x05) × (left ≡ 0x05 ∷ 0x64 ∷ rest))

minus_self : (n : ℕ) → n - n ≡ 0
minus_self n = omega arith

minus_zero : (n : ℕ) → n - 0 ≡ n
minus_zero n = omega arith

pred_suc : (n : ℕ) → n ≡ suc n - 1
pred_suc n = omega arith

and_true : (p b : ℕ) → (p == 0x05 && b == 0x64) ≡ true → (p ≡ 0x05) × (b ≡ 0x64)
and_true p b e = ground arith

pub scan_start-ge :
    (p n : ℕ) (bytes : List ℕ)
    → n ≤ (scan_start p n bytes).0 × ((scan_start p n bytes).0 ≤ n + length bytes)
unfolding scan_start
scan_start-ge p n [] = ground arith
scan_start-ge p n (b ∷ bytes) = ground (arith, scan_start-ge b (suc n) bytes)

scan_start-Stops :
    (p n : ℕ) (bytes : List ℕ)
    → Stops (drop ((scan_start p n bytes).0 - n) (p ∷ bytes)) (scan_start p n bytes).1
unfolding scan_start Stops
scan_start-Stops p n [] = subst (λ k. Stops (drop k (p ∷ [])) p) (sym (minus_self n)) (inl refl)
scan_start-Stops p n (b ∷ bytes) = elim (Bool-cases (p == 0x05 && b == 0x64)) [
  | inl e ↦
      let (five, next) = and_true p b e in
      rw (e, minus_self n) (inr (bytes, five, rw (five, next) refl))
  | inr e ↦
      let r = (scan_start b (suc n) bytes).0 in
      let k : r - n ≡ suc (r - suc n) = omega (arith, (scan_start-ge b (suc n) bytes).0) in
      rw (e, k) (scan_start-Stops b (suc n) bytes)
]

-- Nothing, the first start byte alone, or both.
unfoldable pub MayStart : List ℕ → Type 0
MayStart [] = Unit
MayStart (a ∷ []) = a ≡ 0x05
MayStart (a ∷ b ∷ bytes) = (a ≡ 0x05) × (b ≡ 0x64)

drop_tail : (k x : ℕ) (xs : List ℕ) → drop k xs ≡ drop 1 (drop k (x ∷ xs))
drop_tail zero x xs = refl
drop_tail (suc zero) x [] = refl
drop_tail (suc (suc k)) x [] = refl
drop_tail (suc k) x (y ∷ xs) = drop_tail k y xs

start_five :
    (k p : ℕ) (buf : List ℕ) → Stops (drop k (0 ∷ buf)) p → p ≡ 0x05 → MayStart (drop (k - 1) buf)
unfolding Stops MayStart
start_five zero p buf (inl e) h = ground arith
start_five zero p buf (inr (rest, f, e)) h = ground arith
start_five (suc j) p buf (inl e) h =
    subst (λ n. MayStart (drop n buf)) (pred_suc j) (subst MayStart (sym e) h)
start_five (suc j) p buf (inr (rest, f, e)) h =
    subst (λ n. MayStart (drop n buf)) (pred_suc j) (subst MayStart (sym e) (refl, refl))

start_other :
    (k p : ℕ) (buf : List ℕ) → Stops (drop k (0 ∷ buf)) p → p ≢ 0x05 → MayStart (drop k buf)
unfolding Stops MayStart
start_other k p buf (inl e) h = subst MayStart (sym (drop_tail k 0 buf ∙ ap (drop 1) e)) tt
start_other k p buf (inr (rest, f, e)) h = ground arith

-- Two bytes, and not 0x05 0x64.
unfoldable Passes : List ℕ → Type 0
Passes (a ∷ b ∷ bytes) = (a == 0x05 && b == 0x64) ≡ false
Passes _ = ⊥

scan_start-Passes :
    (p n : ℕ) (bytes : List ℕ) (j : ℕ)
    → n + j < (scan_start p n bytes).0
    → Passes (drop j (p ∷ bytes))
unfolding scan_start Passes
scan_start-Passes p n [] j h = absurd (omega arith)
scan_start-Passes p n (b ∷ bytes) zero h = elim (Bool-cases (p == 0x05 && b == 0x64)) [
  | inl e ↦ absurd (ground arith)
  | inr e ↦ e
]
scan_start-Passes p n (b ∷ bytes) (suc j) h = elim (Bool-cases (p == 0x05 && b == 0x64)) [
  | inl e ↦ absurd (ground arith)
  | inr e ↦ scan_start-Passes b (suc n) bytes j (ground arith)
]

Passes-MayStart : (bytes : List ℕ) → Passes bytes → ¬ MayStart bytes
unfolding Passes MayStart
Passes-MayStart [] h v = h
Passes-MayStart (a ∷ []) h v = h
Passes-MayStart (a ∷ b ∷ bytes) h (five, next) = ground arith

-- The place of the last byte, which is not 0x05.
last_passes :
    (j p : ℕ) (buf : List ℕ) → Stops (drop (suc j) (0 ∷ buf)) p → p ≢ 0x05 → ¬ MayStart (drop j buf)
unfolding Stops MayStart
last_passes j p buf (inl e) h v = h (rw e at v)
last_passes j p buf (inr (rest, f, e)) h v = h f

-- The bytes from the offset on begin with 0x05 0x64, or are 0x05 alone, or are none; and the offset
-- is the first such place: the bytes from no earlier place on are so.
pub start_bytes_offset-MayStart :
    (buf : List ℕ)
    → MayStart (drop (start_bytes_offset buf) buf)
      × ((j : ℕ) → j < start_bytes_offset buf → ¬ MayStart (drop j buf))
unfolding start_bytes_offset
start_bytes_offset-MayStart buf =
    let r = scan_start 0 0 buf in
    let stops : Stops (drop r.0 (0 ∷ buf)) r.1 =
      rw (minus_zero r.0) at (scan_start-Stops 0 0 buf) in
    let passed : (j : ℕ) → suc j < r.0 → ¬ MayStart (drop j buf) =
      λ j h. Passes-MayStart (drop j buf) (scan_start-Passes 0 0 buf (suc j) (omega arith)) in
    elim (Bool-cases (r.1 == 0x05)) [
      | inl e ↦
          let five : r.1 ≡ 0x05 = ground arith in
          rw e (start_five r.0 r.1 buf stops five, λ j h. passed j (omega arith))
      | inr e ↦
          let other : r.1 ≢ 0x05 = ground arith in
          rw e (
            start_other r.0 r.1 buf stops other,
            λ j h. elim (Bool-cases (suc j == r.0)) [
              | inl at_end ↦
                  let end : r.0 ≡ suc j = ground arith in
                  last_passes j r.1 buf (subst (λ k. Stops (drop k (0 ∷ buf)) r.1) end stops) other
              | inr inside ↦ passed j (ground arith)
            ],
          )
    ]

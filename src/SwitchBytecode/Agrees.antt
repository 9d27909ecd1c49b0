-- ===== src/SwitchBytecode/Agrees.antt =====
-- src/Examples/SwitchBytecode and src/ProtoConv/DNP3FrameChecker.cpp: the headers that the programs
-- accept are those that `CRCCheck` accepts.
use Prim.Native.Nat.{bit_and, bit_or}
use mini_plex.Base.{
  ℕ, zero, suc, ◌+◌, ◌-◌, ◌*◌, ◌/◌, ◌%◌, ◌^◌, ◌<◌, ◌≡◌, refl, sym, ap, ◌∙◌, inl, inr, Bool, true,
  false, not, ◌&&◌, List, [], ◌∷◌, get_or, take, length, ltb, ◌==◌, Bool-cases, ltb→lt,
  if◌then◌else◌, Option, none, some, has_value, arith,
}
use mini_plex.Base.Xor.{bit_and_byte, bit_or_sum}
use mini_plex.ProtoConv.Dnp3.{crc_step, crc_loop, crc_check, src_dst}
use mini_plex.SwitchBytecode.{compute_crcs, is_header, get_addrs, four_bytes, get_flows}
use mini_plex.SwitchBytecode.Bits.{compute_crc_table}

abbrev pub all_bytes : List ℕ → Bool
all_bytes [] = true
all_bytes (b ∷ bytes) = ltb b 256 && all_bytes bytes

-- The CRC by table, over some bytes.
abbrev steps : List ℕ → ℕ → ℕ
steps [] crc = crc
steps (b ∷ bytes) crc = steps bytes (crc_step crc b)

compute_crcs-steps :
    (bytes : List ℕ) (crc : ℕ) → all_bytes bytes ≡ true → compute_crcs bytes crc ≡ steps bytes crc
unfolding compute_crcs
compute_crcs-steps [] crc h = refl
compute_crcs-steps (b ∷ bytes) crc h =
    ap (compute_crcs bytes) (compute_crc_table b crc (ltb→lt b 256 (ground (arith, h))))
    ∙ compute_crcs-steps bytes (crc_step crc b) (ground (arith, h))

-- The two bytes after a CRC.
abbrev ends : ℕ → ℕ → ℕ → Bool
ends crc low high =
    if not (low == bit_and crc 0xff)
    then false
    else if not (high == crc / 2 ^ 8)
    then false
    else true

crc_loop-after : (crc byte : ℕ) (rest : List ℕ) → (crc_loop 8 2 10 crc byte rest).0 ≡ true
unfolding crc_loop
crc_loop-after crc byte [] = refl
crc_loop-after crc byte (b ∷ rest) = refl

crc_loop-eight :
    (crc byte low high : ℕ) (rest : List ℕ)
    → (crc_loop 8 2 8 crc byte (low ∷ high ∷ rest)).0 ≡ ends crc low high
unfolding crc_loop
crc_loop-eight crc byte low high rest = elim (Bool-cases (low == bit_and crc 0xff)) [
  | inl e ↦ elim (Bool-cases (high == crc / 2 ^ 8)) [
    | inl f ↦ rw (e, f) (crc_loop-after crc byte rest)
    | inr f ↦ rw (e, f) refl
  ]
  | inr e ↦ rw e refl
]

crc_check-ten :
    (a b c d e f g h low high : ℕ) (rest : List ℕ)
    → let buf = a ∷ b ∷ c ∷ d ∷ e ∷ f ∷ g ∷ h ∷ low ∷ high ∷ rest in
      (crc_check buf 0 8 2).0
      ≡ ends (0xffff - steps (a ∷ b ∷ c ∷ d ∷ e ∷ f ∷ g ∷ h ∷ []) 0) low high
unfolding crc_check crc_loop
crc_check-ten a b c d e f g h low high rest =
    let buf = a ∷ b ∷ c ∷ d ∷ e ∷ f ∷ g ∷ h ∷ low ∷ high ∷ rest in
    let long : ltb (length buf) 10 ≡ false = ground arith in
    rw long (crc_loop-eight (0xffff - steps (a ∷ b ∷ c ∷ d ∷ e ∷ f ∷ g ∷ h ∷ []) 0) c low high rest)

ends-bytes :
    (x low high : ℕ)
    → ends (0xffff - x) low high
      ≡ ((low == (0xffff - x) % 2 ^ 8) && (high == (0xffff - x) / 2 ^ 8 % 2 ^ 8))
ends-bytes x low high =
    let p = bit_and_byte (0xffff - x) in
    let q : (0xffff - x) / 256 % 256 ≡ (0xffff - x) / 256 = omega arith in rw (p, q) (ground arith)

and_false : (x : Bool) → (x && false) ≡ false
and_false true = refl
and_false false = refl

and_true : (x : Bool) → (x && true) ≡ x
and_true true = refl
and_true false = refl

ten_or_more : (n : ℕ) → ltb (suc (suc (suc (suc (suc (suc (suc (suc (suc (suc n)))))))))) 10 ≡ false
ten_or_more n = ground arith

all_bytes-take : (n : ℕ) (buf : List ℕ) → all_bytes buf ≡ true → all_bytes (take n buf) ≡ true
all_bytes-take zero buf h = refl
all_bytes-take (suc n) [] h = refl
all_bytes-take (suc n) (b ∷ buf) h = ground (arith, h, all_bytes-take n buf)

is_header-ten :
    (a b c d e f g h low high : ℕ) (rest : List ℕ)
    → let buf = a ∷ b ∷ c ∷ d ∷ e ∷ f ∷ g ∷ h ∷ low ∷ high ∷ rest in
      is_header buf
      ≡ (ends (0xffff - compute_crcs (take 8 buf) 0) low high && not (ltb (length buf) c))
unfolding is_header
is_header-ten a b c d e f g h low high rest =
    let buf = a ∷ b ∷ c ∷ d ∷ e ∷ f ∷ g ∷ h ∷ low ∷ high ∷ rest in
    let x = compute_crcs (take 8 buf) 0 in
    let long : ltb (length buf) 10 ≡ false = ten_or_more (length rest) in
    let bytes = ends-bytes x low high in
    elim (Bool-cases (ltb (length buf) c)) [
      | inl p ↦ rw (long, p) (sym (and_false (ends (0xffff - x) low high)))
      | inr p ↦ rw (long, p) (sym (and_true (ends (0xffff - x) low high) ∙ bytes))
    ]

long_header :
    (a b c d e f g h low high : ℕ) (rest : List ℕ)
    → let buf = a ∷ b ∷ c ∷ d ∷ e ∷ f ∷ g ∷ h ∷ low ∷ high ∷ rest in
      all_bytes buf ≡ true → is_header buf ≡ ((crc_check buf 0 8 2).0 && not (ltb (length buf) c))
long_header a b c d e f g h low high rest v =
    let buf = a ∷ b ∷ c ∷ d ∷ e ∷ f ∷ g ∷ h ∷ low ∷ high ∷ rest in
    let same = compute_crcs-steps (take 8 buf) 0 (all_bytes-take 8 buf v) in
    is_header-ten a b c d e f g h low high rest
    ∙ ap (λ x. ends (0xffff - x) low high && not (ltb (length buf) c)) same
    ∙ ap (λ x. x && not (ltb (length buf) c)) (sym (crc_check-ten a b c d e f g h low high rest))

-- The checks of a program on bytes are those of `CRCCheck`, and one on the length byte.
is_header-crc_check :
    (buf : List ℕ)
    → all_bytes buf ≡ true
    → is_header buf ≡ ((crc_check buf 0 8 2).0 && not (ltb (length buf) (get_or buf 2 0)))
unfolding is_header crc_check
is_header-crc_check [] v = refl
is_header-crc_check (a ∷ []) v = refl
is_header-crc_check (a ∷ b ∷ []) v = refl
is_header-crc_check (a ∷ b ∷ c ∷ []) v = refl
is_header-crc_check (a ∷ b ∷ c ∷ d ∷ []) v = refl
is_header-crc_check (a ∷ b ∷ c ∷ d ∷ e ∷ []) v = refl
is_header-crc_check (a ∷ b ∷ c ∷ d ∷ e ∷ f ∷ []) v = refl
is_header-crc_check (a ∷ b ∷ c ∷ d ∷ e ∷ f ∷ g ∷ []) v = refl
is_header-crc_check (a ∷ b ∷ c ∷ d ∷ e ∷ f ∷ g ∷ h ∷ []) v = refl
is_header-crc_check (a ∷ b ∷ c ∷ d ∷ e ∷ f ∷ g ∷ h ∷ i ∷ []) v = refl
is_header-crc_check (a ∷ b ∷ c ∷ d ∷ e ∷ f ∷ g ∷ h ∷ low ∷ high ∷ rest) v =
    long_header a b c d e f g h low high rest v

byte_at : (buf : List ℕ) (i : ℕ) → all_bytes buf ≡ true → get_or buf i 0 < 256
byte_at [] i h = omega arith
byte_at (b ∷ buf) zero h = ltb→lt b 256 (ground (arith, h))
byte_at (b ∷ buf) (suc i) h = byte_at buf i (ground (arith, h))

four_bytes-sum :
    (a b c d : ℕ)
    → b < 256
    → c < 256
    → d < 256
    → four_bytes a b c d ≡ a * 2 ^ 24 + b * 2 ^ 16 + c * 2 ^ 8 + d
four_bytes-sum a b c d h l m =
    let p = bit_or_sum 24 a (b * 2 ^ 16) (omega arith) in
    let q = bit_or_sum 16 (a * 2 ^ 8 + b) (c * 2 ^ 8) (omega arith) in
    let r = bit_or_sum 8 (a * 2 ^ 16 + b * 2 ^ 8 + c) d (omega arith) in
    let p2 : a * 2 ^ 24 + b * 2 ^ 16 ≡ (a * 2 ^ 8 + b) * 2 ^ 16 = omega arith in
    let q2 : (a * 2 ^ 8 + b) * 2 ^ 16 + c * 2 ^ 8 ≡ (a * 2 ^ 16 + b * 2 ^ 8 + c) * 2 ^ 8 =
      omega arith in
    ap (λ t. bit_or (bit_or t (c * 2 ^ 8)) d) (p ∙ p2)
    ∙ ap (λ t. bit_or t d) (q ∙ q2)
    ∙ r
    ∙ omega arith

abbrev second : Option (ℕ × ℕ) → ℕ
second none = 0
second (some p) = p.1

flows_of :
    (buf : List ℕ)
    → is_header buf ≡ true
    → get_flows buf
      ≡ some (
        four_bytes (get_or buf 5 0) (get_or buf 4 0) (get_or buf 7 0) (get_or buf 6 0),
        four_bytes (get_or buf 7 0) (get_or buf 6 0) (get_or buf 5 0) (get_or buf 4 0),
      )
unfolding get_flows
flows_of buf y = rw y refl

-- For a buffer of bytes: each of the two programs returns addresses exactly when `CRCCheck` of
-- `DNP3FrameChecker` accepts the header, and the length byte is not above the length of the buffer;
-- and the destination that the flow program returns is the flow number that `CheckFrame` gives to
-- the frames of that header.
pub get_flows-crc_check :
    (buf : List ℕ)
    → all_bytes buf ≡ true
    → let good = (crc_check buf 0 8 2).0 && not (ltb (length buf) (get_or buf 2 0)) in
      (has_value (get_addrs buf) ≡ good)
      × (has_value (get_flows buf) ≡ good)
      × ((src dst : ℕ) → get_flows buf ≡ some (src, dst) → dst ≡ src_dst buf)
unfolding get_addrs get_flows
get_flows-crc_check buf h =
    let e = is_header-crc_check buf h in
    let sum =
      four_bytes-sum (get_or buf 7 0) (get_or buf 6 0) (get_or buf 5 0) (get_or buf 4 0)
        (byte_at buf 6 h) (byte_at buf 5 h) (byte_at buf 4 h) in
    elim (Bool-cases (is_header buf)) [
      | inl y ↦ (
        ground (arith, y, e),
        ground (arith, y, e),
        λ src dst p. ap second (sym p ∙ flows_of buf y) ∙ sum,
      )
      | inr n ↦ (ground (arith, n, e), ground (arith, n, e), λ src dst p. ground (arith, n, p))
    ]

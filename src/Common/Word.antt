-- ===== src/Common/Word.antt =====
-- Machine words: `uint64_t` and the like wrap, written out as a remainder. `long` is 64 bits.
use usbtrace.Common.{ℕ, ◌+◌, ◌-◌, ◌%◌, ◌^◌, ◌<◌, ◌≤◌, ◌≡◌, arith, Bool, not}
use usbtrace.Common.{if◌then◌else◌, ltb}
use usbtrace.Common.Int.{ℤ, pos, negsuc, ltb_ℤ}

abbrev pub u8 : ℕ → ℕ
u8 n = n % 2 ^ 8

abbrev pub u16 : ℕ → ℕ
u16 n = n % 2 ^ 16

abbrev pub u32 : ℕ → ℕ
u32 n = n % 2 ^ 32

abbrev pub u64 : ℕ → ℕ
u64 n = n % 2 ^ 64

-- `a - b` of `uint64_t` operands.
abbrev pub sub_u64 : ℕ → ℕ → ℕ
sub_u64 a b = (a + 2 ^ 64 - b) % 2 ^ 64

-- `(uint64_t)x` of a `long`, and `(uint32_t)x`.
abbrev pub cast_u64 : ℤ → ℕ
cast_u64 (pos n) = n % 2 ^ 64
cast_u64 (negsuc n) = (2 ^ 64 - 1) - n % 2 ^ 64

abbrev pub cast_u32 : ℤ → ℕ
cast_u32 (pos n) = n % 2 ^ 32
cast_u32 (negsuc n) = (2 ^ 32 - 1) - n % 2 ^ 32

-- `(int)x` of a `long`: the low 32 bits, read as a signed number.
abbrev pub sign_32 : ℕ → ℤ
sign_32 n = if ltb n (2 ^ 31) then pos n else negsuc (2 ^ 32 - 1 - n)

abbrev pub cast_i32 : ℤ → ℤ
cast_i32 x = sign_32 (cast_u32 x)

-- Without a wrap the difference is the plain one.
pub sub_u64-eq-sub : (a b : ℕ) → b ≤ a → a < 2 ^ 64 → sub_u64 a b ≡ a - b
sub_u64-eq-sub a b h k = omega arith

abbrev pub leb_ℤ : ℤ → ℤ → Bool
leb_ℤ a b = not (ltb_ℤ b a)

infix 50 ◌==ℤ◌
abbrev pub ◌==ℤ◌ : ℤ → ℤ → Bool
a ==ℤ b = if ltb_ℤ a b then Bool.false else not (ltb_ℤ b a)

-- ===== src/Machine.antt =====
-- Rust's fixed-width arithmetic as the contracts use it. An `i128` or a `u64` is an unbounded
-- integer or number kept in its range: `checked_*` fails outside the range, and the plain operators
-- wrap round, which is what the release profile of Cargo.toml gives (it sets no overflow-checks).
-- `/` on `i128` rounds towards zero, and a division by zero traps.
use astraport_contracts.Base.{
  ℕ, ◌+◌, ◌-◌, ◌/◌, ◌%◌, ◌^◌, ◌≤◌, ◌<◌, ◌≡◌, Bool, Option, none, some, arith, ltb, leb,
  if◌then◌else◌, ◌&&◌, xor,
}
use astraport_contracts.Base.Int.{
  ℤ, pos, negsuc, pos_part, neg_part, magnitude, is_negative, with_sign, ◌+ℤ◌, ◌-ℤ◌, ◌*ℤ◌,
}

-- 2 ^ 127, 2 ^ 128 and 2 ^ 64
abbrev pub i128_half : ℕ
i128_half = 2 ^ 127

abbrev pub i128_modulus : ℕ
i128_modulus = 2 ^ 128

abbrev pub u64_modulus : ℕ
u64_modulus = 2 ^ 64

abbrev pub i128_max : ℤ
i128_max = pos (2 ^ 127 - 1)

abbrev pub InI128 : ℤ → Type 0
InI128 x = (neg_part x ≤ i128_half) × (pos_part x < i128_half)

abbrev pub in_i128 : ℤ → Bool
in_i128 x = leb (neg_part x) i128_half && ltb (pos_part x) i128_half

-- `checked_add`, `checked_sub` and `checked_mul` of `i128`
abbrev pub checked : ℤ → Option ℤ
checked x = if in_i128 x then some x else none

abbrev pub checked_add : ℤ → ℤ → Option ℤ
checked_add a b = checked (a +ℤ b)

abbrev pub checked_sub : ℤ → ℤ → Option ℤ
checked_sub a b = checked (a -ℤ b)

abbrev pub checked_mul : ℤ → ℤ → Option ℤ
checked_mul a b = checked (a *ℤ b)

-- A bit pattern below 2 ^ 128, read as an `i128`.
signed : ℕ → ℤ
signed r = if ltb r i128_half then pos r else negsuc (i128_modulus - 1 - r)

-- The `i128` that is congruent to an integer modulo 2 ^ 128.
unfoldable pub wrap_i128 : ℤ → ℤ
unfolding signed
wrap_i128 (pos n) = signed (n % i128_modulus)
wrap_i128 (negsuc n) = signed (i128_modulus - 1 - n % i128_modulus)

-- The plain operators of `i128`.
unfoldable pub wrapping_add : ℤ → ℤ → ℤ
wrapping_add a b = wrap_i128 (a +ℤ b)

unfoldable pub wrapping_sub : ℤ → ℤ → ℤ
wrapping_sub a b = wrap_i128 (a -ℤ b)

unfoldable pub wrapping_mul : ℤ → ℤ → ℤ
wrapping_mul a b = wrap_i128 (a *ℤ b)

-- `a / b` for `b` not zero. The one quotient out of range, i128::MIN / -1, traps in Rust; no caller
-- here divides by a negative number.
unfoldable pub quotient : ℤ → ℤ → ℤ
quotient a b = with_sign (xor (is_negative a) (is_negative b)) (magnitude a / magnitude b)

-- `checked_add(1)` of `u64`
abbrev pub checked_add_u64 : ℕ → ℕ → Option ℕ
checked_add_u64 a b = if ltb (a + b) u64_modulus then some (a + b) else none

unfoldable pub wrapping_add_u64 : ℕ → ℕ → ℕ
wrapping_add_u64 a b = (a + b) % u64_modulus

-- In range the plain operators are exact.
pub wrap_i128_exact : (x : ℤ) → InI128 x → wrap_i128 x ≡ x
unfolding wrap_i128
wrap_i128_exact (pos n) h = ground arith
wrap_i128_exact (negsuc n) h = ground arith

pub wrapping_add_exact : (a b : ℤ) → InI128 (a +ℤ b) → wrapping_add a b ≡ a +ℤ b
unfolding wrapping_add
wrapping_add_exact a b h = wrap_i128_exact (a +ℤ b) h

pub wrapping_sub_exact : (a b : ℤ) → InI128 (a -ℤ b) → wrapping_sub a b ≡ a -ℤ b
unfolding wrapping_sub
wrapping_sub_exact a b h = wrap_i128_exact (a -ℤ b) h

pub wrapping_mul_exact : (a b : ℤ) → InI128 (a *ℤ b) → wrapping_mul a b ≡ a *ℤ b
unfolding wrapping_mul
wrapping_mul_exact a b h = wrap_i128_exact (a *ℤ b) h

-- Whatever is computed, an `i128` comes out.
pub wrap_i128-InI128 : (x : ℤ) → InI128 (wrap_i128 x)
unfolding wrap_i128
wrap_i128-InI128 (pos n) = ground arith
wrap_i128-InI128 (negsuc n) = ground arith

-- A sum wraps once at the end as well as at every step.
pub wrap_i128-+ℤ : (x y : ℤ) → wrap_i128 (wrap_i128 x +ℤ y) ≡ wrap_i128 (x +ℤ y)
unfolding wrap_i128 signed ◌+ℤ◌
wrap_i128-+ℤ (pos n) (pos m) = ground arith
wrap_i128-+ℤ (pos n) (negsuc m) = ground arith
wrap_i128-+ℤ (negsuc n) (pos m) = ground arith
wrap_i128-+ℤ (negsuc n) (negsuc m) = ground arith

pub wrapping_add_u64_exact : (a b : ℕ) → a + b < u64_modulus → wrapping_add_u64 a b ≡ a + b
unfolding wrapping_add_u64
wrapping_add_u64_exact a b h = omega arith

-- ===== src/Common/Int.antt =====
-- Go's `int`: 64-bit two's complement. The integers stand over the native numbers, and each
-- operation of the program is the exact one followed by `wrap_int`.
use Prim.Native.Nat.{ℕ, suc, ◌+◌, ◌-◌, ◌*◌, ◌/◌, ◌%◌, ◌≤◌}
use mathlib.Core.Path.{◌≡◌}
use mathlib.Core.Bool.{Bool, true, false}
use mathlib.Core.Logic.{◌↔◌}
use native.Mathlib.Omega.{arith}
use stockflow_erp_mock.Common.Tests.{ltb, leb, ◌==◌, if◌then◌else◌}

-- `negsuc n` is -(n + 1).
pub data ℤ : Type 0 where
  pos : ℕ → ℤ
  negsuc : ℕ → ℤ

abbrev pub pos_part : ℤ → ℕ
pos_part (pos n) = n
pos_part (negsuc _) = 0

abbrev pub neg_part : ℤ → ℕ
neg_part (pos _) = 0
neg_part (negsuc n) = suc n

-- The integer a - b.
abbrev pub sub_ℕ : ℕ → ℕ → ℤ
sub_ℕ a b = if ltb a b then negsuc (b - a - 1) else pos (a - b)

abbrev pub ltb_ℤ : ℤ → ℤ → Bool
ltb_ℤ a b = ltb (pos_part a + neg_part b) (pos_part b + neg_part a)

abbrev pub leb_ℤ : ℤ → ℤ → Bool
leb_ℤ a b = leb (pos_part a + neg_part b) (pos_part b + neg_part a)

abbrev pub max_int : ℕ
max_int = 9223372036854775807

-- The values of a Go `int`.
abbrev pub IsInt : ℤ → Type 0
IsInt a = (pos_part a ≤ max_int) × (neg_part a ≤ max_int + 1)

-- The `int` that is congruent to a - b modulo 2^64.
unfoldable pub wrap_int : ℕ → ℕ → ℤ
wrap_int a b =
    let r = (a + (18446744073709551616 - b % 18446744073709551616)) % 18446744073709551616 in
    if leb r max_int then pos r else negsuc (18446744073709551615 - r)

-- `a + b` and `a - b`
unfoldable pub add_int : ℤ → ℤ → ℤ
add_int a b = wrap_int (pos_part a + pos_part b) (neg_part a + neg_part b)

unfoldable pub sub_int : ℤ → ℤ → ℤ
sub_int a b = wrap_int (pos_part a + neg_part b) (neg_part a + pos_part b)

-- `a * n` for a positive constant n
unfoldable pub scale_int : ℤ → ℕ → ℤ
scale_int a n = wrap_int (pos_part a * n) (neg_part a * n)

-- `a / n` for a positive constant n, which rounds towards 0
unfoldable pub quot_int : ℤ → ℕ → ℤ
quot_int a n = sub_ℕ (pos_part a / n) (neg_part a / n)

-- The result of an operation is an `int`.
pub wrap_int-IsInt : (a b : ℕ) → IsInt (wrap_int a b)
unfolding wrap_int
wrap_int-IsInt a b = ground arith

-- Where the exact result is an `int`, the operation is exact.
pub wrap_int_exact : (a b : ℕ) → a ≤ b + max_int → b ≤ a + max_int + 1 → wrap_int a b ≡ sub_ℕ a b
unfolding wrap_int
wrap_int_exact a b h k = ground arith

-- On counts, which are never negative, with a sum that fits.
pub add_int-pos : (a b : ℕ) → a + b ≤ max_int → add_int (pos a) (pos b) ≡ pos (a + b)
unfolding add_int
add_int-pos a b h = ground (arith, wrap_int_exact (a + b) 0)

pub sub_int-pos : (a b : ℕ) → b ≤ a → a ≤ max_int → sub_int (pos a) (pos b) ≡ pos (a - b)
unfolding sub_int
sub_int-pos a b h k = ground (arith, wrap_int_exact a b)

-- `a == b`
unfoldable pub int_eq : ℤ → ℤ → Bool
int_eq (pos a) (pos b) = a == b
int_eq (negsuc a) (negsuc b) = a == b
int_eq _ _ = false

pub int_eq_iff : (a b : ℤ) → (int_eq a b ≡ true) ↔ (a ≡ b)
unfolding int_eq
int_eq_iff (pos a) (pos b) = ground arith
int_eq_iff (pos a) (negsuc b) = ground arith
int_eq_iff (negsuc a) (pos b) = ground arith
int_eq_iff (negsuc a) (negsuc b) = ground arith

-- `int32(a)`: the low 32 bits, as a signed number.
unfoldable pub int32_of : ℤ → ℤ
int32_of a =
    let r = (pos_part a + (4294967296 - neg_part a % 4294967296)) % 4294967296 in
    if leb r 2147483647 then pos r else negsuc (4294967295 - r)

pub int32_of-pos : (n : ℕ) → n ≤ 2147483647 → int32_of (pos n) ≡ pos n
unfolding int32_of
int32_of-pos n h = ground arith

-- ===== src/Base/Words.antt =====
-- Casts to the fixed widths and the arithmetic of `uint32_t` and of the 32-bit `size_t`.
use Prim.Native.Nat.{ℕ, ◌+◌, ◌-◌, ◌*◌, ◌/◌, ◌%◌, ◌^◌}
use mathlib.Core.Bool.{Bool, not}
use qemu_usage_test.Base.Tests.{◌==◌}

abbrev pub u8 : ℕ → ℕ
u8 n = n % 2 ^ 8

abbrev pub u16 : ℕ → ℕ
u16 n = n % 2 ^ 16

abbrev pub u32 : ℕ → ℕ
u32 n = n % 2 ^ 32

abbrev pub add32 : ℕ → ℕ → ℕ
add32 a b = (a + b) % 2 ^ 32

-- `a - b` for `b < 2 ^ 32`; the modulus is added first, since `-` on ℕ stops at 0.
abbrev pub sub32 : ℕ → ℕ → ℕ
sub32 a b = (a + 2 ^ 32 - b) % 2 ^ 32

abbrev pub mul32 : ℕ → ℕ → ℕ
mul32 a b = a * b % 2 ^ 32

-- A number where C wants a truth value, as in a conversion to `bool`.
abbrev pub truth : ℕ → Bool
truth n = not (n == 0)

-- `~a`, `a << k` and `a >> k` of a `uint32_t`.
abbrev pub not32 : ℕ → ℕ
not32 a = 2 ^ 32 - 1 - a

abbrev pub shl32 : ℕ → ℕ → ℕ
shl32 a k = a * 2 ^ k % 2 ^ 32

abbrev pub shr32 : ℕ → ℕ → ℕ
shr32 a k = a / 2 ^ k

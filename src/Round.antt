-- ===== src/Round.antt =====
-- lib/round.h: rounding macros, at operands of type `uint32_t` or `size_t` (32 bits).
use qemu_usage_test.Base.{ℕ, ◌*◌, ◌/◌, mul32, add32, sub32}

-- DIV_ROUND_UP
unfoldable pub div_round_up : ℕ → ℕ → ℕ
div_round_up nom denom = sub32 (add32 nom denom) 1 / denom

-- ROUND_UP
unfoldable pub round_up : ℕ → ℕ → ℕ
round_up x step = mul32 (sub32 (add32 x step) 1 / step) step

-- ROUND_DOWN
unfoldable pub round_down : ℕ → ℕ → ℕ
round_down x step = x / step * step

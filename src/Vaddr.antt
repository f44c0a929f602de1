-- ===== src/Vaddr.antt =====
-- kernel/vaddr.h: pages, and the linear map of physical memory at 3 GB.
use qemu_usage_test.Base.{ℕ, ◌/◌, ◌^◌, ◌<◌, ◌≡◌, Bool, ltb, add32, sub32, arith, true, leb}

abbrev pub page_bits : ℕ
page_bits = 12

abbrev pub page_size : ℕ
page_size = 4096

-- LOADER_PHYS_BASE
abbrev pub kernel_vaddr_base : ℕ
kernel_vaddr_base = 0xc0000000

pub is_user_vaddr : ℕ → Bool
is_user_vaddr vaddr = ltb vaddr kernel_vaddr_base

pub is_kernel_vaddr : ℕ → Bool
is_kernel_vaddr vaddr = leb kernel_vaddr_base vaddr

unfoldable pub ptov : ℕ → ℕ
ptov paddr = add32 paddr kernel_vaddr_base

unfoldable pub vtop : ℕ → ℕ
vtop vaddr = sub32 vaddr kernel_vaddr_base

unfoldable pub pg_no : ℕ → ℕ
pg_no vaddr = vaddr / 2 ^ page_bits

-- The two maps between physical and virtual addresses are inverse on 32-bit addresses, and the
-- addresses of the first GB of memory become kernel addresses.
pub ptov-vtop_inverse :
    (a : ℕ)
    → a < 2 ^ 32
    → (vtop (ptov a) ≡ a) × (ptov (vtop a) ≡ a) × (a < 0x40000000 → is_kernel_vaddr (ptov a) ≡ true)
unfolding ptov vtop is_kernel_vaddr
ptov-vtop_inverse a h = (omega arith, omega arith, λ low. ground arith)

-- ===== src/Devices.antt =====
-- The port accesses of devices/, as what a driver writes in order; what a port answers is a parameter.
pub mod Timer
pub mod Pic
pub mod Gates
pub mod Fb
pub mod Ctype
pub mod Kbd
pub mod Serial
pub mod Block
pub mod Ide
mod Tests
use qemu_usage_test.Base.{ℕ, List}

-- `outb` and `outw` at a port.
pub data PortWrite : Type 0 where
  outb : ℕ → ℕ → PortWrite
  outw : ℕ → ℕ → PortWrite

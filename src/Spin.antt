-- ===== src/Spin.antt =====
-- kernel/sync.c, the spin locks, as one thread of control sees them: nobody else gives a lock back.
pub mod Exclusion
mod Tests
use qemu_usage_test.Base.{
  ℕ, zero, suc, ◌≤◌, ◌≡◌, refl, arith, ◌+◌, ◌%◌, ◌^◌, Bool, leb, Outcome, done, hang, ◌==◌,
  if◌then◌else◌,
}

-- `lock` is the byte of a `spinlock_t`: 1 is free, 0 is held.
-- spin_lock: the lock is exchanged with 0 until something else than 0 comes back.
unfoldable pub spin_lock : ℕ → Outcome ℕ
spin_lock lock = if lock == 0 then hang else done 0

-- `decb` on a byte, and `jle` behind a comparison with 0.
abbrev pub decb : ℕ → ℕ
decb lock = (lock + 255) % 2 ^ 8

abbrev pub is_negative8 : ℕ → Bool
is_negative8 lock = leb (2 ^ 7) lock

-- spin_lock_alt: the lock is taken if the decrement leaves it at 0 or above; else the loop waits for
-- a positive value that nobody stores.
pub spin_lock_alt : ℕ → Outcome ℕ
spin_lock_alt lock = if is_negative8 (decb lock) then hang else done (decb lock)

-- spin_unlock
unfoldable pub spin_unlock : ℕ → ℕ
spin_unlock lock = 1

-- spin_lock_init
unfoldable pub spin_lock_init : ℕ → ℕ
unfolding spin_unlock
spin_lock_init lock = spin_unlock lock

-- On the values that one processor alone can leave, the two locks are the same; a lock on which 128
-- others wait is taken although it is held.
spin_lock_alt-eq :
    (lock : ℕ) → lock ≤ 1 → (spin_lock_alt lock ≡ spin_lock lock) × (spin_lock_alt 128 ≡ done 127)
unfolding spin_lock_alt spin_lock
spin_lock_alt-eq zero h = (refl, refl)
spin_lock_alt-eq (suc zero) h = (refl, refl)
spin_lock_alt-eq (suc (suc lock)) h = absurd (omega arith)

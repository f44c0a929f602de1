-- ===== src/Spin/Tests.antt =====
-- The theorems at a machine whose processor 3 has taken the lock.
use qemu_usage_test.Base.{ℕ, ◌≡◌, refl, true, false}
use qemu_usage_test.Spin.{spin_lock, spin_lock_init}
use qemu_usage_test.Spin.Exclusion.{
  Machine, Reachable, move, start, next, acquire, Reachable-exclusive,
}

abbrev idle : Machine
idle = record { lock = spin_lock_init 0; inside = λ q. false }

abbrev taken : Machine
taken = move 3 true 0 idle

taken-Reachable : Reachable taken
unfolding spin_lock spin_lock_init
taken-Reachable = next idle taken (start 0) (acquire idle 3 0 refl refl)

Reachable-exclusive_example : ◌≡◌ {A = ℕ} 3 3
Reachable-exclusive_example = Reachable-exclusive 3 3 taken-Reachable refl refl

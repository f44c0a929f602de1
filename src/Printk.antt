-- ===== src/Printk.antt =====
-- kernel/utils.c: `printk`, which formats into a buffer of its own and shows the buffer on the screen.
pub mod Laws
mod Tests
use qemu_usage_test.Base.{ℕ, zero, suc, ◌+◌, List, Outcome, done, fault, ◌>>=◌, ltb, if◌then◌else◌}
use qemu_usage_test.Format.{vsprintf}
use qemu_usage_test.Devices.Fb.{Screen, fb_putc}

-- The size of `printk_buf`.
abbrev pub printk_size : ℕ
printk_size = 1024

-- The loop over the `n` characters from `p` on; `high` and `low` are what the cursor's port answers.
unfoldable pub show_loop : ℕ → ℕ → ℕ → ℕ → Screen → Screen
show_loop zero p high low s = s
show_loop (suc n) p high low s = show_loop n (p + 1) high low (fb_putc high low (s.mem p) s)

-- Writing behind the end of the buffer is undefined behaviour.
unfoldable pub printk : ℕ → ℕ → List ℕ → ℕ → ℕ → Screen → Outcome (ℕ × Screen)
printk printk_buf fmt args high low s = do
  r ← vsprintf printk_buf fmt args s.mem
  if ltb printk_size (r.0 + 1)
      then fault
      else done (r.0, show_loop r.0 printk_buf high low (record s { mem = r.1 }))

-- ===== src/Devices/Ide/Polls.antt =====
-- Waiting for a disk: how often the status is read, and what comes back.
use qemu_usage_test.Base.{
  ℕ, zero, suc, ◌<◌, ◌≡◌, ◌≢◌, Bool, false, ◌∷◌, truth, bit_and, u8, ne→==, eq→==, arith,
}
use native.Mathlib.Decide.{ℕ_discrete}
use qemu_usage_test.Devices.Ide.{
  read8, Log, reg_alt_status, sta_bsy, sta_drq, busy_loop, wait_while_busy,
}

-- The log after `n` reads of a port.
abbrev pub read_times : ℕ → ℕ → Log → Log
read_times zero port log = log
read_times (suc n) port log = read_times n port (read8 port ∷ log)

module _ (device : Log → ℕ → ℕ) where
  -- The answer to the read behind `n` others.
  abbrev pub answer : ℕ → ℕ → Log → ℕ
  answer n port log = u8 (device (read_times n port log) port)

  abbrev pub Busy : ℕ → ℕ → Log → Type 0
  Busy n port log = bit_and (answer n port log) sta_bsy ≢ 0

  -- The first idle answer, or none in so many rounds, with the result and the log behind it.
  pub data Polled (port rounds : ℕ) (log : Log) : Bool × Log → Type 0 where
    idle :
        (k : ℕ)
        → k < rounds
        → ((j : ℕ) → j < k → Busy j port log)
        → bit_and (answer k port log) sta_bsy ≡ 0
        → Polled port rounds log
            (truth (bit_and (answer (suc k) port log) sta_drq), read_times (suc (suc k)) port log)
    failed :
        ((j : ℕ) → j < rounds → Busy j port log)
        → Polled port rounds log (false, read_times rounds port log)

  earlier_polls :
      (n port : ℕ) (log : Log)
      → Busy 0 port log
      → ((j : ℕ) → j < n → Busy j port (read8 port ∷ log))
      → (j : ℕ) → j < suc n
      → Busy j port log
  earlier_polls n port log here later zero h = here
  earlier_polls n port log here later (suc j) h = later j (omega arith)

  later_poll :
      (port rounds : ℕ) (log : Log) (r : Bool × Log)
      → Busy 0 port log
      → Polled port rounds (read8 port ∷ log) r
      → Polled port (suc rounds) log r
  later_poll port rounds log _ here (idle k h before now) =
      idle (suc k) (omega arith) (earlier_polls k port log here before) now
  later_poll port rounds log _ here (failed all) = failed (earlier_polls rounds port log here all)

  busy_loop-Polled :
      (rounds base : ℕ) (log : Log)
      → Polled (reg_alt_status base) rounds log (busy_loop device rounds base log)
  unfolding busy_loop
  busy_loop-Polled zero base log = failed (λ j h. absurd (omega arith))
  busy_loop-Polled (suc rounds) base log =
      elim (ℕ_discrete (bit_and (answer 0 (reg_alt_status base) log) sta_bsy) 0) [
        | yes e ↦ rw (eq→== _ _ e) (idle 0 (omega arith) (λ j h. absurd (omega arith)) e)
        | no h ↦ rw (ne→== _ _ h) (
            later_poll (reg_alt_status base) rounds log _ h
              (busy_loop-Polled rounds base (read8 (reg_alt_status base) ∷ log)))
      ]

  -- `wait_while_busy` ends with the first of its 3000 polls that says not busy, reads the status
  -- once more and returns whether data is requested; where all of them say busy, it returns false
  -- after 3000 polls.
  pub wait_while_busy-Polled :
      (base : ℕ) (log : Log)
      → Polled (reg_alt_status base) 3000 log (wait_while_busy device base log)
  wait_while_busy-Polled base log = unfold wait_while_busy in busy_loop-Polled 3000 base log

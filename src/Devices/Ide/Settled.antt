-- ===== src/Devices/Ide/Settled.antt =====
-- An adaptor that nobody else uses: what taking and giving back its semaphores does.
use mathlib.Core.Path.{ap₂}
use qemu_usage_test.Base.{
  ℕ, zero, suc, ◌<◌, ◌≡◌, ◌≢◌, refl, sym, ap, ◌∙◌, Bool, true, false, not, Bool-cases, inl, inr,
  ◌∷◌, Outcome, done, ◌==◌, if◌then◌else◌, eq→==, ne→==, add32, arith,
}
use mathlib.Core.Path.{fun_ext}
use native.Mathlib.Decide.{ℕ_discrete}
use qemu_usage_test.Memory.{Memory}
use qemu_usage_test.Links.{list_empty}
use qemu_usage_test.Spin.{spin_lock, spin_unlock}
use qemu_usage_test.Sched.{Sched, not_positive}
use qemu_usage_test.Semaphore.{Semaphore, sema_up}
use qemu_usage_test.Semaphore.Laws.{sema_down_taken}
use qemu_usage_test.Devices.Ide.{read8, Log, reg_status}
use qemu_usage_test.Devices.Ide.Transfer.{
  Ide, AtaAdaptor, set_channel, up_wait, up_rw, down_wait, down_rw, ide_interrupt,
}

if_same {ℓ} : {A : Type ℓ} (b : Bool) (x : A) → (if b then x else x) ≡ x
if_same true x = refl
if_same false x = refl

sema_up_alone :
    (sema : Semaphore) (s : Sched)
    → sema.slock ≡ 1
    → list_empty sema.wait s.links ≡ true
    → sema_up sema s ≡ done (record sema { count = add32 sema.count 1; slock = 1 }, s)
unfolding sema_up spin_lock spin_unlock
sema_up_alone sema s free empty =
    rw (free, empty, if_same (not (not_positive (add32 sema.count 1))) (done s)) refl

-- The semaphores of an adaptor, both unlocked, with these counts.
abbrev pub with_counts : ℕ → ℕ → AtaAdaptor → AtaAdaptor
with_counts free pending chan = record chan {
  sema_rw = record (chan.sema_rw) { count = free; slock = 1 };
  sema_wait = record (chan.sema_wait) { count = pending; slock = 1 };
}

-- The state `s` but for the counts of one adaptor, the accesses and the memory.
abbrev pub settled : ℕ → ℕ → ℕ → Log → Memory → Ide → Ide
settled c free pending log mem s = record s {
  channels = λ d. if d == c then with_counts free pending (s.channels c) else s.channels d;
  log = log;
  devices = record (s.devices) { mem = mem };
}

-- An adaptor that nobody uses: its locks are free, one may read or write, and no interrupt is pending.
pub record Unused (c : ℕ) (s : Ide) : Type 0 where
  pub adaptor : c < 2
  pub apart : (s.channels 0).irq ≢ (s.channels 1).irq
  pub lock_free : (s.channels c).slock ≡ 1
  pub rw_free : (s.channels c).sema_rw.slock ≡ 1
  pub rw_count : (s.channels c).sema_rw.count ≡ 1
  pub rw_empty : list_empty (s.channels c).sema_rw.wait s.sched.links ≡ true
  pub wait_free : (s.channels c).sema_wait.slock ≡ 1
  pub wait_count : (s.channels c).sema_wait.count ≡ 0
  pub wait_empty : list_empty (s.channels c).sema_wait.wait s.sched.links ≡ true

pub settled-channel :
    (c free pending : ℕ) (log : Log) (mem : Memory) (s : Ide)
    → (settled c free pending log mem s).channels c ≡ with_counts free pending (s.channels c)
settled-channel c free pending log mem s = rw (eq→== c c refl) refl

-- The counts of a settled adaptor are set anew.
set_channel-settled :
    (c free pending free' pending' : ℕ) (log : Log) (mem : Memory) (s : Ide)
    → set_channel c (with_counts free' pending' (s.channels c)) (settled c free pending log mem s)
      ≡ settled c free' pending' log mem s
set_channel-settled c free pending free' pending' log mem s =
    ap (λ (chans : ℕ → AtaAdaptor). record (settled c free pending log mem s) { channels = chans })
      (fun_ext (λ d. elim (Bool-cases (d == c)) [ inl e ↦ rw e refl | inr e ↦ rw e refl ]))

pub down_rw-settled :
    (device : Log → ℕ → ℕ) (meanwhile : Ide → Outcome Ide) (c pending : ℕ) (log : Log)
    (mem : Memory) (s : Ide)
    → down_rw device meanwhile c (settled c 1 pending log mem s)
      ≡ done (settled c 0 pending log mem s)
unfolding down_rw
down_rw-settled device meanwhile c pending log mem s =
    rw
      (
        settled-channel c 1 pending log mem s,
        sema_down_taken ((with_counts 1 pending (s.channels c)).sema_rw) s.sched refl refl,
      )
      (ap done (set_channel-settled c 1 pending 0 pending log mem s))

pub up_rw-settled :
    (c pending : ℕ) (log : Log) (mem : Memory) (s : Ide)
    → list_empty (s.channels c).sema_rw.wait s.sched.links ≡ true
    → up_rw c (settled c 0 pending log mem s) ≡ done (settled c 1 pending log mem s)
unfolding up_rw
up_rw-settled c pending log mem s empty =
    rw
      (
        settled-channel c 0 pending log mem s,
        sema_up_alone ((with_counts 0 pending (s.channels c)).sema_rw) s.sched refl empty,
      )
      (ap done (set_channel-settled c 0 pending 1 pending log mem s))

up_wait-settled :
    (c free : ℕ) (log : Log) (mem : Memory) (s : Ide)
    → list_empty (s.channels c).sema_wait.wait s.sched.links ≡ true
    → up_wait c (settled c free 0 log mem s) ≡ done (settled c free 1 log mem s)
unfolding up_wait
up_wait-settled c free log mem s empty =
    rw
      (
        settled-channel c free 0 log mem s,
        sema_up_alone ((with_counts free 0 (s.channels c)).sema_wait) s.sched refl empty,
      )
      (ap done (set_channel-settled c free 0 free 1 log mem s))

-- The interrupt of an adaptor reads its status and lets one wait through.
interrupt-settled :
    (c free : ℕ) (log : Log) (mem : Memory) (s : Ide)
    → Unused c s
    → ide_interrupt (s.channels c).irq (settled c free 0 log mem s)
      ≡ done (settled c free 1 (read8 (reg_status (s.channels c).reg_base) ∷ log) mem s)
unfolding ide_interrupt
interrupt-settled zero free log mem s u =
    rw (eq→== (s.channels 0).irq (s.channels 0).irq refl)
      (up_wait-settled 0 free (read8 (reg_status (s.channels 0).reg_base) ∷ log) mem s u.wait_empty)
interrupt-settled (suc zero) free log mem s u =
    rw
      (
        ne→== (s.channels 0).irq (s.channels 1).irq u.apart,
        eq→== (s.channels 1).irq (s.channels 1).irq refl,
      )
      (up_wait-settled 1 free (read8 (reg_status (s.channels 1).reg_base) ∷ log) mem s u.wait_empty)
interrupt-settled (suc (suc c)) free log mem s u = absurd (omega (arith, u.adaptor))

-- An interrupt in time lets the wait through at once.
pub down_wait-settled :
    (device : Log → ℕ → ℕ) (meanwhile : Ide → Outcome Ide) (c free : ℕ) (log : Log) (mem : Memory)
    (s : Ide)
    → Unused c s
    → ((t : Ide) → meanwhile t ≡ ide_interrupt (s.channels c).irq t)
    → down_wait device meanwhile c (settled c free 0 log mem s)
      ≡ done (settled c free 0 (read8 (reg_status (s.channels c).reg_base) ∷ log) mem s)
unfolding down_wait
down_wait-settled device meanwhile c free log mem s u m =
    let log' = read8 (reg_status (s.channels c).reg_base) ∷ log in
    rw
      (
        m (settled c free 0 log mem s),
        interrupt-settled c free log mem s u,
        settled-channel c free 1 log' mem s,
        sema_down_taken ((with_counts free 1 (s.channels c)).sema_wait) s.sched refl refl,
      )
      (ap done (set_channel-settled c free 1 free 0 log' mem s))

counted :
    (sema : Semaphore) (k : ℕ)
    → sema.slock ≡ 1
    → sema.count ≡ k
    → record sema { count = k; slock = 1 } ≡ sema
counted sema k free e = ap₂ (λ n l. record sema { count = n; slock = l }) (sym e) (sym free)

-- The state with other accesses and another memory.
abbrev pub accessed : Log → Memory → Ide → Ide
accessed log mem s = record s { log = log; devices = record (s.devices) { mem = mem } }

pub Unused-settled :
    (c : ℕ) (log : Log) (mem : Memory) (s : Ide)
    → Unused c s
    → settled c 1 0 log mem s ≡ accessed log mem s
Unused-settled c log mem s u =
    let chan = s.channels c in
    let same : with_counts 1 0 chan ≡ chan =
      ap₂ (λ rw_sema wait_sema. record chan { sema_rw = rw_sema; sema_wait = wait_sema })
        (counted chan.sema_rw 1 u.rw_free u.rw_count)
        (counted chan.sema_wait 0 u.wait_free u.wait_count) in
    ap (λ (chans : ℕ → AtaAdaptor). record (accessed log mem s) { channels = chans })
      (fun_ext (λ d. elim (ℕ_discrete d c) [
        | yes e ↦ rw (eq→== d c e) (same ∙ sym (ap s.channels e))
        | no h ↦ rw (ne→== d c h) refl
      ]))

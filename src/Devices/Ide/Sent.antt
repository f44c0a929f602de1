-- ===== src/Devices/Ide/Sent.antt =====
-- The words that reach a disk: what the accesses to the registers of an adaptor send.
use mathlib.Core.List.{append-nil}
use qemu_usage_test.Base.{
  ℕ, zero, suc, ◌+◌, ◌≤◌, ◌≡◌, Option, some, none, u8, refl, sym, ap, ◌∙◌, Bool, Bool-cases, inl,
  inr, List, [], ◌∷◌, ◌++◌, ◌==◌, if◌then◌else◌, eq→==, ne→==, bit_and, arith,
}
use qemu_usage_test.Memory.{Memory}
use qemu_usage_test.Devices.Ide.{
  read8, read16, read32, write8, write16, write32, Log, outb, outsw, reg_data, reg_status,
  reg_command, reg_alt_status, sta_bsy, busy_loop, wait_while_busy, select_sector,
}
use qemu_usage_test.Devices.Ide.Copy.{words, sent, outsw-sent}

-- The words behind the last command that went to the data port of the adaptor at `base`, in front
-- of `later`.
pub data_sent : ℕ → Log → List ℕ → List ℕ
data_sent base [] later = later
data_sent base (read8 port ∷ log) later = data_sent base log later
data_sent base (read16 port ∷ log) later = data_sent base log later
data_sent base (read32 port ∷ log) later = data_sent base log later
data_sent base (write8 port value ∷ log) later =
    let earlier = data_sent base log later in if port == reg_command base then later else earlier
data_sent base (write16 port value ∷ log) later =
    let with_this = data_sent base log (value ∷ later) in
    let without = data_sent base log later in if port == reg_data base then with_this else without
data_sent base (write32 port value ∷ log) later = data_sent base log later

-- The value that was last written to a port.
pub last_value : ℕ → Log → Option ℕ
last_value port [] = none
last_value port (read8 p ∷ log) = last_value port log
last_value port (read16 p ∷ log) = last_value port log
last_value port (read32 p ∷ log) = last_value port log
last_value port (write8 p value ∷ log) =
    let earlier = last_value port log in if p == port then some value else earlier
last_value port (write16 p value ∷ log) =
    let earlier = last_value port log in if p == port then some value else earlier
last_value port (write32 p value ∷ log) =
    let earlier = last_value port log in if p == port then some value else earlier

-- The last command behind `log` is a write of a sector, the last one behind `log'` a read, and
-- number, device and count of sectors are the same.
pub record Repeated (base : ℕ) (log log' : Log) : Type 0 where
  pub writes : last_value (reg_command base) log ≡ some 0x30
  pub reads : last_value (reg_command base) log' ≡ some 0x20
  pub same : (r : ℕ) → 2 ≤ r → r ≤ 6 → last_value (base + r) log ≡ last_value (base + r) log'

-- The polls only read, so what does not depend on reads is the same behind them.
busy_loop_reads {ℓ} :
    {A : Type ℓ} (device : Log → ℕ → ℕ) (f : Log → A) (rounds base : ℕ) (log : Log)
    → ((port : ℕ) (l : Log) → f (read8 port ∷ l) ≡ f l)
    → f (busy_loop device rounds base log).1 ≡ f log
unfolding busy_loop
busy_loop_reads device f zero base log same = refl
busy_loop_reads device f (suc rounds) base log same =
    let port = reg_alt_status base in
    elim (Bool-cases (bit_and (u8 (device log port)) sta_bsy == 0)) [
      | inl e ↦ rw e (same port (read8 port ∷ log) ∙ same port log)
      | inr e ↦ rw e (busy_loop_reads device f rounds base (read8 port ∷ log) same ∙ same port log)
    ]

polls_read {ℓ} :
    {A : Type ℓ} (device : Log → ℕ → ℕ) (f : Log → A) (base : ℕ) (log log' : Log) (ok : Bool)
    → ((port : ℕ) (l : Log) → f (read8 port ∷ l) ≡ f l)
    → wait_while_busy device base log ≡ (ok, log')
    → f log' ≡ f log
unfolding wait_while_busy
polls_read device f base log log' ok same e =
    ap (λ (r : Bool × Log). f r.1) (sym e) ∙ busy_loop_reads device f 3000 base log same

-- The words that are sent stand behind the earlier ones.
sent-data_sent :
    (base : ℕ) (ws : List ℕ) (log : Log) (later : List ℕ)
    → data_sent base (sent (reg_data base) ws log) later ≡ data_sent base log (ws ++ later)
unfolding data_sent
sent-data_sent base [] log later = refl
sent-data_sent base (w ∷ ws) log later =
    sent-data_sent base ws (write16 (reg_data base) w ∷ log) later ∙ rw (eq→== base base refl) refl

-- A command starts anew, and `outsw` behind it and its polls sends the words of its buffer.
pub outsw-data_sent :
    (device : Log → ℕ → ℕ) (base cmd q n : ℕ) (mem : Memory) (log log' : Log) (ok : Bool)
    → wait_while_busy device base (write8 (reg_command base) cmd ∷ log) ≡ (ok, log')
    → data_sent base (read8 (reg_status base) ∷ outsw (reg_data base) q n mem log') []
      ≡ words q n mem
unfolding data_sent
outsw-data_sent device base cmd q n mem log log' ok e =
    let ws = words q n mem ++ [] in
    ap (λ l. data_sent base l []) (outsw-sent (reg_data base) q n mem log')
    ∙ sent-data_sent base (words q n mem) log' []
    ∙ polls_read device (λ l. data_sent base l ws) base (write8 (reg_command base) cmd ∷ log) log'
        ok (λ port l. refl) e
    ∙ rw (eq→== (reg_command base) (reg_command base) refl) (append-nil (words q n mem))

-- The registers of a sector behind its selection do not depend on what was written before.
select_sector-same :
    (device : Log → ℕ → ℕ) (base dev_no sect_no r : ℕ) (log log' : Log)
    → 2 ≤ r
    → r ≤ 6
    → last_value (base + r) (select_sector device base dev_no sect_no log)
      ≡ last_value (base + r) (select_sector device base dev_no sect_no log')
unfolding last_value select_sector
select_sector-same device base dev_no sect_no r log log' low high = ground (arith, low, high)

last_value-command :
    (base cmd : ℕ) (log : Log)
    → last_value (reg_command base) (outb (reg_command base) cmd log) ≡ some (u8 cmd)
unfolding last_value
last_value-command base cmd log = rw (eq→== (reg_command base) (reg_command base) refl) refl

last_value-others :
    (base cmd r : ℕ) (log : Log)
    → r ≤ 6
    → last_value (base + r) (outb (reg_command base) cmd log) ≡ last_value (base + r) log
unfolding last_value
last_value-others base cmd r log h =
    rw (ne→== (reg_command base) (base + r) (omega (arith, h))) refl

-- Two commands to the same sector of a disk, the first a write and the second a read.
pub commands-Repeated :
    (device : Log → ℕ → ℕ) (base dev_no sect_no : ℕ) (log log' out back : Log) (ok ok' : Bool)
    → wait_while_busy device base
        (outb (reg_command base) 0x30 (select_sector device base dev_no sect_no log))
      ≡ (ok, out)
    → wait_while_busy device base (
        read8 (reg_status base)
        ∷ outb (reg_command base) 0x20 (select_sector device base dev_no sect_no log'))
      ≡ (ok', back)
    → Repeated base out back
unfolding last_value
commands-Repeated device base dev_no sect_no log log' out back ok ok' wrote read =
    let first = select_sector device base dev_no sect_no log in
    let second = select_sector device base dev_no sect_no log' in
    let command = reg_command base in
    record {
      writes =
          polls_read device (last_value command) base (outb command 0x30 first) out ok
            (λ port l. refl) wrote
          ∙ last_value-command base 0x30 first;
      reads =
          polls_read device (last_value command) base (read8 command ∷ outb command 0x20 second)
            back ok' (λ port l. refl) read
          ∙ last_value-command base 0x20 second;
      same = λ r low high.
          polls_read device (last_value (base + r)) base (outb command 0x30 first) out ok
            (λ port l. refl) wrote
          ∙ last_value-others base 0x30 r first high
          ∙ select_sector-same device base dev_no sect_no r log log' low high
          ∙ sym (
              polls_read device (last_value (base + r)) base
                (read8 command ∷ outb command 0x20 second) back ok' (λ port l. refl) read
              ∙ last_value-others base 0x20 r second high);
    }

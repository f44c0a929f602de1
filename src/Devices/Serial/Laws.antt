-- ===== src/Devices/Serial/Laws.antt =====
-- What the serial port is told.
use qemu_usage_test.Base.{
  ℕ, ◌/◌, ◌%◌, ◌≡◌, ◌≢◌, refl, ◌∙◌, false, true, Bool, List, [], ◌∷◌, ◌++◌, done, hang, All, truth,
  bit_and, bit_or, ne→==, arith,
}
use qemu_usage_test.Base.Binary.{bit_and-ones}
use qemu_usage_test.Devices.{PortWrite, outb, outw}
use qemu_usage_test.Devices.Serial.{serial_set_rate, serial_init_poll, serial_putc_poll, thr_reg}

-- The ports that a write goes to.
abbrev pub port_of : PortWrite → ℕ
port_of (outb port value) = port
port_of (outw port value) = port

-- What `serial_set_rate` writes, given the answer `lcr` of its line control register.
abbrev pub rate_writes : ℕ → ℕ → List PortWrite
rate_writes lcr divisor =
    outb 0x3fc (bit_or lcr 0x80)
    ∷ outb 0x3f8 (divisor % 256)
    ∷ outb 0x3f9 (divisor % 256)
    ∷ outb 0x3fc (bit_and (bit_or lcr 0x80) 0x7f)
    ∷ []

-- What `serial_init_poll` writes.
abbrev pub poll_writes : ℕ → List PortWrite
poll_writes lcr = outb 0x3f9 0 ∷ outb 0x3fb 0 ∷ outb 0x3fc 3 ∷ rate_writes lcr 12

-- `put` is what a write does to a 16550 at 0x3f8, `dlab` the latch access bit of its line control
-- register, which is at 0x3fb, and `latch` its divisor latch.
module _ {S : Type 0} (put : PortWrite → S → S) (dlab : S → Bool) (latch : S → ℕ) where
  pub record Uart : Type 0 where
    pub sets_dlab :
        (value : ℕ) (u : S) → dlab (put (outb 0x3fb value) u) ≡ truth (bit_and value 0x80)
    pub keeps_dlab : (w : PortWrite) (u : S) → port_of w ≢ 0x3fb → dlab (put w u) ≡ dlab u
    pub keeps_latch : (w : PortWrite) (u : S) → dlab u ≡ false → latch (put w u) ≡ latch u

  -- The port after the writes of a routine.
  abbrev pub tell : List PortWrite → S → S
  tell [] u = u
  tell (w ∷ ws) u = tell ws (put w u)

  -- Writes that leave the latch closed.
  abbrev Closed : List PortWrite → Type 0
  Closed ws = All (λ w. (u : S) → dlab u ≡ false → dlab (put w u) ≡ false) ws

  tell-Closed :
      (ws : List PortWrite) (u : S)
      → Uart
      → Closed ws
      → dlab u ≡ false
      → (dlab (tell ws u) ≡ false) × (latch (tell ws u) ≡ latch u)
  tell-Closed [] u is closed h = (h, refl)
  tell-Closed (w ∷ ws) u is (c, cs) h =
      let later = tell-Closed ws (put w u) is cs (c u h) in
      (later.0, later.1 ∙ is.keeps_latch w u h)

  elsewhere :
      (w : PortWrite) → Uart → port_of w ≢ 0x3fb → (u : S) → dlab u ≡ false → dlab (put w u) ≡ false
  elsewhere w is h u e = is.keeps_dlab w u h ∙ e

  rate_writes-Closed : (lcr divisor : ℕ) → Uart → Closed (rate_writes lcr divisor)
  rate_writes-Closed lcr divisor is = (
    elsewhere _ is (omega arith),
    (
      elsewhere _ is (omega arith),
      (elsewhere _ is (omega arith), (elsewhere _ is (omega arith), tt)),
    ),
  )

  -- For a rate other than 0 and any 16550 at 0x3f8, that is, a port whose latch access bit only a
  -- write to 0x3fb changes, to bit 7 of the value, and whose divisor latch no write changes while
  -- that bit is 0: `serial_set_rate` and `serial_init_poll` write exactly the listed values to
  -- the listed ports, the former to 0x3fc around the low byte of the divisor for both halves, the
  -- latter with 0 for 0x3f9 and 0x3fb and 3 for 0x3fc before that; from a port whose latch is
  -- closed, both leave the divisor latch as it was, and `serial_init_poll` leaves it closed, so
  -- that the rate is not set.
  pub serial_init_poll_no_rate :
      (lcr bps : ℕ) (u : S)
      → bps ≢ 0
      → Uart
      → dlab u ≡ false
      → (serial_set_rate lcr bps ≡ done (rate_writes lcr (115200 / bps)))
        × (serial_init_poll lcr ≡ done (poll_writes lcr))
        × (latch (tell (rate_writes lcr (115200 / bps)) u) ≡ latch u)
        × (dlab (tell (poll_writes lcr) u) ≡ false)
        × (latch (tell (poll_writes lcr) u) ≡ latch u)
  unfolding serial_set_rate serial_init_poll
  serial_init_poll_no_rate lcr bps u h is e =
      let closed : Closed (poll_writes lcr) = (
        elsewhere _ is (omega arith),
        (λ u' e'. is.sets_dlab 0 u', (elsewhere _ is (omega arith), rate_writes-Closed lcr 12 is)),
      ) in
      let all = tell-Closed (poll_writes lcr) u is closed e in
      (
        rw (ne→== bps 0 h, bit_and-ones 8 (115200 / bps)) refl,
        refl,
        (tell-Closed (rate_writes lcr (115200 / bps)) u is
            (rate_writes-Closed lcr (115200 / bps) is) e).1,
        all.0,
        all.1,
      )

-- `serial_putc_poll` sends the character once, at the first answer of the line status register that
-- says ready, and as long as there is none it does not return.
pub serial_putc_poll_lem :
    (busy : List ℕ) (ready : ℕ) (rest : List ℕ) (ch : ℕ)
    → All (λ status. truth (bit_and status 0x20) ≡ false) busy
    → (truth (bit_and ready 0x20) ≡ true
        → serial_putc_poll (busy ++ ready ∷ rest) ch ≡ done (outb thr_reg ch ∷ []))
      × (serial_putc_poll busy ch ≡ hang)
unfolding serial_putc_poll
serial_putc_poll_lem [] ready rest ch h = ((λ e. rw e refl), refl)
serial_putc_poll_lem (status ∷ busy) ready rest ch (h, hs) =
    let later = serial_putc_poll_lem busy ready rest ch hs in
    ((λ e. rw h (later.0 e)), rw h later.1)

-- ===== src/Devices/Timer/Laws.antt =====
-- The rate that the timer runs at, as the device reads the writes.
use mathlib.Core.Path.{subst₂}
use native.Mathlib.Nat.{le-div_iff_mul-le, div-lt_iff_lt-mul, div-mul-le_self, lt-mul-div-succ}
use qemu_usage_test.Base.{
  ℕ, ◌+◌, ◌*◌, ◌/◌, ◌%◌, ◌≤◌, ◌<◌, ◌≡◌, refl, sym, ◌==◌, if◌then◌else◌, ◌⊎◌, inl, inr, List, [],
  ◌∷◌, arith, u8, shr32,
}
use qemu_usage_test.Devices.{PortWrite, outb}
use qemu_usage_test.Devices.Timer.{timer_counter, tick_hz, hw_timer_config, timer_ctrl, timer_data}

-- The count that the device goes through for a counter.
abbrev pub counted : ℕ → ℕ
counted counter = if counter == 0 then 65536 else counter

counted_eq : (f : ℕ) → 19 ≤ f → f ≤ tick_hz → counted (timer_counter f) ≡ tick_hz / f
unfolding timer_counter
counted_eq f lo hi =
    let pos : 0 < f = omega arith in
    let some_tick : 1 ≤ tick_hz / f = (le-div_iff_mul-le pos).1 (omega arith) in
    let fits : tick_hz / f < 65536 = (div-lt_iff_lt-mul pos).1 (omega arith) in ground arith

-- For frequencies from 19 to the tick rate, the counter that is computed, with 0 standing for
-- 65536, is the number of ticks in a period, rounded down.
pub timer_counter_exact :
    (frequency : ℕ)
    → 19 ≤ frequency
    → frequency ≤ tick_hz
    → (counted (timer_counter frequency) * frequency ≤ tick_hz)
      × (tick_hz < frequency * (counted (timer_counter frequency) + 1))
timer_counter_exact f lo hi =
    rw (counted_eq f lo hi) (div-mul-le_self tick_hz f, lt-mul-div-succ tick_hz (omega arith))

-- At 18 Hz the counter is cut to 16 bits.
pub timer_counter_wraps : (counted (timer_counter 18) ≡ 751) × (tick_hz / 18 ≡ 66287)
unfolding timer_counter
timer_counter_wraps = (refl, refl)

-- What a list of writes tells the timer: its channel, its mode and its counter.
pub record Programs (channel mode counter : ℕ) (writes : List PortWrite) : Type 0 where
  pub command : ℕ
  pub low : ℕ
  pub high : ℕ
  pub are :
      writes
      ≡ outb timer_ctrl command
        ∷ outb (timer_data channel) low
        ∷ outb (timer_data channel) high
        ∷ []
  pub channel_field : command / 64 ≡ channel
  pub access_field : command / 16 % 4 ≡ 3
  pub mode_field : command / 2 % 8 ≡ mode
  pub whole : low + 256 * high ≡ counter
  pub bytes : (command < 256) × (low < 256) × (high < 256)

counter-small : (f : ℕ) → timer_counter f < 65536
unfolding timer_counter
counter-small f = ground arith

at_choice :
    (c m c' m' f : ℕ)
    → c ≡ c'
    → m ≡ m'
    → Programs c' m' (timer_counter f) (hw_timer_config c' m' f)
    → Programs c m (timer_counter f) (hw_timer_config c m f)
at_choice c m c' m' f a b h =
    subst₂ (λ c m. Programs c m (timer_counter f) (hw_timer_config c m f)) (sym a) (sym b) h

programs :
    (c m f command : ℕ)
    → hw_timer_config c m f
      ≡ outb timer_ctrl command
        ∷ outb (timer_data c) (u8 (timer_counter f))
        ∷ outb (timer_data c) (u8 (shr32 (timer_counter f) 8))
        ∷ []
    → command / 64 ≡ c
    → command / 16 % 4 ≡ 3
    → command / 2 % 8 ≡ m
    → command < 256
    → Programs c m (timer_counter f) (hw_timer_config c m f)
programs c m f command e channel access mode small = record {
  command = command;
  low = u8 (timer_counter f);
  high = u8 (shr32 (timer_counter f) 8);
  are = e;
  channel_field = channel;
  access_field = access;
  mode_field = mode;
  whole = omega (arith, counter-small f);
  bytes = (small, omega arith, omega arith);
}

-- For channel 0 or 2 and mode 2 or 3, `hw_timer_config` writes a command byte with this channel,
-- both bytes of access and this mode, and then the two bytes of the counter, the low one first.
pub hw_timer_config-Programs :
    (channel mode frequency : ℕ)
    → (channel ≡ 0) ⊎ (channel ≡ 2)
    → (mode ≡ 2) ⊎ (mode ≡ 3)
    → Programs channel mode (timer_counter frequency) (hw_timer_config channel mode frequency)
unfolding hw_timer_config
hw_timer_config-Programs c m f (inl a) (inl b) =
    at_choice c m 0 2 f a b (programs 0 2 f 0x34 refl refl refl refl (omega arith))
hw_timer_config-Programs c m f (inl a) (inr b) =
    at_choice c m 0 3 f a b (programs 0 3 f 0x36 refl refl refl refl (omega arith))
hw_timer_config-Programs c m f (inr a) (inl b) =
    at_choice c m 2 2 f a b (programs 2 2 f 0xb4 refl refl refl refl (omega arith))
hw_timer_config-Programs c m f (inr a) (inr b) =
    at_choice c m 2 3 f a b (programs 2 3 f 0xb6 refl refl refl refl (omega arith))

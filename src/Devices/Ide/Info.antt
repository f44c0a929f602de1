-- ===== src/Devices/Ide/Info.antt =====
-- devices/ide.c, manipulate_info_string: the strings of the identification.
use mathlib.Core.Path.{subst}
use qemu_usage_test.Base.{
  ℕ, zero, suc, ◌+◌, ◌-◌, ◌*◌, ◌%◌, ◌^◌, ◌≤◌, ◌<◌, ◌≡◌, ◌≢◌, refl, sym, ap, ◌∙◌, ◌&&◌, Outcome,
  done, hang, ◌>>=◌, ltb, leb, ◌==◌, if◌then◌else◌, sub32, lt→ltb, le→leb, ◌⊎◌, inl, inr, eq→==,
  ne→==, le→ltb, arith,
}
use native.Mathlib.Decide.{ℕ_discrete, dec_le}
use qemu_usage_test.Memory.{Memory, poke}

-- The two bytes at `p` change places.
abbrev pub swap_bytes : ℕ → Memory → Memory
swap_bytes p mem = poke (poke mem (p + 1) (mem p)) p (mem (p + 1))

-- The first loop from `i` on, with the rounds that are left.
pub swap_loop : ℕ → ℕ → ℕ → ℕ → Memory → Outcome Memory
swap_loop zero i size orig mem = if ltb i (sub32 size 1) then hang else done mem
swap_loop (suc rounds) i size orig mem =
    let rest = swap_loop rounds (i + 2) size orig (swap_bytes (orig + i) mem) in
    if ltb i (sub32 size 1) then rest else done mem

-- The second loop from `i` downwards: where it stops.
pub trim_loop : ℕ → ℕ → Memory → ℕ
trim_loop zero orig mem = zero
trim_loop (suc i) orig mem =
    let rest = trim_loop i orig mem in if mem (orig + suc i) == 0 then rest else suc i

unfoldable pub manipulate_info_string : ℕ → ℕ → Memory → Outcome Memory
manipulate_info_string orig size mem = do
  mem ← swap_loop size 0 size orig mem
  done (poke mem (orig + trim_loop (sub32 size 1) orig mem) 0)

-- The other byte of the word of byte `k`.
abbrev pub partner : ℕ → ℕ
partner k = if k % 2 == 0 then k + 1 else k - 1

-- The bytes of `n` words at `p` with those of each word exchanged.
abbrev pub swapped : ℕ → ℕ → Memory → ℕ → ℕ
swapped p n mem a = if leb p a && ltb a (p + 2 * n) then mem (p + partner (a - p)) else mem a

record Swaps (p n : ℕ) (mem : Memory) (r : Outcome Memory) : Type 0 where
  mem' : Memory
  returns : r ≡ done mem'
  bytes : (a : ℕ) → mem' a ≡ swapped p n mem a

partner-below : (p a : ℕ) → p + 2 ≤ a → p + 2 + partner (a - (p + 2)) ≡ p + partner (a - p)
partner-below p a h = ground (arith, h)

swap_bytes-outside : (p a : ℕ) (mem : Memory) → p + 2 ≤ a → swap_bytes p mem a ≡ mem a
unfolding poke
swap_bytes-outside p a mem h = ground (arith, h)

swapped_step :
    (p n a : ℕ) (mem : Memory) → swapped (p + 2) n (swap_bytes p mem) a ≡ swapped p (suc n) mem a
unfolding poke
swapped_step p n a mem = elim (dec_le (p + 2) a) [
  | yes h ↦
      let far : p + 2 ≤ p + partner (a - p) = ground (arith, h) in
      let there = swap_bytes-outside p (p + partner (a - p)) mem far in
      let here = swap_bytes-outside p a mem h in
      let same = ap (swap_bytes p mem) (partner-below p a h) in ground (arith, h, there, here, same)
  | no h ↦ elim (ℕ_discrete a p) [
    | yes e ↦
        subst (λ x. swapped (p + 2) n (swap_bytes p mem) x ≡ swapped p (suc n) mem x) (sym e)
          (ground arith)
    | no k ↦ ground (arith, h, k)
  ]
]

swap_loop-Swaps :
    (rounds n i size orig : ℕ) (mem : Memory)
    → size ≡ i + 2 * n
    → 0 < size
    → size < 2 ^ 32
    → n ≤ rounds
    → Swaps (orig + i) n mem (swap_loop rounds i size orig mem)
unfolding swap_loop
swap_loop-Swaps zero zero i size orig mem e pos small h =
    rw (le→ltb i (sub32 size 1) (omega arith))
      (record { mem' = mem; returns = refl; bytes = λ a. ground arith })
swap_loop-Swaps zero (suc n) i size orig mem e pos small h = absurd (omega arith)
swap_loop-Swaps (suc rounds) zero i size orig mem e pos small h =
    rw (le→ltb i (sub32 size 1) (omega arith))
      (record { mem' = mem; returns = refl; bytes = λ a. ground arith })
swap_loop-Swaps (suc rounds) (suc n) i size orig mem e pos small h =
    let rest =
      swap_loop-Swaps rounds n (i + 2) size orig (swap_bytes (orig + i) mem) (omega arith) pos small
        (omega arith) in
    rw (lt→ltb i (sub32 size 1) (omega arith)) (record {
      mem' = rest.mem';
      returns = rest.returns;
      bytes = λ a.
          rest.bytes a
          ∙ ap (λ q. swapped q n (swap_bytes (orig + i) mem) a) (omega arith)
          ∙ swapped_step (orig + i) n a mem;
    })

swapped-inside :
    (p n k : ℕ) (mem : Memory) → k < 2 * n → swapped p n mem (p + k) ≡ mem (p + partner k)
swapped-inside p n k mem h =
    let here : p + k - p ≡ k = omega arith in
    rw (le→leb p (p + k) (omega arith), lt→ltb (p + k) (p + 2 * n) (omega arith), here) refl

swapped-outside : (p n a : ℕ) (mem : Memory) → (a < p) ⊎ (p + 2 * n ≤ a) → swapped p n mem a ≡ mem a
swapped-outside p n a mem h = ground (arith, h)

-- Where the second loop stops: behind it are only zeros, and there is none, or it is the first place.
record Stops (i orig : ℕ) (mem : Memory) (t : ℕ) : Type 0 where
  inside : t ≤ i
  zeros_behind : (k : ℕ) → t < k → k ≤ i → mem (orig + k) ≡ 0
  last : (t ≡ 0) ⊎ (mem (orig + t) ≢ 0)

trim_loop-Stops : (i orig : ℕ) (mem : Memory) → Stops i orig mem (trim_loop i orig mem)
unfolding trim_loop
trim_loop-Stops zero orig mem = record {
  inside = omega arith;
  zeros_behind = λ k h l. absurd (omega arith);
  last = inl refl;
}
trim_loop-Stops (suc i) orig mem = elim (ℕ_discrete (mem (orig + suc i)) 0) [
  | yes e ↦
      let rest = trim_loop-Stops i orig mem in
      rw (eq→== (mem (orig + suc i)) 0 e) (record {
        inside = omega (arith, rest.inside);
        zeros_behind = λ k h l. elim (ℕ_discrete k (suc i)) [
          | yes same ↦ ap (λ j. mem (orig + j)) same ∙ e
          | no other ↦ rest.zeros_behind k h (omega arith)
        ];
        last = rest.last;
      })
  | no h ↦
      rw (ne→== (mem (orig + suc i)) 0 h) (record {
        inside = omega arith;
        zeros_behind = λ k h l. absurd (omega arith);
        last = inr h;
      })
]

-- What becomes of the `n` words at `orig`: the string `last` characters long.
pub record InfoString (orig n : ℕ) (mem : Memory) (r : Outcome Memory) : Type 0 where
  pub mem' : Memory
  pub last : ℕ
  pub returns : r ≡ done mem'
  pub inside : last < 2 * n
  pub characters : (k : ℕ) → k < last → mem' (orig + k) ≡ mem (orig + partner k)
  pub terminator : mem' (orig + last) ≡ 0
  pub blank : (k : ℕ) → last < k → k < 2 * n → mem (orig + partner k) ≡ 0
  pub lost : (last ≡ 0) ⊎ (mem (orig + partner last) ≢ 0)
  pub outside : (a : ℕ) → (a < orig) ⊎ (orig + 2 * n ≤ a) → mem' a ≡ mem a

-- For a positive number of words below half of the address space, `manipulate_info_string`
-- exchanges the bytes of each word, puts a terminator over the last character that is not NUL, or
-- at the start if there is none, keeps the characters before it and changes nothing outside the
-- words.
pub manipulate_info_string-InfoString :
    (n orig : ℕ) (mem : Memory)
    → 0 < n
    → 2 * n < 2 ^ 32
    → InfoString orig n mem (manipulate_info_string orig (2 * n) mem)
unfolding poke
manipulate_info_string-InfoString n orig mem pos small =
    let s =
      swap_loop-Swaps (2 * n) n 0 (2 * n) orig mem (omega arith) (omega arith) small
        (omega arith) in
    let bytes : (a : ℕ) → s.mem' a ≡ swapped orig n mem a =
      λ a. s.bytes a ∙ ap (λ q. swapped q n mem a) (omega arith) in
    let t = trim_loop (sub32 (2 * n) 1) orig s.mem' in
    let stops = trim_loop-Stops (sub32 (2 * n) 1) orig s.mem' in
    let top : sub32 (2 * n) 1 ≡ 2 * n - 1 = omega arith in
    let at : (k : ℕ) → k < 2 * n → s.mem' (orig + k) ≡ mem (orig + partner k) =
      λ k h. bytes (orig + k) ∙ swapped-inside orig n k mem h in
    let inside : t < 2 * n = omega (arith, stops.inside, top) in
    record {
      mem' = poke s.mem' (orig + t) 0;
      last = t;
      returns = unfold manipulate_info_string in rw (s.returns) refl;
      inside = inside;
      characters = λ k h. ground (arith, h) ∙ at k (omega (arith, inside));
      terminator = ground arith;
      blank = λ k h l. sym (at k l) ∙ stops.zeros_behind k h (omega (arith, top));
      lost = elim (stops.last) [ inl e ↦ inl e | inr h ↦ inr (λ e. h (at t inside ∙ e)) ];
      outside = λ a h. ground (arith, h, inside) ∙ bytes a ∙ swapped-outside orig n a mem h;
    }

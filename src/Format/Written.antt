-- ===== src/Format/Written.antt =====
-- `vsprintf` writes the text of a conversion into its buffer, where it reads apart from the buffer.
use mathlib.Core.Path.{ap₂}
use mathlib.Core.List.{append-nil, append_assoc}
use qemu_usage_test.Base.{
  ℕ, zero, suc, ◌+◌, ◌≤◌, ◌<◌, ◌≡◌, ◌⊎◌, refl, sym, ap, ◌∙◌, List, [], ◌∷◌, ◌++◌, Option, none,
  some, done, fault, length, length-append, done-injective, done-bind, fault-not_done, arith,
}
use qemu_usage_test.Memory.{Memory, poke}
use qemu_usage_test.Format.{Print, put, put_number, put_string, write_chars, itoa_base}
use qemu_usage_test.Format.Decimal.{At}
use qemu_usage_test.Format.Output.{Output, number_text, read_chars}

-- The range of `k` characters from `p` on does not meet the `n` characters from `buf` on.
abbrev pub Away : ℕ → ℕ → ℕ → ℕ → Type 0
Away buf n p k = (buf + n ≤ p) ⊎ (p + k ≤ buf)

pub write_chars-outside :
    (cs : List ℕ) (p a : ℕ) (mem : Memory)
    → (p + length cs ≤ a) ⊎ (a < p)
    → write_chars p cs mem a ≡ mem a
unfolding poke
write_chars-outside [] p a mem h = refl
write_chars-outside (c ∷ cs) p a mem h =
    write_chars-outside cs (p + 1) a (poke mem p c) (ground (arith, h)) ∙ ground (arith, h)

pub write_chars-append :
    (cs ds : List ℕ) (p : ℕ) (mem : Memory)
    → write_chars (p + length cs) ds (write_chars p cs mem) ≡ write_chars p (cs ++ ds) mem
write_chars-append [] ds p mem = ap (λ q. write_chars q ds mem) (omega arith)
write_chars-append (c ∷ cs) ds p mem =
    ap (λ q. write_chars q ds (write_chars (p + 1) cs (poke mem p c))) (omega arith)
    ∙ write_chars-append cs ds (p + 1) (poke mem p c)

-- The characters stay where they are in memory that keeps these places.
pub At-kept :
    (cs : List ℕ) (p : ℕ) (mem mem' : Memory)
    → ((a : ℕ) → p ≤ a → a < p + length cs → mem' a ≡ mem a)
    → At mem p cs
    → At mem' p cs
At-kept [] p mem mem' same at = tt
At-kept (c ∷ cs) p mem mem' same at = (
  same p (omega arith) (omega arith) ∙ at.0,
  At-kept cs (p + 1) mem mem' (λ a h k. same a (omega arith) (omega arith)) at.1,
)

pub kept-Away :
    (cs : List ℕ) (buf n p k a : ℕ) (mem : Memory)
    → length cs ≤ n
    → Away buf n p k
    → p ≤ a
    → a < p + k
    → write_chars buf cs mem a ≡ mem a
kept-Away cs buf n p k a mem fits away low high =
    write_chars-outside cs buf a mem (ground (arith, fits, away, low, high))

-- The state of `vsprintf` after a text.
abbrev pub printed : ℕ → Memory → Output → Print
printed buf mem o = record {
  flags = o.flags;
  args = o.args;
  str = buf + length o.out;
  mem = write_chars buf o.out mem;
}

-- The output with more text.
abbrev pub emit : List ℕ → Output → Output
emit cs o = record o { out = o.out ++ cs }

pub put-printed :
    (cs : List ℕ) (buf : ℕ) (mem : Memory) (o : Output)
    → put cs (printed buf mem o) ≡ printed buf mem (emit cs o)
put-printed cs buf mem o =
    let place : buf + length o.out + length cs ≡ buf + length (o.out ++ cs) =
      omega (arith, length-append o.out cs) in
    ap₂ (λ (q : ℕ) (m : Memory). record { flags = o.flags; args = o.args; str = q; mem = m }) place
      (write_chars-append o.out cs buf mem)

pub put_number-printed :
    (num base width buf : ℕ) (mem : Memory) (o : Output) (cs : List ℕ)
    → number_text num base width o.flags ≡ done cs
    → put_number num base width (printed buf mem o) ≡ done (printed buf mem (emit cs o))
unfolding put_number number_text
put_number-printed num base width buf mem o cs e =
    let (text, made, rest) = done-bind (itoa_base num base width o.flags) _ cs e in
    rw made (shown text rest)
  where
    shown :
        (text : Option (List ℕ))
        → elim text [ none ↦ fault | some ds ↦ done ds ] ≡ done cs
        → elim text [ none ↦ fault | some ds ↦ done (put ds (printed buf mem o)) ]
          ≡ done (printed buf mem (emit cs o))
    shown none h = absurd (fault-not_done h)
    shown (some ds) h =
        ap (λ (x : List ℕ). done (put x (printed buf mem o))) (done-injective h)
        ∙ ap done (put-printed cs buf mem o)

pub put_string-printed :
    (n p buf : ℕ) (mem : Memory) (o : Output)
    → Away buf (length o.out + n) p n
    → put_string n p (printed buf mem o) ≡ printed buf mem (emit (read_chars n p mem) o)
unfolding put_string
put_string-printed zero p buf mem o away =
    ap (λ (x : List ℕ). printed buf mem (record o { out = x })) (sym (append-nil o.out))
put_string-printed (suc n) p buf mem o away =
    let kept : write_chars buf o.out mem p ≡ mem p =
      kept-Away o.out buf (length o.out + suc n) p (suc n) p mem (omega arith) away (omega arith)
        (omega arith) in
    let one = emit (mem p ∷ []) o in
    let later : Away buf (length one.out + n) (p + 1) n =
      ground (arith, away, length-append o.out (mem p ∷ [])) in
    ap (λ (x : ℕ). put_string n (p + 1) (put (x ∷ []) (printed buf mem o))) kept
    ∙ ap (put_string n (p + 1)) (put-printed (mem p ∷ []) buf mem o)
    ∙ put_string-printed n (p + 1) buf mem one later
    ∙ ap (λ (x : List ℕ). printed buf mem (record o { out = x }))
        (append_assoc o.out (mem p ∷ []) (read_chars n (p + 1) mem))

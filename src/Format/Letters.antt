-- ===== src/Format/Letters.antt =====
-- Each conversion of `vsprintf` writes its text.
use mathlib.Core.List.{append_assoc}
use qemu_usage_test.Base.{
  ℕ, zero, suc, ◌+◌, ◌≤◌, ◌≡◌, ◌⊎◌, inl, inr, refl, sym, ap, ◌∙◌, true, Bool-cases, List, [], ◌∷◌,
  ◌++◌, done, ◌>>=◌, length, if◌then◌else◌, done-injective, done-bind, bit_or, u8, arith,
}
use qemu_usage_test.Memory.{Memory}
use qemu_usage_test.Str.{strlen}
use qemu_usage_test.Str.Same.{strlen-same}
use qemu_usage_test.Format.{
  put_number, put_signed, convert, write_chars, is_negative, negate, lowercase,
}
use qemu_usage_test.Format.Pieces.{is_letter}
use qemu_usage_test.Format.Output.{Output, number_text, text_of, read_chars, flags_behind}
use qemu_usage_test.Format.Written.{
  Away, kept-Away, printed, emit, put-printed, put_number-printed, put_string-printed,
}

length-read_chars : (n p : ℕ) (mem : Memory) → length (read_chars n p mem) ≡ n
length-read_chars zero p mem = refl
length-read_chars (suc n) p mem = omega (arith, length-read_chars n (p + 1) mem)

put_signed-printed :
    (a width buf : ℕ) (mem : Memory) (o : Output) (cs : List ℕ)
    → (if is_negative a
        then (number_text (negate a) 10 width o.flags >>= λ ds. done (b'-' ∷ ds))
        else number_text a 10 width o.flags)
      ≡ done cs
    → put_signed a width (printed buf mem o) ≡ done (printed buf mem (emit cs o))
unfolding put_signed
put_signed-printed a width buf mem o cs e = elim (Bool-cases (is_negative a)) [
  | inl h ↦
      (let made : (number_text (negate a) 10 width o.flags >>= λ ds. done (b'-' ∷ ds)) ≡ done cs =
          rw h at e in
        let (ds, digits, rest) = done-bind (number_text (negate a) 10 width o.flags) _ cs made in
        rw h (
          ap (put_number (negate a) 10 width) (put-printed (b'-' ∷ []) buf mem o)
          ∙ put_number-printed (negate a) 10 width buf mem (emit (b'-' ∷ []) o) ds digits
          ∙ ap (λ (x : List ℕ). done (printed buf mem (record o { out = x })))
              (append_assoc o.out (b'-' ∷ []) ds ∙ ap (λ x. o.out ++ x) (done-injective rest))))
  | inr h ↦
      (let digits : number_text a 10 width o.flags ≡ done cs = rw h at e in
        rw h (put_number-printed a 10 width buf mem o cs digits))
]

string-printed :
    (a width buf n : ℕ) (mem : Memory) (o : Output) (args cs : List ℕ)
    → o.args ≡ a ∷ args
    → text_of b's' width o.flags a mem ≡ done cs
    → length o.out + length cs ≤ n
    → ((len : ℕ) → strlen a mem ≡ done len → Away buf n a (len + 1))
    → convert b's' width (printed buf mem o)
      ≡ done (printed buf mem (emit cs (record o { args = args })))
unfolding convert text_of
string-printed a width buf n mem o args cs given e fits away =
    let (len, size, rest) = done-bind (strlen a mem) _ cs e in
    let text : read_chars len a mem ≡ cs = done-injective rest in
    let long : len ≡ length cs =
      sym (length-read_chars len a mem) ∙ ap (λ (x : List ℕ). length x) text in
    let apart = away len size in
    let same : strlen a (write_chars buf o.out mem) ≡ done len =
      strlen-same a len mem (write_chars buf o.out mem)
        (λ q low high.
          kept-Away o.out buf n a (len + 1) q mem (omega (arith, fits)) apart low
            (omega (arith, high)))
        size in
    let clear : Away buf (length o.out + len) a len = ground (arith, apart, fits, long) in
    rw (given, same)
      (ap done (put_string-printed len a buf mem (record o { args = args }) clear)
        ∙ ap (λ (x : List ℕ). done (printed buf mem (emit x (record o { args = args })))) text)

letters :
    (c : ℕ)
    → is_letter c ≡ true
    → (c ≡ b'c')
      ⊎ (c ≡ b's')
      ⊎ (c ≡ b'd')
      ⊎ (c ≡ b'i')
      ⊎ (c ≡ b'u')
      ⊎ (c ≡ b'o')
      ⊎ (c ≡ b'x')
      ⊎ (c ≡ b'X')
      ⊎ (c ≡ b'p')
letters c h = ground (arith, h)

-- A conversion of an argument writes the text of the argument behind what is there.
pub convert-printed :
    (c width buf n a : ℕ) (mem : Memory) (flags : ℕ) (args out cs : List ℕ)
    → is_letter c ≡ true
    → text_of c width flags a mem ≡ done cs
    → length out + length cs ≤ n
    → (c ≡ b's' → (len : ℕ) → strlen a mem ≡ done len → Away buf n a (len + 1))
    → convert c width (printed buf mem (record { flags = flags; args = a ∷ args; out = out }))
      ≡ done
          (printed buf mem (record { flags = flags_behind c flags; args = args; out = out ++ cs }))
unfolding convert text_of
convert-printed c width buf n a mem flags args out cs h e fits away =
    let o : Output = record { flags = flags; args = args; out = out } in
    elim (letters c h) [
      | inl k ↦ rw k (
          let text : text_of b'c' width flags a mem ≡ done cs = rw k at e in
          ap done (put-printed (u8 a ∷ []) buf mem o)
          ∙ ap (λ (x : List ℕ). done (printed buf mem (emit x o))) (done-injective text))
      | inr (inl k) ↦ rw k (
          string-printed a width buf n mem (record { flags = flags; args = a ∷ args; out = out })
            args cs refl (rw k at e) fits (away k))
      | inr (inr (inl k)) ↦ rw k (put_signed-printed a width buf mem o cs (rw k at e))
      | inr (inr (inr (inl k))) ↦ rw k (put_signed-printed a width buf mem o cs (rw k at e))
      | inr (inr (inr (inr (inl k)))) ↦
          rw k (put_number-printed a 10 width buf mem o cs (rw k at e))
      | inr (inr (inr (inr (inr (inl k))))) ↦
          rw k (put_number-printed a 8 width buf mem o cs (rw k at e))
      | inr (inr (inr (inr (inr (inr (inl k)))))) ↦ rw k (
          put_number-printed a 16 width buf mem (record o { flags = bit_or flags lowercase }) cs
            (rw k at e))
      | inr (inr (inr (inr (inr (inr (inr (inl k))))))) ↦
          rw k (put_number-printed a 16 width buf mem o cs (rw k at e))
      | inr (inr (inr (inr (inr (inr (inr (inr k))))))) ↦
          rw k (put_number-printed a 16 8 buf mem o cs (rw k at e))
    ]

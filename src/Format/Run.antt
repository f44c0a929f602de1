-- ===== src/Format/Run.antt =====
-- `vsprintf` runs the pieces of its format in order.
use qemu_usage_test.Base.{
  ℕ, zero, suc, ◌+◌, ◌^◌, ◌≤◌, ◌<◌, ◌≡◌, ◌≢◌, refl, sym, ap, ◌∙◌, List, [], ◌∷◌, ◌++◌, Outcome,
  done, ◌>>=◌, length, length-append, All, ne→==, done-injective, done-bind, fault-not_done, arith,
}
use mathlib.Core.Path.{ap₂, subst}
use mathlib.Core.List.{append_assoc}
use qemu_usage_test.Memory.{Memory}
use qemu_usage_test.Str.{strlen}
use qemu_usage_test.Format.{
  Print, put, directive, format_loop, write_chars, vsprintf, address_space,
}
use qemu_usage_test.Format.Digits.{value}
use qemu_usage_test.Format.Decimal.{At, At-append}
use qemu_usage_test.Format.Pieces.{
  Size, Piece, text, conversion, conversion_chars, spell, IsConversion, IsPiece, set_flags,
  letter_at-eq, conversion-Laid, directive_lem,
}
use qemu_usage_test.Format.Output.{
  Output, run_piece, run_pieces, run_pieces-grows, flags_behind, text_of,
}
use qemu_usage_test.Format.Written.{
  Away, At-kept, kept-Away, write_chars-append, printed, put-printed,
}
use qemu_usage_test.Format.Letters.{convert-printed}

format_loop_end : (fuel p : ℕ) (s : Print) → s.mem p ≡ 0 → format_loop (suc fuel) p s ≡ done s
format_loop_end fuel p s e = unfold format_loop in rw e refl

format_loop_text :
    (fuel p c : ℕ) (s : Print)
    → s.mem p ≡ c
    → c ≢ 0
    → c ≢ b'%'
    → format_loop (suc fuel) p s ≡ format_loop fuel (p + 1) (put (c ∷ []) s)
format_loop_text fuel p c s e h k = unfold format_loop in rw (e, ne→== c 0 h, ne→== c b'%' k) refl

format_loop_percent :
    (fuel p : ℕ) (s : Print)
    → s.mem p ≡ b'%'
    → format_loop (suc fuel) p s ≡ (directive (p + 1) s >>= λ r. format_loop fuel (r.0 + 1) r.1)
format_loop_percent fuel p s e = unfold format_loop in rw e refl

-- The strings that the conversions print, with their terminators, do not meet the `n` characters
-- from `buf` on.
abbrev pub StringsAway : ℕ → ℕ → Memory → List Piece → List ℕ → Type 0
StringsAway buf n mem [] args = Unit
StringsAway buf n mem (text c ∷ ps) args = StringsAway buf n mem ps args
StringsAway buf n mem (conversion pads ds size c ∷ ps) [] = Unit
StringsAway buf n mem (conversion pads ds size c ∷ ps) (a ∷ args) =
    (c ≡ b's' → (len : ℕ) → strlen a mem ≡ done len → Away buf n a (len + 1))
    × StringsAway buf n mem ps args

-- What lies apart from the buffer is still there behind a text that fits.
printed-At :
    (cs : List ℕ) (p buf n : ℕ) (mem : Memory) (o : Output)
    → length o.out ≤ n
    → Away buf n p (length cs)
    → At mem p cs
    → At (printed buf mem o).mem p cs
printed-At cs p buf n mem o fits away at =
    At-kept cs p mem (write_chars buf o.out mem)
      (λ a low high. kept-Away o.out buf n p (length cs) a mem fits away low high) at

-- One conversion, where its text fits.
format_step :
    (fuel p pads : ℕ) (ds : List ℕ) (size : Size) (c a : ℕ) (tail : List ℕ) (buf n : ℕ)
    (mem : Memory) (flags : ℕ) (args out cs : List ℕ)
    → IsConversion pads ds c
    → At mem p (b'%' ∷ (conversion_chars pads ds size c ++ tail))
    → Away buf n p (length (b'%' ∷ (conversion_chars pads ds size c ++ tail)))
    → (c ≡ b's' → (len : ℕ) → strlen a mem ≡ done len → Away buf n a (len + 1))
    → text_of c (value 10 0 ds) (set_flags pads flags) a mem ≡ done cs
    → length out + length cs ≤ n
    → format_loop
        (suc fuel)
        p
        (printed buf mem (record { flags = flags; args = a ∷ args; out = out }))
      ≡ format_loop fuel (p + 1 + length (conversion_chars pads ds size c)) (
          printed buf mem (record {
            flags = flags_behind c (set_flags pads flags);
            args = args;
            out = out ++ cs;
          }))
format_step fuel p pads ds size c a tail buf n mem flags args out cs is at away strings gives fits =
    let o : Output = record { flags = flags; args = a ∷ args; out = out } in
    let s = printed buf mem o in
    let here =
      printed-At (b'%' ∷ (conversion_chars pads ds size c ++ tail)) p buf n mem o
        (omega (arith, fits)) away at in
    let laid = conversion-Laid (p + 1) pads ds size c tail s.mem is.letter here.1 in
    let next : ℕ → Outcome Print = λ q. format_loop fuel q (
      printed buf mem
        (record { flags = flags_behind c (set_flags pads flags); args = args; out = out ++ cs })) in
    format_loop_percent fuel p s here.0
    ∙ rw
        (
          directive_lem (p + 1) pads ds size c s is laid,
          convert-printed c (value 10 0 ds) buf n a mem (set_flags pads flags) args out cs is.letter
              gives fits strings,
        )
        (ap next (letter_at-eq (p + 1) pads ds size c))

-- The loop over a format of pieces, each of which runs, apart from the text that they give.
format_loop-pieces :
    (fuel p : ℕ) (ps : List Piece) (buf n : ℕ) (mem : Memory) (flags : ℕ) (args out : List ℕ)
    (r : Output)
    → All IsPiece ps
    → At mem p (spell ps ++ 0 ∷ [])
    → Away buf n p (length (spell ps) + 1)
    → StringsAway buf n mem ps args
    → length (spell ps) < fuel
    → length r.out ≤ n
    → run_pieces mem ps (record { flags = flags; args = args; out = out }) ≡ done r
    → format_loop fuel p (printed buf mem (record { flags = flags; args = args; out = out }))
      ≡ done (printed buf mem r)
format_loop-pieces zero p ps buf n mem flags args out r is at away strings enough fits e =
    absurd (omega arith)
format_loop-pieces (suc fuel) p [] buf n mem flags args out r is at away strings enough fits e =
    let o : Output = record { flags = flags; args = args; out = out } in
    let grown = run_pieces-grows mem [] o r e in
    let here = printed-At (0 ∷ []) p buf n mem o (omega (arith, fits, grown)) away at in
    format_loop_end fuel p (printed buf mem o) here.0
    ∙ ap (λ (x : Output). done (printed buf mem x)) (done-injective e)
format_loop-pieces (suc fuel) p (text c ∷ ps) buf n mem flags args out r is at away strings enough
      fits e =
    let o : Output = record { flags = flags; args = args; out = out } in
    let grown = run_pieces-grows mem (text c ∷ ps) o r e in
    let clear : Away buf n p (length (c ∷ (spell ps ++ 0 ∷ []))) =
      ground (arith, away, length-append (spell ps) (0 ∷ [])) in
    let later : Away buf n (p + 1) (length (spell ps) + 1) = ground (arith, away) in
    let here =
      printed-At (c ∷ (spell ps ++ 0 ∷ [])) p buf n mem o (omega (arith, fits, grown)) clear at in
    format_loop_text fuel p c (printed buf mem o) here.0 is.0.0 is.0.1
    ∙ ap (format_loop fuel (p + 1)) (put-printed (c ∷ []) buf mem o)
    ∙ format_loop-pieces fuel (p + 1) ps buf n mem flags args (out ++ c ∷ []) r is.1 at.1 later
        strings (omega arith) fits e
format_loop-pieces (suc fuel) p (conversion pads ds size c ∷ ps) buf n mem flags [] out r is at away
      strings enough fits e =
    absurd (fault-not_done e)
format_loop-pieces (suc fuel) p (conversion pads ds size c ∷ ps) buf n mem flags (a ∷ args) out r is
      at away strings enough fits e =
    let piece = conversion pads ds size c in
    let o : Output = record { flags = flags; args = a ∷ args; out = out } in
    let (o', first, rest) = done-bind (run_piece mem piece o) (run_pieces mem ps) r e in
    let (cs, gives, made) =
      done-bind (text_of c (value 10 0 ds) (set_flags pads flags) a mem) _ o' first in
    let o'' : Output = record {
      flags = flags_behind c (set_flags pads flags);
      args = args;
      out = out ++ cs;
    } in
    let later : run_pieces mem ps o'' ≡ done r =
      ap (run_pieces mem ps) (done-injective made) ∙ rest in
    let grown = run_pieces-grows mem ps o'' r later in
    let chars = conversion_chars pads ds size c in
    let behind : At mem (p + 1) (chars ++ (spell ps ++ 0 ∷ [])) =
      subst (At mem (p + 1)) (append_assoc chars (spell ps) (0 ∷ [])) at.1 in
    let tail_at = (At-append mem (p + 1) chars (spell ps ++ 0 ∷ []) behind).1 in
    let lengths = length-append chars (spell ps) in
    let clear : Away buf n p (length (b'%' ∷ (chars ++ (spell ps ++ 0 ∷ [])))) = ground (
      arith,
      away,
      lengths,
      length-append chars (spell ps ++ 0 ∷ []),
      length-append (spell ps) (0 ∷ []),
    ) in
    let beyond : Away buf n (p + 1 + length chars) (length (spell ps) + 1) =
      ground (arith, away, lengths) in
    format_step fuel p pads ds size c a (spell ps ++ 0 ∷ []) buf n mem flags args out cs is.0
      (at.0, behind) clear strings.0 gives (omega (arith, fits, grown, length-append out cs))
    ∙ format_loop-pieces fuel (p + 1 + length chars) ps buf n mem o''.flags args (out ++ cs) r is.1
        tail_at beyond strings.1 (omega (arith, enough, lengths)) fits later

-- On a format in memory that is shorter than the address space and spells a list of plain
-- characters and conversions, each with zero flags, a width that is a 32-bit number without leading
-- zeros or none, a size letter or none and one of the letters c, s, d, i, u, o, x, X and p: if the
-- conversions run on the arguments, and neither the format nor a string that is printed, with its
-- terminator, meets the characters that they give when these stand from the buffer on, then
-- `vsprintf`, which writes its buffer while it reads, returns, writes the texts of the pieces in
-- order with a terminator behind them, and returns their length.
pub vsprintf-pieces :
    (ps : List Piece) (buf fmt : ℕ) (args : List ℕ) (mem : Memory) (r : Output)
    → All IsPiece ps
    → At mem fmt (spell ps ++ 0 ∷ [])
    → length (spell ps) < 2 ^ 32
    → run_pieces mem ps (record { flags = 0; args = args; out = [] }) ≡ done r
    → Away buf (length r.out) fmt (length (spell ps) + 1)
    → StringsAway buf (length r.out) mem ps args
    → vsprintf buf fmt args mem ≡ done (length r.out, write_chars buf (r.out ++ 0 ∷ []) mem)
unfolding vsprintf
vsprintf-pieces ps buf fmt args mem r is at short runs away strings =
    let start : printed buf mem (record { flags = 0; args = args; out = [] })
        ≡ record { flags = 0; args = args; str = buf; mem = mem } =
      ap (λ (q : ℕ). record { flags = 0; args = args; str = q; mem = mem }) (omega arith) in
    let looped : format_loop address_space fmt
          (record { flags = 0; args = args; str = buf; mem = mem })
        ≡ done (printed buf mem r) =
      ap (format_loop address_space fmt) (sym start)
      ∙ format_loop-pieces address_space fmt ps buf (length r.out) mem 0 args [] r is at away
          strings (omega (arith, short)) (omega arith) runs in
    rw looped (
      ap₂ (λ (k : ℕ) (m : Memory). done (k, m)) (omega arith)
        (write_chars-append r.out (0 ∷ []) buf mem))

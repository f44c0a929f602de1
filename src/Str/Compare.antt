-- ===== src/Str/Compare.antt =====
-- `strcmp` and `memcmp`
use qemu_usage_test.Base.{
  ℕ, zero, suc, ◌+◌, ◌^◌, ◌<◌, ◌≡◌, ◌≢◌, ◌∙◌, List, [], ◌∷◌, ◌++◌, done, ◌==◌, if◌then◌else◌,
  length, get_or, arith, Bool-cases, inl, inr, ne→==, eq→==,
}
use qemu_usage_test.Base.Int.{pos, negsuc, ltb_ℤ, signed8}
use qemu_usage_test.Memory.{Memory, null, IsString}
use qemu_usage_test.Str.{order, address_space, strcmp_loop, strcmp, compare_loop, memcmp}

-- The first character of a string, its terminator if it is empty.
abbrev pub first : List ℕ → ℕ
first s = get_or s 0 0

first-IsString : (mem : Memory) (p : ℕ) (s : List ℕ) → IsString mem p s → mem p ≡ first s
first-IsString mem p [] h = h
first-IsString mem p (c ∷ s) h = h.0

module _ (mem : Memory) where
  strcmp_loop-prefix :
      (fuel p q : ℕ) (s t : List ℕ)
      → IsString mem p s
      → IsString mem q (s ++ t)
      → length s < fuel
      → strcmp_loop fuel p q mem ≡ done (order 0 (first t))
  unfolding strcmp_loop
  strcmp_loop-prefix zero p q s t hp hq short = absurd (omega arith)
  strcmp_loop-prefix (suc fuel) p q [] t hp hq short =
      rw (eq→== (mem p) 0 hp, hp, first-IsString mem q t hq)
  strcmp_loop-prefix (suc fuel) p q (c ∷ s) t hp hq short =
      rw
        (
          ne→== (mem p) 0 (ground (arith, hp.0, hp.1)),
          eq→== (mem p) (mem q) (hp.0 ∙ ground (arith, hq.0)),
        )
        (strcmp_loop-prefix fuel (p + 1) (q + 1) s t hp.2 hq.2 (omega arith))

  strcmp_loop-mismatch :
      (fuel p q : ℕ) (s xs ys : List ℕ) (x y : ℕ)
      → IsString mem p (s ++ x ∷ xs)
      → IsString mem q (s ++ y ∷ ys)
      → x ≢ y
      → length s < fuel
      → strcmp_loop fuel p q mem ≡ done (order (first xs) (first ys))
  unfolding strcmp_loop
  strcmp_loop-mismatch zero p q s xs ys x y hp hq ne short = absurd (omega arith)
  strcmp_loop-mismatch (suc fuel) p q [] xs ys x y hp hq ne short = rw (
    ne→== (mem p) 0 (ground (arith, hp.0, hp.1)),
    ne→== (mem p) (mem q) (ground (arith, hp.0, hq.0)),
    first-IsString mem (p + 1) xs hp.2,
    first-IsString mem (q + 1) ys hq.2,
  )
  strcmp_loop-mismatch (suc fuel) p q (c ∷ s) xs ys x y hp hq ne short =
      rw
        (
          ne→== (mem p) 0 (ground (arith, hp.0, hp.1)),
          eq→== (mem p) (mem q) (ground (arith, hp.0, hq.0)),
        )
        (strcmp_loop-mismatch fuel (p + 1) (q + 1) s xs ys x y hp.2 hq.2 ne (omega arith))

  -- Where the first string is a prefix of the second, `strcmp` returns the order of 0 and the
  -- character behind the prefix, which is 0 for equal strings.
  pub strcmp-prefix :
      (p q : ℕ) (s t : List ℕ)
      → IsString mem p s
      → IsString mem q (s ++ t)
      → length s < 2 ^ 32
      → strcmp p q mem ≡ done (order 0 (first t))
  unfolding strcmp
  strcmp-prefix p q s t hp hq short = strcmp_loop-prefix address_space p q s t hp hq short

  -- Where two strings differ behind a common prefix, `strcmp` returns the order of the characters
  -- that follow the differing ones, so that strings which differ in their last character compare
  -- as equal.
  pub strcmp-mismatch :
      (p q : ℕ) (s xs ys : List ℕ) (x y : ℕ)
      → IsString mem p (s ++ x ∷ xs)
      → IsString mem q (s ++ y ∷ ys)
      → x ≢ y
      → length s < 2 ^ 32
      → strcmp p q mem ≡ done (order (first xs) (first ys))
  unfolding strcmp
  strcmp-mismatch p q s xs ys x y hp hq ne short =
      strcmp_loop-mismatch address_space p q s xs ys x y hp hq ne short

compare_loop-first :
    (size dest src : ℕ) (mem : Memory)
    → 0 < size
    → compare_loop size dest src mem ≡ (
        if mem dest == mem src
        then pos 0
        else if ltb_ℤ (signed8 (mem src)) (signed8 (mem dest))
        then pos 1
        else negsuc 0)
unfolding compare_loop
compare_loop-first zero dest src mem h = absurd (omega arith)
compare_loop-first (suc zero) dest src mem h = elim (Bool-cases (mem dest == mem src)) [
  | inl e ↦ rw e
  | inr e ↦ rw e
]
compare_loop-first (suc (suc n)) dest src mem h = elim (Bool-cases (mem dest == mem src)) [
  | inl e ↦ ground (arith, e, compare_loop-first (suc n) dest src mem (omega arith))
  | inr e ↦ rw e
]

-- For a positive size, `memcmp` returns the order of the first bytes and looks at no other.
pub memcmp-first :
    (dest src size : ℕ) (mem : Memory)
    → dest ≢ null
    → src ≢ null
    → 0 < size
    → memcmp dest src size mem ≡ (
        if mem dest == mem src
        then pos 0
        else if ltb_ℤ (signed8 (mem src)) (signed8 (mem dest))
        then pos 1
        else negsuc 0)
unfolding memcmp
memcmp-first dest src size mem hd hs some_bytes =
    rw (ne→== dest null hd, ne→== src null hs, ne→== size 0 (omega arith))
      (compare_loop-first size dest src mem some_bytes)

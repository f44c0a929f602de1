-- ===== src/Spin/Exclusion.antt =====
-- kernel/sync.c: several processors that take and give back one spin lock, in any order.
use qemu_usage_test.Base.{
  ℕ, ap, done-injective, ◌≡◌, ◌≢◌, ◌⊎◌, inl, inr, refl, sym, ◌∙◌, Bool, true, false, done, hang,
  ◌==◌, if◌then◌else◌, ne→==, eq→==,
}
use native.Mathlib.Decide.{ℕ_discrete}
use qemu_usage_test.Spin.{spin_lock, spin_unlock, spin_lock_init}

-- The lock, and which processors are between `spin_lock` and `spin_unlock`.
pub record Machine : Type 0 where
  pub lock : ℕ
  pub inside : ℕ → Bool

abbrev pub move : ℕ → Bool → ℕ → Machine → Machine
move p b lock m = record { lock = lock; inside = λ q. if q == p then b else m.inside q }

-- A processor comes through `spin_lock`, or calls `spin_unlock`.
pub data Step : Machine → Machine → Type 0 where
  acquire :
      (m : Machine) (p lock : ℕ)
      → m.inside p ≡ false
      → spin_lock m.lock ≡ done lock
      → Step m (move p true lock m)
  release : (m : Machine) (p : ℕ) → m.inside p ≡ true → Step m (move p false (spin_unlock m.lock) m)

pub data Reachable : Machine → Type 0 where
  start : (lock : ℕ) → Reachable (record { lock = spin_lock_init lock; inside = λ q. false })
  next : (m m' : Machine) → Reachable m → Step m m' → Reachable m'

-- The lock is free and nobody is inside, or it is held and `holder` alone is inside.
pub data Owned (m : Machine) : Type 0 where
  free : m.lock ≡ 1 → ((q : ℕ) → m.inside q ≡ false) → Owned m
  held :
      (holder : ℕ)
      → m.lock ≡ 0
      → m.inside holder ≡ true
      → ((q : ℕ) → q ≢ holder → m.inside q ≡ false)
      → Owned m

acquire-Owned :
    (m : Machine) (p lock : ℕ) → Owned m → spin_lock m.lock ≡ done lock → Owned (move p true lock m)
unfolding spin_lock
acquire-Owned m p lock (free e out) got =
    held p (sym (done-injective (ap spin_lock (sym e) ∙ got))) (rw (eq→== p p refl) refl)
      (λ q h. rw (ne→== q p h) (out q))
acquire-Owned m p lock (held holder e here out) got =
    let stuck : hang ≡ done lock = ap spin_lock (sym e) ∙ got in cc stuck

release-Owned :
    (m : Machine) (p : ℕ)
    → Owned m
    → m.inside p ≡ true
    → Owned (move p false (spin_unlock m.lock) m)
unfolding spin_unlock
release-Owned m p (free e out) inside = cc (out p)
release-Owned m p (held holder e here out) inside =
    free refl (λ q. alone q (ℕ_discrete p holder) (ℕ_discrete q p))
  where
    alone :
        (q : ℕ) → Dec (p ≡ holder) → Dec (q ≡ p) → (if q == p then false else m.inside q) ≡ false
    alone q here_p (yes e) = rw (eq→== q p e) refl
    alone q (no other) (no h) = let off : m.inside p ≡ false = out p other in cc off
    alone q (yes same) (no h) = rw (ne→== q p h) (out q (λ e. h (e ∙ sym same)))

Reachable-Owned : {m : Machine} → Reachable m → Owned m
unfolding spin_lock_init
Reachable-Owned (start lock) = free refl (λ q. refl)
Reachable-Owned (next before after reach (acquire m p lock out got)) =
    acquire-Owned m p lock (Reachable-Owned reach) got
Reachable-Owned (next before after reach (release m p inside)) =
    release-Owned m p (Reachable-Owned reach) inside

-- However several processors take and give back an initialized spin lock, each giving it back only
-- while it is inside, no two of them are inside at once.
pub Reachable-exclusive :
    {m : Machine} (p q : ℕ) → Reachable m → m.inside p ≡ true → m.inside q ≡ true → p ≡ q
Reachable-exclusive p q reach hp hq = only p q (Reachable-Owned reach) hp hq
  where
    only : {m : Machine} (p q : ℕ) → Owned m → m.inside p ≡ true → m.inside q ≡ true → p ≡ q
    only p q (free e out) hp hq = cc (out p)
    only p q (held holder e here out) hp hq = both (ℕ_discrete p holder) (ℕ_discrete q holder)
      where
        both : Dec (p ≡ holder) → Dec (q ≡ holder) → p ≡ q
        both (yes a) (yes b) = a ∙ sym b
        both (no a) b = cc (out p a)
        both (yes a) (no b) = cc (out q b)

-- In every state that processors reach by taking and giving back an initialized spin lock, the lock
-- can be taken at once, or some processor is inside, others spin, and the lock can be taken once
-- that processor has given it back.
pub Reachable-available :
    {m : Machine}
    → Reachable m
    → (spin_lock m.lock ≡ done 0)
      ⊎ ((p : ℕ) × (m.inside p ≡ true)
          × (spin_lock m.lock ≡ hang)
          × (spin_lock (spin_unlock m.lock) ≡ done 0))
unfolding spin_lock spin_unlock
Reachable-available reach = serve (Reachable-Owned reach)
  where
    serve :
        {m : Machine}
        → Owned m
        → (spin_lock m.lock ≡ done 0)
          ⊎ ((p : ℕ) × (m.inside p ≡ true)
              × (spin_lock m.lock ≡ hang)
              × (spin_lock (spin_unlock m.lock) ≡ done 0))
    serve (free e out) = inl (rw e refl)
    serve (held holder e here out) = inr (holder, here, rw e refl, refl)

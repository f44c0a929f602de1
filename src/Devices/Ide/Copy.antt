-- ===== src/Devices/Ide/Copy.antt =====
-- The words of a sector: what `outsw` sends and `insw` takes in again.
use qemu_usage_test.Base.{
  ℕ, zero, suc, ◌+◌, ◌*◌, ◌/◌, ◌<◌, ◌≡◌, refl, ap, ◌∙◌, List, [], ◌∷◌, u8, u16, arith,
}
use qemu_usage_test.Memory.{Memory, poke}
use qemu_usage_test.Devices.Ide.{read16, write16, Log, insw, outsw}

-- The word at `p`, and the `n` words from `p` on.
abbrev pub word : ℕ → Memory → ℕ
word p mem = mem p + 256 * mem (p + 1)

abbrev pub words : ℕ → ℕ → Memory → List ℕ
words p zero mem = []
words p (suc n) mem = word p mem ∷ words (p + 2) n mem

-- The log behind the words that are sent to a port.
abbrev pub sent : ℕ → List ℕ → Log → Log
sent port [] log = log
sent port (w ∷ ws) log = sent port ws (write16 port w ∷ log)

-- The device gives these words to the reads of a port that follow `log`.
abbrev pub Gives : (Log → ℕ → ℕ) → ℕ → List ℕ → Log → Type 0
Gives device port [] log = Unit
Gives device port (w ∷ ws) log =
    (u16 (device log port) ≡ w) × Gives device port ws (read16 port ∷ log)

pub outsw-sent :
    (port p n : ℕ) (mem : Memory) (log : Log)
    → outsw port p n mem log ≡ sent port (words p n mem) log
unfolding outsw
outsw-sent port p zero mem log = refl
outsw-sent port p (suc n) mem log = outsw-sent port (p + 2) n mem (write16 port (word p mem) ∷ log)

insw-below :
    (device : Log → ℕ → ℕ) (port p n a : ℕ) (mem : Memory) (log : Log)
    → a < p
    → (insw device port p n mem log).0 a ≡ mem a
unfolding insw poke
insw-below device port p zero a mem log h = refl
insw-below device port p (suc n) a mem log h =
    insw-below device port (p + 2) n a _ (read16 port ∷ log) (omega arith) ∙ ground (arith, h)

insw-bytes :
    (device : Log → ℕ → ℕ) (port p q n k : ℕ) (mem old : Memory) (log : Log)
    → ((a : ℕ) → old a < 256)
    → Gives device port (words q n old) log
    → k < 2 * n
    → (insw device port p n mem log).0 (p + k) ≡ old (q + k)
unfolding insw poke
insw-bytes device port p q zero k mem old log small gives h = absurd (omega arith)
insw-bytes device port p q (suc n) zero mem old log small gives h =
    insw-below device port (p + 2) n (p + 0) _ (read16 port ∷ log) (omega arith)
    ∙ ground (arith, gives.0, small q, small (q + 1))
insw-bytes device port p q (suc n) (suc zero) mem old log small gives h =
    insw-below device port (p + 2) n (p + 1) _ (read16 port ∷ log) (omega arith)
    ∙ ground (arith, gives.0, small q, small (q + 1))
insw-bytes device port p q (suc n) (suc (suc k)) mem old log small gives h =
    let next : Memory =
      poke (poke mem p (u8 (u16 (device log port)))) (p + 1) (u16 (device log port) / 256) in
    let later = read16 port ∷ log in
    ap (insw device port (p + 2) n next later).0 (omega arith)
    ∙ insw-bytes device port (p + 2) (q + 2) n k next old later small gives.1 (omega arith)
    ∙ ap old (omega arith)

-- `outsw` sends the words of its buffer in order, and where a port gives these words to the reads
-- that follow, `insw` puts the same bytes into its buffer, for memory of bytes.
pub insw-outsw :
    (device : Log → ℕ → ℕ) (port p q n k : ℕ) (mem old : Memory) (log log' : Log)
    → ((a : ℕ) → old a < 256)
    → Gives device port (words q n old) log'
    → k < 2 * n
    → (outsw port q n old log ≡ sent port (words q n old) log)
      × ((insw device port p n mem log').0 (p + k) ≡ old (q + k))
insw-outsw device port p q n k mem old log log' small gives h =
    (outsw-sent port q n old log, insw-bytes device port p q n k mem old log' small gives h)

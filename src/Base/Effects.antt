-- ===== src/Base/Effects.antt =====
-- What a call of a C function comes to.
use mathlib.Core.Path.{◌≡◌, refl}
use Prim.Native.Nat.{ℕ, ◌<◌}
use mathlib.Core.List.{List}
use mathlib.Core.Option.{none, some}
use qemu_usage_test.Base.Tests.{ltb, lt→ltb, if◌then◌else◌}
use qemu_usage_test.Base.Lists.{get_elem?, length, set, get_or, get_elem?-eq-get_or}

-- `fault` is undefined behaviour, such as an access outside of an object; `hang` is a call that
-- does not return: it spins on a lock that nobody gives back, or a loop has run out of its rounds.

pub data Outcome {ℓ} (A : Type ℓ) : Type ℓ where
  done : A → Outcome A
  fault hang : Outcome A

infixl 5 ◌>>=◌ ◌>>◌
abbrev pub ◌>>=◌ {ℓ κ} : {A : Type ℓ} {B : Type κ} → Outcome A → (A → Outcome B) → Outcome B
done a >>= f = f a
fault >>= f = fault
hang >>= f = hang

abbrev pub ◌>>◌ {ℓ} : {B : Type ℓ} → Outcome (Unit {0}) → Outcome B → Outcome B
m >> k = m >>= λ _. k

-- A read and a write of an array element.
abbrev pub load {ℓ} : {A : Type ℓ} → List A → ℕ → Outcome A
load xs i = elim (get_elem? xs i) [ none ↦ fault | some x ↦ done x ]

abbrev pub store {ℓ} : {A : Type ℓ} → List A → ℕ → A → Outcome (List A)
store xs i v = if ltb i (length xs) then done (set xs i v) else fault

pub load-done {ℓ} :
    {A : Type ℓ} (xs : List A) (i : ℕ) (d : A) → i < length xs → load xs i ≡ done (get_or xs i d)
load-done xs i d h = rw (get_elem?-eq-get_or xs i d h, load)

pub store-done {ℓ} :
    {A : Type ℓ} (xs : List A) (i : ℕ) (v : A) → i < length xs → store xs i v ≡ done (set xs i v)
store-done xs i v h = rw (lt→ltb _ _ h)

pub done-injective {ℓ} : {A : Type ℓ} {a b : A} → done a ≡ done b → a ≡ b
done-injective e = cc

pub fault-not_done {ℓ} : {A : Type ℓ} {a : A} → fault ≡ done a → ⊥
fault-not_done e = cc

pub hang-not_done {ℓ} : {A : Type ℓ} {a : A} → hang ≡ done a → ⊥
hang-not_done e = cc

-- A computation that is done was done with its first part.
pub done-bind {ℓ₁ ℓ₂} :
    {A : Type ℓ₁} {B : Type ℓ₂} (m : Outcome A) (f : A → Outcome B) (b : B)
    → (m >>= f) ≡ done b
    → (a : A) × (m ≡ done a) × (f a ≡ done b)
done-bind (done a) f b e = (a, refl, e)
done-bind fault f b e = absurd (fault-not_done e)
done-bind hang f b e = absurd (hang-not_done e)

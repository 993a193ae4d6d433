-- ===== src/Prelude/Runs.antt =====
-- A computation that can panic at a nil pointer.
use mathlib.Core.Path.{◌≡◌, refl}
use mathlib.Core.Option.{Option, none, some}
use mathlib.Core.Bool.{Bool, true, false}
use omnigrex.Prelude.Tests.{if◌then◌else◌}

pub data Run {ℓ} (A : Type ℓ) : Type ℓ where
  done : A → Run A
  panic : Run A

infixl 5 ◌>>=◌
abbrev pub ◌>>=◌ {ℓ κ} : {A : Type ℓ} {B : Type κ} → Run A → (A → Run B) → Run B
done a >>= f = f a
panic >>= f = panic

-- `*p`, which panics where `p` is nil.
abbrev pub deref {ℓ} : {A : Type ℓ} → Option A → Run A
deref none = panic
deref (some a) = done a

-- What holds of the result, if there is one.
abbrev pub Holds {ℓ κ} : {A : Type ℓ} → (A → Type κ) → Run A → Type κ
Holds P (done a) = P a
Holds P panic = Unit

-- There is a result.
abbrev pub Returns {ℓ} : {A : Type ℓ} → Run A → Type 0
Returns (done a) = Unit
Returns panic = ⊥

pub Returns-done {ℓ} : {A : Type ℓ} (m : Run A) → Returns m → (a : A) × (m ≡ done a)
Returns-done (done a) h = (a, refl)
Returns-done panic h = absurd h

pub Holds-done {ℓ κ} :
    {A : Type ℓ} (P : A → Type κ) (m : Run A) {a : A} → m ≡ done a → Holds P m → P a
Holds-done P m e h = rw e at h

-- What holds behind a pointer that is read, and on both sides of a test for nil.
pub deref-Holds {ℓ κ μ} :
    {A : Type ℓ} {B : Type κ} (P : B → Type μ) (o : Option A) (f : A → Run B)
    → ((a : A) → o ≡ some a → Holds P (f a))
    → Holds P (deref o >>= f)
deref-Holds P none f h = tt
deref-Holds P (some a) f h = h a refl

pub option-Holds {ℓ κ μ} :
    {A : Type ℓ} {B : Type κ} (P : B → Type μ) (o : Option A) (m : Run B) (f : A → Run B)
    → Holds P m
    → ((a : A) → o ≡ some a → Holds P (f a))
    → Holds P (elim o [ none ↦ m | some a ↦ f a ])
option-Holds P none m f h k = h
option-Holds P (some a) m f h k = k a refl

pub if-Holds {ℓ κ} :
    {A : Type ℓ} (P : A → Type κ) (b : Bool) (x y : Run A)
    → (b ≡ true → Holds P x)
    → (b ≡ false → Holds P y)
    → Holds P (if b then x else y)
if-Holds P true x y h k = h refl
if-Holds P false x y h k = k refl

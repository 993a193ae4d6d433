-- ===== src/Prelude/Updates.antt =====
-- Lists with elements changed in place, and what holds of the result of a fallible operation.
use Prim.Native.Nat.{◌≤◌}
use mathlib.Core.Path.{◌≡◌, refl, sym, ap}
use mathlib.Core.Bool.{Bool, true, false}
use mathlib.Core.Logic.{inl, inr}
use mathlib.Core.Option.{Option, none, some, some-injective}
use mathlib.Core.List.{List, [], ◌∷◌, ◌++◌}
use native.Mathlib.Omega.{arith}
use omnigrex.Prelude.Tests.{if◌then◌else◌, length, any, all, Bool-cases, and_parts}
use omnigrex.Prelude.Slices.{first, filter, snoc, update_first, update_all}
use omnigrex.Prelude.Members.{or_left, or_right, or_cases}

-- What holds of the result, if there is one.
abbrev pub Gives {ℓ κ} : {A : Type ℓ} → (A → Type κ) → Option A → Type κ
Gives P none = Unit
Gives P (some a) = P a

pub option-Gives {ℓ κ μ} :
    {A : Type ℓ} {B : Type κ} (P : B → Type μ) (o : Option A) (f : A → Option B)
    → ((a : A) → o ≡ some a → Gives P (f a))
    → Gives P (elim o [ none ↦ none | some a ↦ f a ])
option-Gives P none f h = tt
option-Gives P (some a) f h = h a refl

pub if-Gives {ℓ κ} :
    {A : Type ℓ} (P : A → Type κ) (b : Bool) (x y : Option A)
    → (b ≡ true → Gives P x)
    → (b ≡ false → Gives P y)
    → Gives P (if b then x else y)
if-Gives P true x y h k = h refl
if-Gives P false x y h k = k refl

pub Gives-some {ℓ κ} :
    {A : Type ℓ} (P : A → Type κ) (o : Option A) {a : A} → o ≡ some a → Gives P o → P a
Gives-some P o e h = rw e at h

pub Gives-map {ℓ κ μ} :
    {A : Type ℓ} (P : A → Type κ) (Q : A → Type μ) (o : Option A)
    → ((a : A) → P a → Q a)
    → Gives P o
    → Gives Q o
Gives-map P Q none h k = tt
Gives-map P Q (some a) h k = h a k

module _ {ℓ} {A : Type ℓ} (p : A → Bool) (f : A → A) where
  pub update_first_head : (x : A) (xs : List A) → p x ≡ true → update_first p f (x ∷ xs) ≡ f x ∷ xs
  update_first_head x xs e = rw e refl

  pub update_first_tail :
      (x : A) (xs : List A) → p x ≡ false → update_first p f (x ∷ xs) ≡ x ∷ update_first p f xs
  update_first_tail x xs e = rw e refl

  -- A test that the change cannot spoil.
  pub all-update_all :
      (q : A → Bool)
      → ((x : A) → q x ≡ true → q (f x) ≡ true)
      → (xs : List A) → all q xs ≡ true
      → all q (update_all p f xs) ≡ true
  all-update_all q h [] e = refl
  all-update_all q h (x ∷ xs) e =
      let (a, b) = and_parts (q x) (all q xs) e in
      let ih = all-update_all q h xs b in
      elim (Bool-cases (p x)) [ inl k ↦ rw (k, h x a) ih | inr k ↦ rw (k, a) ih ]

  pub all-update_first :
      (q : A → Bool)
      → ((x : A) → q x ≡ true → q (f x) ≡ true)
      → (xs : List A) → all q xs ≡ true
      → all q (update_first p f xs) ≡ true
  all-update_first q h [] e = refl
  all-update_first q h (x ∷ xs) e =
      let (a, b) = and_parts (q x) (all q xs) e in
      elim (Bool-cases (p x)) [
        | inl k ↦ rw (k, h x a) b
        | inr k ↦ rw (k, a) (all-update_first q h xs b)
      ]

  pub any-update_all :
      (q : A → Bool)
      → ((x : A) → q x ≡ true → q (f x) ≡ true)
      → (xs : List A) → any q xs ≡ true
      → any q (update_all p f xs) ≡ true
  any-update_all q h [] e = e
  any-update_all q h (x ∷ xs) e = elim (or_cases (q x) _ e) [
    | inl a ↦ elim (Bool-cases (p x)) [ inl k ↦ rw (k, h x a) refl | inr k ↦ rw (k, a) refl ]
    | inr b ↦ or_right (q (if p x then f x else x)) _ (any-update_all q h xs b)
  ]

  pub any-update_first :
      (q : A → Bool)
      → ((x : A) → q x ≡ true → q (f x) ≡ true)
      → (xs : List A) → any q xs ≡ true
      → any q (update_first p f xs) ≡ true
  any-update_first q h [] e = e
  any-update_first q h (x ∷ xs) e = elim (Bool-cases (p x)) [
    | inl k ↦
        rw k (elim (or_cases (q x) _ e) [
          | inl a ↦ or_left _ _ (h x a)
          | inr b ↦ or_right (q (f x)) _ b
        ])
    | inr k ↦ rw k (elim (or_cases (q x) _ e) [
      | inl a ↦ or_left _ _ a
      | inr b ↦ or_right (q x) _ (any-update_first q h xs b)
    ])
  ]

  -- The element that is changed passes the test afterwards.
  pub any-update_first_new :
      (q : A → Bool)
      → ((x : A) → p x ≡ true → q (f x) ≡ true)
      → (xs : List A) {a : A} → first p xs ≡ some a
      → any q (update_first p f xs) ≡ true
  any-update_first_new q h [] e = absurd (ground arith)
  any-update_first_new q h (x ∷ xs) e = elim (Bool-cases (p x)) [
    | inl k ↦ rw k (or_left _ _ (h x k))
    | inr k ↦ rw k (or_right (q x) _ (any-update_first_new q h xs (rw k at e)))
  ]

  -- A test that the change cannot meet.
  pub length-update_first :
      (q : A → Bool)
      → ((x : A) → q x ≡ false → q (f x) ≡ false)
      → (xs : List A) → length (filter q (update_first p f xs)) ≤ length (filter q xs)
  length-update_first q h [] = omega arith
  length-update_first q h (x ∷ xs) =
      let ih = length-update_first q h xs in
      elim (Bool-cases (p x)) [
        | inl k ↦ rw k (length_filter_head (f x) x xs (h x))
        | inr k ↦ rw k (elim (Bool-cases (q x)) [ inl a ↦ rw a (omega arith) | inr b ↦ rw b ih ])
      ]
    where
      length_filter_head :
          (y x : A) (xs : List A)
          → (q x ≡ false → q y ≡ false)
          → length (filter q (y ∷ xs)) ≤ length (filter q (x ∷ xs))
      length_filter_head y x xs k = elim (Bool-cases (q x)) [
        | inl a ↦ elim (Bool-cases (q y)) [
          | inl b ↦ rw (a, b) (omega arith)
          | inr b ↦ rw (a, b) (omega arith)
        ]
        | inr a ↦ rw (a, k a) (omega arith)
      ]

  pub length-update_all :
      (q : A → Bool)
      → ((x : A) → q x ≡ false → q (f x) ≡ false)
      → (xs : List A) → length (filter q (update_all p f xs)) ≤ length (filter q xs)
  length-update_all q h [] = omega arith
  length-update_all q h (x ∷ xs) =
      let ih = length-update_all q h xs in
      elim (Bool-cases (q x)) [
        | inl a ↦ elim (Bool-cases (q (if p x then f x else x))) [
          | inl b ↦ rw (a, b) (omega arith)
          | inr b ↦ rw (a, b) (omega arith)
        ]
        | inr a ↦ elim (Bool-cases (p x)) [
          | inl k ↦ rw (a, k, h x a) ih
          | inr k ↦ rw (a, k) (rw a ih)
        ]
      ]

  pub first-update_first :
      (xs : List A) {a : A}
      → first p xs ≡ some a
      → p (f a) ≡ true
      → first p (update_first p f xs) ≡ some (f a)
  first-update_first [] e k = absurd (ground arith)
  first-update_first (x ∷ xs) {a} e k = elim (Bool-cases (p x)) [
    | inl h ↦ let same = some-injective x a (rw h at e) in rw (h, same, k) refl
    | inr h ↦ rw (h, h) (first-update_first xs (rw h at e) k)
  ]

-- A search for what the change keeps.
pub first-update_all {ℓ} :
    {A : Type ℓ} (p q : A → Bool) (f : A → A)
    → ((x : A) → p (f x) ≡ p x)
    → (xs : List A) {a : A} → first p xs ≡ some a
    → first p (update_all q f xs) ≡ some (if q a then f a else a)
first-update_all p q f h [] e = absurd (ground arith)
first-update_all p q f h (x ∷ xs) {a} e = elim (Bool-cases (p x)) [
  | inl k ↦
      let same = some-injective x a (rw k at e) in
      elim (Bool-cases (q x)) [
        | inl m ↦ rw (sym same, m, h x, k) refl
        | inr m ↦ rw (sym same, m, k) refl
      ]
  | inr k ↦
      let ih = first-update_all p q f h xs (rw k at e) in
      elim (Bool-cases (q x)) [ inl m ↦ rw (m, h x, k) ih | inr m ↦ rw (m, k) ih ]
]

pub snoc_append {ℓ} :
    {A : Type ℓ} (xs : List A) (x : A) (ys : List A) → (snoc xs x ++ ys) ≡ (xs ++ x ∷ ys)
snoc_append [] x ys = refl
snoc_append (y ∷ xs) x ys = ap (λ l. y ∷ l) (snoc_append xs x ys)

pub append_nil {ℓ} : {A : Type ℓ} (xs : List A) → (xs ++ []) ≡ xs
append_nil [] = refl
append_nil (x ∷ xs) = ap (λ l. x ∷ l) (append_nil xs)

pub append_assoc {ℓ} : {A : Type ℓ} (xs ys zs : List A) → ((xs ++ ys) ++ zs) ≡ (xs ++ (ys ++ zs))
append_assoc [] ys zs = refl
append_assoc (x ∷ xs) ys zs = ap (λ l. x ∷ l) (append_assoc xs ys zs)

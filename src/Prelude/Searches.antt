-- ===== src/Prelude/Searches.antt =====
-- The searches of Slices in a list that grew at its end, or whose elements were changed in place.
use Prim.Native.Nat.{suc}
use Prim.Native.String.{String}
use mathlib.Core.Path.{◌≡◌, refl, sym, ap, ◌∙◌}
use mathlib.Core.Bool.{Bool, true, false, ◌||◌, ◌&&◌}
use mathlib.Core.Logic.{inl, inr}
use mathlib.Core.Option.{none, some, some-injective}
use mathlib.Core.List.{List, [], ◌∷◌, ◌++◌}
use native.Mathlib.Omega.{arith}
use omnigrex.Prelude.Tests.{if◌then◌else◌, length, any, all, Bool-cases, Option-cases, and_parts}
use omnigrex.Prelude.Slices.{Slice, texts_eq, deep_eq, first, last, filter, snoc}
use omnigrex.Prelude.Texts.{text_eq_self}
use omnigrex.Prelude.Members.{or_left, or_right, or_cases}

pub texts_eq_self : (l : List String) → texts_eq l l ≡ true
texts_eq_self [] = refl
texts_eq_self (t ∷ l) = rw (text_eq_self t) (texts_eq_self l)

pub deep_eq_self : (l : Slice String) → deep_eq l l ≡ true
deep_eq_self none = refl
deep_eq_self (some l) = texts_eq_self l

module _ {ℓ} {A : Type ℓ} (p : A → Bool) where
  pub first_head : (x : A) (xs : List A) → p x ≡ true → first p (x ∷ xs) ≡ some x
  first_head x xs e = rw e refl

  pub first_tail : (x : A) (xs : List A) → p x ≡ false → first p (x ∷ xs) ≡ first p xs
  first_tail x xs e = rw e refl

  pub first-snoc_found :
      (xs : List A) (x : A) {a : A} → first p xs ≡ some a → first p (snoc xs x) ≡ some a
  first-snoc_found [] x e = absurd (ground arith)
  first-snoc_found (y ∷ xs) x e = elim (Bool-cases (p y)) [
    | inl h ↦ first_head y _ h ∙ sym (first_head y xs h) ∙ e
    | inr h ↦ first_tail y _ h ∙ first-snoc_found xs x (sym (first_tail y xs h) ∙ e)
  ]

  pub first-snoc-none :
      (xs : List A) (x : A)
      → first p xs ≡ none
      → first p (snoc xs x) ≡ (if p x then some x else none)
  first-snoc-none [] x e = refl
  first-snoc-none (y ∷ xs) x e = elim (Bool-cases (p y)) [
    | inl h ↦ absurd (let z = sym (first_head y xs h) ∙ e in ground arith)
    | inr h ↦ first_tail y _ h ∙ first-snoc-none xs x (sym (first_tail y xs h) ∙ e)
  ]

  pub first_holds : (xs : List A) {a : A} → first p xs ≡ some a → p a ≡ true
  first_holds [] e = absurd (ground arith)
  first_holds (y ∷ xs) {a} e = elim (Bool-cases (p y)) [
    | inl h ↦ rw (sym (some-injective y a (sym (first_head y xs h) ∙ e))) h
    | inr h ↦ first_holds xs (sym (first_tail y xs h) ∙ e)
  ]

  pub first-any : (xs : List A) {a : A} → first p xs ≡ some a → any p xs ≡ true
  first-any [] e = absurd (ground arith)
  first-any (y ∷ xs) e = elim (Bool-cases (p y)) [
    | inl h ↦ or_left _ _ h
    | inr h ↦ or_right (p y) _ (first-any xs (sym (first_tail y xs h) ∙ e))
  ]

  pub length-filter-snoc :
      (xs : List A) (x : A)
      → length (filter p (snoc xs x))
        ≡ (if p x then suc (length (filter p xs)) else length (filter p xs))
  length-filter-snoc [] x = elim (Bool-cases (p x)) [ inl h ↦ rw h refl | inr h ↦ rw h refl ]
  length-filter-snoc (y ∷ xs) x =
      let ih = length-filter-snoc xs x in
      elim (Bool-cases (p y)) [
        | inl h ↦ elim (Bool-cases (p x)) [
          | inl k ↦ rw (h, k) (ap suc (rw k at ih))
          | inr k ↦ rw (h, k) (ap suc (rw k at ih))
        ]
        | inr h ↦ rw h ih
      ]

  pub any-snoc : (xs : List A) (x : A) → any p (snoc xs x) ≡ (any p xs || p x)
  any-snoc [] x = ground arith
  any-snoc (y ∷ xs) x = let ih = any-snoc xs x in ground arith

  pub all-snoc : (xs : List A) (x : A) → all p (snoc xs x) ≡ (all p xs && p x)
  all-snoc [] x = ground arith
  all-snoc (y ∷ xs) x = let ih = all-snoc xs x in ground arith

  pub any_mono :
      (q : A → Bool) (xs : List A)
      → ((a : A) → p a ≡ true → q a ≡ true)
      → any p xs ≡ true
      → any q xs ≡ true
  any_mono q [] h e = e
  any_mono q (x ∷ xs) h e = elim (or_cases (p x) _ e) [
    | inl i ↦ or_left _ _ (h x i)
    | inr j ↦ or_right (q x) _ (any_mono q xs h j)
  ]

  pub any_weaken :
      (q : A → Bool) (xs : List A) → any (λ x. p x || q x) xs ≡ false → any p xs ≡ false
  any_weaken q [] e = refl
  any_weaken q (x ∷ xs) e = let ih = any_weaken q xs in ground arith

  pub all_mono :
      (q : A → Bool) (xs : List A)
      → ((a : A) → p a ≡ true → q a ≡ true)
      → all p xs ≡ true
      → all q xs ≡ true
  all_mono q [] h e = refl
  all_mono q (x ∷ xs) h e =
      let (a, b) = and_parts (p x) (all p xs) e in rw (h x a) (all_mono q xs h b)

  pub any_append_left : (xs ys : List A) → any p xs ≡ true → any p (xs ++ ys) ≡ true
  any_append_left [] ys e = absurd (ground arith)
  any_append_left (x ∷ xs) ys e = elim (or_cases (p x) _ e) [
    | inl a ↦ or_left _ _ a
    | inr b ↦ or_right (p x) _ (any_append_left xs ys b)
  ]

  pub any_append_right : (xs ys : List A) → any p ys ≡ true → any p (xs ++ ys) ≡ true
  any_append_right [] ys e = e
  any_append_right (x ∷ xs) ys e = or_right (p x) _ (any_append_right xs ys e)

  pub last_holds : (xs : List A) {a : A} → last p xs ≡ some a → p a ≡ true
  last_holds [] e = absurd (ground arith)
  last_holds (x ∷ xs) {a} e = elim (Option-cases (last p xs)) [
    | inr (b, h) ↦ last_holds xs (h ∙ rw h at e)
    | inl h ↦ elim (Bool-cases (p x)) [
      | inl k ↦ rw (sym (some-injective x a (rw (h, k) at e))) k
      | inr k ↦ absurd (let z = rw (h, k) at e in ground arith)
    ]
  ]

  -- What is found has the other property too.
  pub any_found :
      (q : A → Bool) (xs : List A) {a : A} → first p xs ≡ some a → q a ≡ true → any q xs ≡ true
  any_found q [] e h = absurd (ground arith)
  any_found q (x ∷ xs) {a} e h = elim (Bool-cases (p x)) [
    | inl k ↦ or_left (q x) _ (rw (some-injective x a (rw k at e)) h)
    | inr k ↦ or_right (q x) _ (any_found q xs (rw k at e) h)
  ]

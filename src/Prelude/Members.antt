-- ===== src/Prelude/Members.antt =====
-- Membership in a list of texts, and how much of one list another one covers.
use Prim.Native.Nat.{ℕ, suc, ◌≤◌}
use Prim.Native.String.{String}
use mathlib.Core.Path.{◌≡◌, refl, sym, subst}
use mathlib.Core.Logic.{◌⊎◌, inl, inr, ◌↔◌}
use mathlib.Core.Bool.{Bool, true, false, ◌||◌}
use mathlib.Core.List.{List, [], ◌∷◌, ◌++◌}
use native.Mathlib.Omega.{arith}
use omnigrex.Prelude.Tests.{length, any, Bool-cases}
use omnigrex.Prelude.Texts.{text_eq, text_eq_iff, text_eq_self, contains}
use omnigrex.Prelude.Slices.{concat_map, first}
use mathlib.Core.Option.{some, some-injective}

abbrev pub Has : List String → String → Type 0
Has l x = contains l x ≡ true

abbrev pub Sub : List String → List String → Type 0
Sub l m = (x : String) → Has l x → Has m x

pub or_cases : (p q : Bool) → (p || q) ≡ true → (p ≡ true) ⊎ (q ≡ true)
or_cases true q h = inl refl
or_cases false q h = inr h

pub or_false : (p q : Bool) → (p || q) ≡ false → (p ≡ false) × (q ≡ false)
or_false p q h = ground arith

pub or_left : (p q : Bool) → p ≡ true → (p || q) ≡ true
or_left p q h = ground arith

pub or_right : (p q : Bool) → q ≡ true → (p || q) ≡ true
or_right p q h = ground arith

pub text_eq→≡ : (s t : String) → text_eq s t ≡ true → s ≡ t
text_eq→≡ s t = (text_eq_iff s t).0

pub Has-head : (x : String) (l : List String) → Has (x ∷ l) x
Has-head x l = or_left _ _ (text_eq_self x)

pub Has-tail : (y : String) (l : List String) (x : String) → Has l x → Has (y ∷ l) x
Has-tail y l x h = or_right (text_eq y x) _ h

pub Has-cases : (y : String) (l : List String) (x : String) → Has (y ∷ l) x → (y ≡ x) ⊎ Has l x
Has-cases y l x h = elim (or_cases (text_eq y x) _ h) [
  | inl e ↦ inl (text_eq→≡ y x e)
  | inr k ↦ inr k
]

pub Has-append_cases : (l m : List String) (x : String) → Has (l ++ m) x → Has l x ⊎ Has m x
Has-append_cases [] m x h = inr h
Has-append_cases (y ∷ l) m x h = elim (or_cases (text_eq y x) _ h) [
  | inl e ↦ inl (or_left _ _ e)
  | inr k ↦ elim (Has-append_cases l m x k) [
    | inl a ↦ inl (or_right (text_eq y x) _ a)
    | inr b ↦ inr b
  ]
]

pub Has-append_left : (l m : List String) (x : String) → Has l x → Has (l ++ m) x
Has-append_left [] m x h = absurd (ground arith)
Has-append_left (y ∷ l) m x h = elim (or_cases (text_eq y x) _ h) [
  | inl e ↦ or_left _ _ e
  | inr k ↦ or_right (text_eq y x) _ (Has-append_left l m x k)
]

pub Has-append_right : (l m : List String) (x : String) → Has m x → Has (l ++ m) x
Has-append_right [] m x h = h
Has-append_right (y ∷ l) m x h = or_right (text_eq y x) _ (Has-append_right l m x h)

abbrev count_new : Bool → ℕ → ℕ
count_new true n = n
count_new false n = suc n

-- The elements of `l` that are not in `seen`.
pub unseen : List String → List String → ℕ
unseen seen [] = 0
unseen seen (u ∷ us) = count_new (contains seen u) (unseen seen us)

count_new_le :
    (b c : Bool) (m n : ℕ) → (c ≡ true → b ≡ true) → m ≤ n → count_new b m ≤ count_new c n
count_new_le b c m n h le = ground arith

count_new_lt : (c : Bool) (m n : ℕ) → suc m ≤ n → suc (count_new c m) ≤ count_new c n
count_new_lt c m n le = ground arith

pub unseen_le : (seen more l : List String) → Sub seen more → unseen more l ≤ unseen seen l
unfolding unseen
unseen_le seen more [] h = omega arith
unseen_le seen more (u ∷ us) h = count_new_le _ _ _ _ (h u) (unseen_le seen more us h)

pub unseen_nil : (l : List String) → unseen [] l ≡ length l
unfolding unseen
unseen_nil [] = refl
unseen_nil (u ∷ us) = rw (unseen_nil us) refl

pub unseen_lt :
    (seen l : List String) (id : String)
    → Has l id
    → contains seen id ≡ false
    → suc (unseen (id ∷ seen) l) ≤ unseen seen l
unfolding unseen
unseen_lt seen [] id h e = absurd (ground arith)
unseen_lt seen (u ∷ us) id h e =
    let weaker = unseen_le seen (id ∷ seen) us (Has-tail id seen) in
    elim (Has-cases u us id h) [
      | inl same ↦ rw (same, e, text_eq_self id) (omega arith)
      | inr later ↦
          let ih = unseen_lt seen us id later e in
          elim (Bool-cases (text_eq id u)) [
            | inl new ↦ rw (new, sym (text_eq→≡ id u new), e) (omega arith)
            | inr old ↦ rw old (count_new_lt (contains seen u) _ _ ih)
          ]
    ]

module _ {ℓ} {A : Type ℓ} where
  pub Has-concat_map :
      (f : A → List String) (t : A → Bool) (x : String) (l : List A)
      → ((a : A) → Has (f a) x ↔ (t a ≡ true))
      → Has (concat_map f l) x ↔ (any t l ≡ true)
  Has-concat_map f t x [] h = (λ e. e, λ e. e)
  Has-concat_map f t x (a ∷ l) h =
      let ih = Has-concat_map f t x l h in
      (
        λ k. elim (Has-append_cases (f a) _ x k) [
          | inl i ↦ or_left _ _ ((h a).0 i)
          | inr j ↦ or_right (t a) _ (ih.0 j)
        ],
        λ k. elim (or_cases (t a) _ k) [
          | inl i ↦ Has-append_left (f a) _ x ((h a).1 i)
          | inr j ↦ Has-append_right (f a) _ x (ih.1 j)
        ],
      )

  pub concat_map-Sub :
      (f g : A → List String) (l : List A)
      → ((a : A) → Sub (f a) (g a))
      → Sub (concat_map f l) (concat_map g l)
  concat_map-Sub f g [] h x k = k
  concat_map-Sub f g (a ∷ l) h x k = elim (Has-append_cases (f a) _ x k) [
    | inl i ↦ Has-append_left (g a) _ x (h a x i)
    | inr j ↦ Has-append_right (g a) _ x (concat_map-Sub f g l h x j)
  ]

  pub first-Sub :
      (p : A → Bool) (f : A → List String) (l : List A) {a : A}
      → first p l ≡ some a
      → Sub (f a) (concat_map f l)
  first-Sub p f [] e x h = absurd (ground arith)
  first-Sub p f (b ∷ l) {a} e x h = elim (Bool-cases (p b)) [
    | inl found ↦
        subst (λ c. Sub (f c) (concat_map f (b ∷ l))) (some-injective b a (rw found at e))
          (Has-append_left (f b) (concat_map f l)) x h
    | inr other ↦ Has-append_right (f b) _ x (first-Sub p f l (rw other at e) x h)
  ]

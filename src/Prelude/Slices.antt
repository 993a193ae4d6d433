-- ===== src/Prelude/Slices.antt =====
-- Go slices where nil is told from empty, and the searches of Go's package slices.
use mathlib.Core.Bool.{Bool, true, false, ◌&&◌}
use mathlib.Core.Option.{Option, none, some}
use mathlib.Core.List.{List, [], ◌∷◌, ◌++◌}
use Prim.Native.String.{String}
use omnigrex.Prelude.Tests.{is_nil, if◌then◌else◌}
use omnigrex.Prelude.Texts.{text_eq}

-- `none` is the nil slice.
abbrev pub Slice {ℓ} : Type ℓ → Type ℓ
Slice A = Option (List A)

abbrev pub items {ℓ} : {A : Type ℓ} → Slice A → List A
items none = []
items (some xs) = xs

-- Element by element, as slices.Equal compares.
abbrev pub texts_eq : List String → List String → Bool
texts_eq [] [] = true
texts_eq (s ∷ ss) (t ∷ ts) = text_eq s t && texts_eq ss ts
texts_eq _ _ = false

-- As reflect.DeepEqual compares.
abbrev pub deep_eq : Slice String → Slice String → Bool
deep_eq none none = true
deep_eq (some ss) (some ts) = texts_eq ss ts
deep_eq _ _ = false

module _ {ℓ} {A : Type ℓ} where
  -- The first element that passes the test, and the last.
  abbrev pub first : (A → Bool) → List A → Option A
  first p [] = none
  first p (x ∷ xs) = if p x then some x else first p xs

  abbrev pub last : (A → Bool) → List A → Option A
  last p [] = none
  last p (x ∷ xs) =
      let later = last p xs in if is_nil later then (if p x then some x else none) else later

  -- The elements that pass the test.
  abbrev pub filter : (A → Bool) → List A → List A
  filter p [] = []
  filter p (x ∷ xs) = let rest = filter p xs in if p x then x ∷ rest else rest

  -- `append(xs, x)`.
  abbrev pub snoc : List A → A → List A
  snoc xs x = xs ++ x ∷ []

  -- The first element that passes the test, changed in place.
  abbrev pub update_first : (A → Bool) → (A → A) → List A → List A
  update_first p f [] = []
  update_first p f (x ∷ xs) = let rest = update_first p f xs in if p x then f x ∷ xs else x ∷ rest

  -- Every element that passes the test, changed in place.
  abbrev pub update_all : (A → Bool) → (A → A) → List A → List A
  update_all p f [] = []
  update_all p f (x ∷ xs) = (if p x then f x else x) ∷ update_all p f xs

-- The results of all the elements, one after the other.
abbrev pub concat_map {ℓ κ} : {A : Type ℓ} {B : Type κ} → (A → List B) → List A → List B
concat_map f [] = []
concat_map f (x ∷ xs) = f x ++ concat_map f xs

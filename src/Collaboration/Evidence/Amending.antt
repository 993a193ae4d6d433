-- ===== src/Collaboration/Evidence/Amending.antt =====
-- The loop of amends, and the chains of amendments that it follows.
use omnigrex.Prelude.{
  ℕ, zero, suc, ◌≤◌, ◌<◌, String, Bool, true, false, List, [], ◌∷◌, Option, some, ◌&&◌, ◌||◌, ◌≡◌,
  refl, sym, ◌∙◌, ◌⊎◌, inl, inr, ◌↔◌, arith, Bool-cases, and_parts, or_cases, or_false,
  if◌then◌else◌, contains, is_empty, text_eq, text_eq→≡, text_eq_self, length,
}
use omnigrex.Collaboration.Model.Records.{Input}
use omnigrex.Collaboration.Model.States.{State}
use omnigrex.Collaboration.Evidence.Lineage.{amended_by, amends_loop, amends}

-- Every amendment is to an input in `seen` or before it in the list.
unfoldable pub in_order : List String → List Input → Bool
in_order seen [] = true
in_order seen (x ∷ xs) = (is_empty x.amends || contains seen x.amends) && in_order (x.id ∷ seen) xs

position : List Input → String → ℕ
position [] id = 0
position (x ∷ xs) id = let rest = position xs id in if text_eq x.id id then 0 else suc rest

position_le : (inputs : List Input) (id : String) → position inputs id ≤ length inputs
unfolding position
position_le [] id = omega arith
position_le (x ∷ xs) id = ground (arith, position_le xs id)

amended_head :
    (x : Input) (xs : List Input) (id : String)
    → text_eq x.id id ≡ true
    → amended_by (x ∷ xs) id ≡ x.amends
unfolding amended_by
amended_head x xs id e = rw (e, amended_by) refl

amended_tail :
    (x : Input) (xs : List Input) (id : String)
    → text_eq x.id id ≡ false
    → amended_by (x ∷ xs) id ≡ amended_by xs id
unfolding amended_by
amended_tail x xs id e = rw (e, amended_by) refl

position_tail :
    (x : Input) (xs : List Input) (id : String)
    → text_eq x.id id ≡ false
    → position (x ∷ xs) id ≡ suc (position xs id)
unfolding position
position_tail x xs id e = rw (e, position) refl

position_cons_le :
    (x : Input) (xs : List Input) (id : String) → position (x ∷ xs) id ≤ suc (position xs id)
unfolding position
position_cons_le x xs id = ground arith

position_head : (x : Input) (xs : List Input) (id : String) → x.id ≡ id → position (x ∷ xs) id ≡ 0
unfolding position
position_head x xs id e = rw (e, text_eq_self id, position) refl

position-amended_by :
    (seen : List String) (inputs : List Input) (id : String)
    → in_order seen inputs ≡ true
    → is_empty (amended_by inputs id) ≡ false
    → (contains seen (amended_by inputs id) ≡ true)
      ⊎ (position inputs (amended_by inputs id) < position inputs id)
unfolding in_order amended_by
position-amended_by seen [] id h ne = absurd (ground (arith, text_eq_self ""))
position-amended_by seen (x ∷ xs) id h ne =
    let (first_ok, rest_ok) = and_parts _ (in_order (x.id ∷ seen) xs) h in
    elim (Bool-cases (text_eq x.id id)) [
      | inl e ↦
          let ne' = rw (amended_head x xs id e) at ne in
          elim (or_cases (is_empty x.amends) _ first_ok) [
            | inl i ↦ absurd (let both = sym i ∙ ne' in ground arith)
            | inr j ↦ inl (rw (amended_head x xs id e) j)
          ]
      | inr e ↦
          let p = amended_by xs id in
          let keep = amended_tail x xs id e in
          let at_id = position_tail x xs id e in
          elim (position-amended_by (x.id ∷ seen) xs id rest_ok (rw keep at ne)) [
            | inl i ↦ elim (or_cases (text_eq x.id p) _ i) [
              | inl same ↦
                  inr (rw (keep, at_id, position_head x xs p (text_eq→≡ x.id p same)) (omega arith))
              | inr old ↦ inl (rw keep old)
            ]
            | inr lt ↦ let le = position_cons_le x xs p in inr (rw (keep, at_id) (omega arith))
          ]
    ]

-- One amendment or more lead from the first input to the second.
pub data Amends (inputs : List Input) : String → String → Type 0 where
  directly :
      {id prior : String}
      → is_empty id ≡ false
      → is_empty prior ≡ false
      → amended_by inputs id ≡ prior
      → Amends inputs id prior
  through :
      {id p prior : String}
      → is_empty id ≡ false
      → is_empty p ≡ false
      → amended_by inputs id ≡ p
      → Amends inputs p prior
      → Amends inputs id prior

loop_end :
    (k : ℕ) (inputs : List Input) (id prior : String)
    → (is_empty id || is_empty (amended_by inputs id)) ≡ true
    → amends_loop (suc k) inputs id prior ≡ some false
unfolding amends_loop
loop_end k inputs id prior e = rw (e, amends_loop) refl

loop_found :
    (k : ℕ) (inputs : List Input) (id prior : String)
    → (is_empty id || is_empty (amended_by inputs id)) ≡ false
    → text_eq (amended_by inputs id) prior ≡ true
    → amends_loop (suc k) inputs id prior ≡ some true
unfolding amends_loop
loop_found k inputs id prior e f = rw (e, f, amends_loop) refl

loop_next :
    (k : ℕ) (inputs : List Input) (id prior : String)
    → (is_empty id || is_empty (amended_by inputs id)) ≡ false
    → text_eq (amended_by inputs id) prior ≡ false
    → amends_loop (suc k) inputs id prior ≡ amends_loop k inputs (amended_by inputs id) prior
unfolding amends_loop
loop_next k inputs id prior e f = rw (e, f, amends_loop) refl

Amends_first :
    {inputs : List Input} {id prior : String}
    → Amends inputs id prior
    → (is_empty id ≡ false) × (is_empty (amended_by inputs id) ≡ false)
Amends_first (Amends.directly ne np e) = (ne, rw e np)
Amends_first (Amends.through ne np e _) = (ne, rw e np)

Amends_rest :
    {inputs : List Input} {id prior : String}
    → Amends inputs id prior
    → text_eq (amended_by inputs id) prior ≡ false
    → Amends inputs (amended_by inputs id) prior
Amends_rest {inputs} {id} {prior} (Amends.directly ne np e) other =
    absurd (let b = rw (e, text_eq_self prior) at other in ground arith)
Amends_rest (Amends.through ne np e rest) other = rw e rest

-- What the loop answers, where it ends.
abbrev Answers : List Input → String → String → Option Bool → Type 0
Answers inputs id prior o = (b : Bool) × (o ≡ some b) × ((b ≡ true) ↔ Amends inputs id prior)

loop-Answers :
    (k : ℕ) (inputs : List Input) (id prior : String)
    → in_order [] inputs ≡ true
    → position inputs id < k
    → Answers inputs id prior (amends_loop k inputs id prior)
loop-Answers zero inputs id prior h lt = absurd (omega arith)
loop-Answers (suc k) inputs id prior h lt =
    let p = amended_by inputs id in
    elim (Bool-cases (is_empty id || is_empty p)) [
      | inl e ↦ (
        false,
        loop_end k inputs id prior e,
        (λ b. absurd (ground arith), λ a. absurd (let (ne, np) = Amends_first a in ground arith)),
      )
      | inr e ↦
          let (ne, np) = or_false (is_empty id) (is_empty p) e in
          elim (Bool-cases (text_eq p prior)) [
            | inl f ↦
                let q = text_eq→≡ p prior f in
                (
                  true,
                  loop_found k inputs id prior e f,
                  (λ _. Amends.directly ne (rw (sym q) np) q, λ _. refl),
                )
            | inr f ↦ elim (position-amended_by [] inputs id h np) [
              | inl i ↦ absurd (ground arith)
              | inr less ↦
                  let (b, eq, (to, from)) = loop-Answers k inputs p prior h (omega arith) in
                  (
                    b,
                    loop_next k inputs id prior e f ∙ eq,
                    (λ t. Amends.through ne np refl (to t), λ a. from (Amends_rest a f)),
                  )
            ]
          ]
    ]

-- Where amendments refer to earlier inputs, the loop of amends ends within as many rounds as there are
-- inputs and one more, for every pair of identities, and its answer is whether a chain of one or more
-- amendments leads from the first to the second.
pub amends-Amends :
    (s : State) (id prior : String)
    → in_order [] s.inputs ≡ true
    → (amends_loop (suc (length s.inputs)) s.inputs id prior ≡ some (amends s id prior))
      × ((amends s id prior ≡ true) ↔ Amends s.inputs id prior)
unfolding amends
amends-Amends s id prior h =
    let le = position_le s.inputs id in
    let (b, eq, answer) = loop-Answers (suc (length s.inputs)) s.inputs id prior h (omega arith) in
    rw (eq, amends) (refl, answer)

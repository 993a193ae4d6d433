-- ===== src/Collaboration/Laws/Sound.antt =====
-- The shape of the State of internal/collaboration.
use omnigrex.Prelude.{
  ◌≤◌, String, Bool, true, List, [], ◌∷◌, ◌&&◌, ◌||◌, ◌≡◌, refl, inl, inr, arith, Bool-cases,
  and_parts, all, any, contains, is_empty, length, filter, text_eq, snoc, update_first, update_all,
}
use omnigrex.Collaboration.Model.Records.{Round, Input, Preparation}
use omnigrex.Collaboration.Model.States.{State, empty_state}
use omnigrex.Collaboration.Rounds.{is_open}
use omnigrex.Collaboration.Evidence.Amending.{in_order}
use omnigrex.Collaboration.Laws.Naming.{Named, Named-nil}

-- The Turn that an input is assigned to was prepared.
abbrev pub is_assigned : List Preparation → Input → Bool
is_assigned ps x = is_empty x.delivered_to || any (λ p. text_eq p.turn_id x.delivered_to) ps

abbrev pub is_frontier : String → Round → Bool
is_frontier current r = text_eq r.id current && r.published

-- The current round is a published one, and no two rounds await their publication.
pub record Frontier (current : String) (rounds : List Round) : Type 0 where
  pub published : (is_empty current || any (is_frontier current) rounds) ≡ true
  pub open_once : length (filter is_open rounds) ≤ 1

pub record Sound (s : State) : Type 0 where
  pub named : Named s.references
  pub ordered : in_order [] s.inputs ≡ true
  pub assigned : all (is_assigned s.preparations) s.inputs ≡ true
  pub frontier : Frontier s.current_round s.rounds

pub Sound-empty_state : Sound empty_state
unfolding in_order text_eq
Sound-empty_state = record {
  named = Named-nil;
  ordered = refl;
  assigned = refl;
  frontier = record { published = refl; open_once = omega arith };
}

module _ (p : Input → Bool) (f : Input → Input) (same_id : (x : Input) → (f x).id ≡ x.id)
    (same_amends : (x : Input) → (f x).amends ≡ x.amends) where
  pub in_order-update_all :
      (seen : List String) (xs : List Input)
      → in_order seen xs ≡ true
      → in_order seen (update_all p f xs) ≡ true
  unfolding in_order
  in_order-update_all seen [] h = refl
  in_order-update_all seen (x ∷ xs) h =
      let (a, b) = and_parts _ (in_order (x.id ∷ seen) xs) h in
      let ih = in_order-update_all (x.id ∷ seen) xs b in
      elim (Bool-cases (p x)) [
        | inl k ↦ rw (k, same_id x, same_amends x, a) ih
        | inr k ↦ rw (k, a) ih
      ]

  pub in_order-update_first :
      (seen : List String) (xs : List Input)
      → in_order seen xs ≡ true
      → in_order seen (update_first p f xs) ≡ true
  unfolding in_order
  in_order-update_first seen [] h = refl
  in_order-update_first seen (x ∷ xs) h =
      let (a, b) = and_parts _ (in_order (x.id ∷ seen) xs) h in
      elim (Bool-cases (p x)) [
        | inl k ↦ rw (k, in_order, same_id x, same_amends x, a) b
        | inr k ↦ rw (k, in_order, a) (in_order-update_first (x.id ∷ seen) xs b)
      ]

pub in_order-snoc :
    (seen : List String) (xs : List Input) (x : Input)
    → in_order seen xs ≡ true
    → (is_empty x.amends || (contains seen x.amends || any (λ y. text_eq y.id x.amends) xs)) ≡ true
    → in_order seen (snoc xs x) ≡ true
unfolding in_order
in_order-snoc seen [] x h k = ground arith
in_order-snoc seen (y ∷ xs) x h k =
    let (a, b) = and_parts _ (in_order (y.id ∷ seen) xs) h in
    rw a (in_order-snoc (y.id ∷ seen) xs x b (ground arith))

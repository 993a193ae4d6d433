-- ===== src/Collaboration/Laws/Resolved.antt =====
-- What Resolve records of a round, and what the record says of it.
use omnigrex.Prelude.{
  String, Bool, true, false, not, List, [], ◌∷◌, map, none, some, ◌&&◌, ◌||◌, ◌≡◌, refl, subst, sym,
  inl, inr, Bool-cases, and_parts, inc_64, all, any, is_empty, first, deep_eq_self, text_eq,
  text_eq_self, update_first, or_left, Gives, option-Gives, if-Gives, Gives-some, any_append_left,
  any_append_right, first_holds, first-update_first, first-update_all, either, text_eq→≡,
}
use omnigrex.Collaboration.Model.Records.{Round, Resolution}
use omnigrex.Collaboration.Model.States.{State}
use omnigrex.Collaboration.Evidence.Currency.{resolution_current}
use omnigrex.Collaboration.Interpreting.Resolving.{
  resolve, apply_resolution, apply_resolutions, freeze, still_asks, record_resolution, was_prepared,
  resolutions_valid,
}
use omnigrex.Collaboration.Interpreting.Effects.{same_interpretation, has_resolution_effect}
use omnigrex.Collaboration.Laws.Recording.{bool_eq_self}

-- A recorded Resolution that proves the wanted one for the operation.
abbrev proves : String → Resolution → Resolution → Bool
proves operation wanted actual =
    text_eq actual.origin_operation_id operation && same_interpretation actual wanted

proves_self :
    (operation : String) (x y : Resolution)
    → text_eq x.origin_operation_id operation ≡ true
    → y.origin_operation_id ≡ x.origin_operation_id
    → y.obsolete ≡ x.obsolete
    → y.question_id ≡ x.question_id
    → y.response_ids ≡ x.response_ids
    → y.explanation ≡ x.explanation
    → proves operation x y ≡ true
unfolding same_interpretation
proves_self operation x y h origin obsolete question responses explanation =
    rw
      (
        origin,
        h,
        obsolete,
        bool_eq_self x.obsolete,
        question,
        text_eq_self x.question_id,
        responses,
        deep_eq_self x.response_ids,
        explanation,
        text_eq_self x.explanation,
      )
      refl

abbrev is_round : String → Round → Bool
is_round id x = text_eq x.id id

abbrev numbered : State → Resolution → Resolution
numbered s x = record x { sequence = inc_64 s.interpretation_sequence }

-- The addressed round has the Resolutions of `r0` and those that pass the test for a wanted one.
abbrev Grown : (id : String) → Round → State → Type 0
Grown id r0 s =
    (r1 : Round) × (first (is_round id) s.rounds ≡ some r1)
    × ((q : Resolution → Bool) → any q r0.resolutions ≡ true → any q r1.resolutions ≡ true)

apply_resolution-Grown :
    (r r0 : Round) (s : State) (x : Resolution)
    → first (is_round r.id) s.rounds ≡ some r0
    → Grown r.id (record_resolution (numbered s x) r0) (apply_resolution r s x)
apply_resolution-Grown r r0 s x e =
    let y = numbered s x in
    let added = record_resolution y r0 in
    let asks_it = still_asks s r x.question_id in
    let rounds = update_first (is_round r.id) (record_resolution y) s.rounds in
    let once =
      first-update_first (is_round r.id) (record_resolution y) s.rounds e
        (first_holds (is_round r.id) s.rounds e) in
    either
      (λ l.
        (r1 : Round) × (first (is_round r.id) l ≡ some r1)
        × ((q : Resolution → Bool) → any q added.resolutions ≡ true → any q r1.resolutions ≡ true))
      (is_empty r.superseded_by) (λ _. (added, once, λ q k. k))
      λ _.
        let twice =
          first-update_all (is_round r.id) asks_it (record_resolution y) (λ _. refl) rounds once in
        elim (Bool-cases (asks_it added)) [
          | inl k ↦ (
            record_resolution y added,
            rw k at twice,
            λ q m. any_append_left q added.resolutions (y ∷ []) m,
          )
          | inr k ↦ (added, rw k at twice, λ q m. m)
        ]

-- Every batch that is applied is in the addressed round afterwards.
apply_resolutions-Grown :
    (operation : String) (r r0 : Round) (s : State) (f : Resolution → Resolution)
    → ((t : State) (x : Resolution)
        → text_eq x.origin_operation_id operation ≡ true
        → proves operation x (numbered t (f x)) ≡ true)
    → (batch : List Resolution) → all (λ x. text_eq x.origin_operation_id operation) batch ≡ true
    → first (is_round r.id) s.rounds ≡ some r0
    → (r1 : Round) × (first (is_round r.id) (apply_resolutions r s (map f batch)).rounds ≡ some r1)
      × ((q : Resolution → Bool) → any q r0.resolutions ≡ true → any q r1.resolutions ≡ true)
      × (all (λ x. any (proves operation x) r1.resolutions) batch ≡ true)
unfolding apply_resolutions
apply_resolutions-Grown operation r r0 s f h [] o e = (r0, e, λ q k. k, refl)
apply_resolutions-Grown operation r r0 s f h (x ∷ batch) o e =
    let (mine, rest) = and_parts (text_eq x.origin_operation_id operation) _ o in
    let (r1, e1, keeps) = apply_resolution-Grown r r0 s (f x) e in
    let (r2, e2, keeps2, others) =
      apply_resolutions-Grown operation r r1 (apply_resolution r s (f x)) f h batch rest e1 in
    let y = numbered s (f x) in
    let here =
      any_append_right (proves operation x) r0.resolutions (y ∷ []) (or_left _ _ (h s x mine)) in
    (
      r2,
      e2,
      λ q k. keeps2 q (keeps q (any_append_left q r0.resolutions (y ∷ []) k)),
      rw (keeps2 (proves operation x) (keeps (proves operation x) here)) others,
    )

resolve_checked :
    (s : State) (round turn : String) (batch : List Resolution)
    → Gives
        (λ next.
          (r : Round) × (first (is_round round) s.rounds ≡ some r)
          × (next ≡ apply_resolutions r s (map (freeze s) batch)))
        (resolve s round turn batch)
unfolding resolve
resolve_checked s round turn batch = option-Gives _ (first (is_round round) s.rounds) _ λ r e.
    if-Gives _ (not r.published || not (was_prepared s r.participant_id turn)) none _ (λ _. tt)
      λ _.
        if-Gives _ (not (resolutions_valid s r [] batch)) none _ (λ _. tt)
          λ _.
            if-Gives _ (not (all (resolution_current s) (map (freeze s) batch))) none _ (λ _. tt)
              λ _. (r, e, refl)

-- What is found of a recorded batch.
abbrev pub Recorded : (operation round : String) → List Resolution → State → State → Type 0
Recorded operation round batch s next =
    (before : Round) × (after : Round) × (first (is_round round) s.rounds ≡ some before)
    × (first (is_round round) next.rounds ≡ some after)
    × ((q : Resolution → Bool) → any q before.resolutions ≡ true → any q after.resolutions ≡ true)
    × (has_resolution_effect after operation batch ≡ true)

resolve_applied :
    (s next : State) (operation round : String) (batch : List Resolution) (r : Round)
    → (is_empty operation || not (any (λ _. true) batch)) ≡ false
    → all (λ x. text_eq x.origin_operation_id operation) batch ≡ true
    → first (is_round round) s.rounds ≡ some r
    → next ≡ apply_resolutions r s (map (freeze s) batch)
    → Recorded operation round batch s next
unfolding has_resolution_effect
resolve_applied s next operation round batch r given o at_round same =
    let same_id = text_eq→≡ r.id round (first_holds (is_round round) s.rounds at_round) in
    let (r1, e1, keeps, others) =
      apply_resolutions-Grown operation r r s (freeze s)
        (λ t x k. proves_self operation x (numbered t (freeze s x)) k refl refl refl refl refl)
        batch o (subst (λ i. first (is_round i) s.rounds ≡ some r) (sym same_id) at_round) in
    (
      r,
      r1,
      at_round,
      rw same (
          subst
            (λ i.
              first (is_round i) (apply_resolutions r s (map (freeze s) batch)).rounds ≡ some r1)
            same_id e1),
      keeps,
      rw (given, others) refl,
    )

-- A nonempty batch that Resolve takes for a round, every part of it reserved by one operation with a
-- nonempty identity, is recorded in that round beside all that was recorded there before, and
-- HasResolutionEffect then confirms the batch for the operation.
pub resolve-Recorded :
    (s next : State) (operation round turn : String) (batch : List Resolution)
    → (is_empty operation || not (any (λ _. true) batch)) ≡ false
    → all (λ x. text_eq x.origin_operation_id operation) batch ≡ true
    → resolve s round turn batch ≡ some next
    → Recorded operation round batch s next
resolve-Recorded s next operation round turn batch given o e =
    let (r, at_round, same) = Gives-some _ _ e (resolve_checked s round turn batch) in
    resolve_applied s next operation round batch r given o at_round same

-- ===== src/Collaboration/Laws/Confirming.antt =====
-- The parts of PlanningValidationCurrent for a new validation.
use omnigrex.Prelude.{
  String, true, false, not, List, [], ◌∷◌, map, Option, some, ◌&&◌, ◌||◌, ◌≡◌, refl, sym, inl, inr,
  arith, Bool-cases, Option-cases, all, any, is_empty, last, filter, items, contains, text_eq,
  text_eq_self, or_false, last_holds, Has, Has-head, Has-tail,
}
use omnigrex.Collaboration.Model.Records.{Input}
use omnigrex.Collaboration.Model.Planned.{PlanningState, PlanRevalidation}
use omnigrex.Collaboration.Model.States.{State}
use omnigrex.Collaboration.Evidence.Currency.{
  is_undelivered, pending, unresolved, assessment_blocked, resolution_current, is_considered,
  competes, supersedes_evidence, effective_decisions, latest_assessment, is_open_decision,
}
use omnigrex.Collaboration.Evidence.Lineage.{
  is_amendment_of_evidence, evidence_lineage, explicitly_corrects, amends, priors,
}
use omnigrex.Collaboration.Planning.Validating.{
  confirmed, is_read_by, is_standing_confirmation, confirmation_of, as_slice, new_revalidation,
  planning_validation_current,
}

covered :
    (participant : String) (xs : List Input) (l : List String)
    → ((y : String) → Has (map (λ x. x.id) (filter (is_read_by participant) xs)) y → Has l y)
    → any (λ x. text_eq x.participant_id participant && is_undelivered x) xs ≡ false
    → all (λ x. not (text_eq x.participant_id participant) || contains l x.id) xs ≡ true
covered participant [] l sub h = refl
covered participant (x ∷ xs) l sub h =
    let (a, b) = or_false (text_eq x.participant_id participant && is_undelivered x) _ h in
    elim (Bool-cases (is_read_by participant x)) [
      | inl k ↦
          let ids = map (λ y. y.id) (filter (is_read_by participant) xs) in
          let mine = rw k at (sub x.id) in
          rw (mine (Has-head x.id ids)) (
            let rest = rw k at sub in
            let ih = covered participant xs l (λ y m. rest y (Has-tail x.id ids y m)) b in
            ground arith)
      | inr k ↦ let ih = covered participant xs l (rw k at sub) b in ground arith
    ]

items-as_slice : (l : List String) → items (as_slice l) ≡ l
items-as_slice [] = refl
items-as_slice (t ∷ l) = refl

confirmation_found :
    (s : State) (p : PlanningState) (revision participant : String)
    → is_empty (confirmation_of s p revision participant) ≡ false
    → (x : Input) × (is_standing_confirmation s p revision x ≡ true)
      × (x.id ≡ confirmation_of s p revision participant)
confirmation_found s p revision participant h =
    let standing = is_standing_confirmation s p revision in
    let read = filter (is_read_by participant) s.inputs in
    elim (Option-cases (last standing read)) [
      | inl e ↦ absurd (let z = rw (confirmation_of, e, text_eq_self "") at h in ground arith)
      | inr (x, e) ↦ (x, last_holds standing read e, rw (confirmation_of, e) refl)
    ]

standing_parts :
    (s : State) (p : PlanningState) (revision : String) (x : Input)
    → is_standing_confirmation s p revision x ≡ true
    → (contains p.invalidated_confirmations x.id ≡ false) × (confirmed s x.id ≡ true)
unfolding is_standing_confirmation
standing_parts s p revision x h = (ground arith, ground arith)

-- The planning state has no part in what is open.
pending_frame :
    (s : State) (q : Option PlanningState) (participant : String)
    → pending (record s { planning = q }) participant ≡ pending s participant
unfolding pending
pending_frame s q participant = refl

blocked_frame :
    (s : State) (q : Option PlanningState) (participant : String)
    → assessment_blocked (record s { planning = q }) participant ≡ assessment_blocked s participant
unfolding assessment_blocked latest_assessment
blocked_frame s q participant = refl

confirmed_frame :
    (s : State) (q : Option PlanningState) (id : String)
    → confirmed (record s { planning = q }) id ≡ confirmed s id
unfolding confirmed latest_assessment
confirmed_frame s q id = refl

unresolved_frame :
    (s : State) (q : Option PlanningState) (participant : String)
    → unresolved (record s { planning = q }) participant ≡ unresolved s participant
unfolding unresolved is_open_decision resolution_current is_considered competes supersedes_evidence
    is_amendment_of_evidence evidence_lineage explicitly_corrects amends effective_decisions priors
unresolved_frame s q participant = refl

pending_all :
    (s : State) (participant : String)
    → pending s participant ≡ false
    → any (λ x. text_eq x.participant_id participant && is_undelivered x) s.inputs ≡ false
unfolding pending
pending_all s participant h = h

-- The new validation of a State where nothing of the participant is open.
pub validation_current :
    (s : State) (p : PlanningState) (operation revision participant turn commit evidence : String)
    (rs : List PlanRevalidation)
    → text_eq p.current_revision revision ≡ true
    → pending s participant ≡ false
    → unresolved s participant ≡ false
    → assessment_blocked s participant ≡ false
    → is_empty (confirmation_of s p revision participant) ≡ false
    → planning_validation_current
        (record s { planning = some (record p { revalidations = rs }) })
        (new_revalidation s p operation revision participant turn commit evidence)
      ≡ true
unfolding planning_validation_current
validation_current s p operation revision participant turn commit evidence rs c np nu na ne =
    let next_planning = some (record p { revalidations = rs }) in
    let (x, standing, same) = confirmation_found s p revision participant ne in
    let (valid, ok) = standing_parts s p revision x standing in
    let ids = map (λ y. y.id) (filter (is_read_by participant) s.inputs) in
    let all_seen =
      covered participant s.inputs (items (as_slice ids)) (λ y m. rw (items-as_slice ids) m)
        (pending_all s participant np) in
    rw
      (
        c,
        pending_frame s next_planning participant,
        np,
        blocked_frame s next_planning participant,
        na,
        unresolved_frame s next_planning participant,
        nu,
        sym same,
        valid,
        confirmed_frame s next_planning x.id,
        ok,
      )
      all_seen

-- ===== src/Workflow/Laws/Admission.antt =====
-- Which revalidated intents are let in.
use omnigrex.Prelude.{
  ◌≡◌, true, false, some, none, Option-cases, inl, inr, Holds, Holds-done, done, arith, not, ◌||◌,
  is_some, Run, if-Holds, text_eq, text_eq_iff, Run, if-Holds, is_some,
}
use omnigrex.Workflow.Laws.Fencing.{stale_lem}
use omnigrex.Workflow.Validation.Parts.{is_working}
use omnigrex.Workflow.Validation.EventCheck.{valid_content, valid_event, valid_revalidated}
use omnigrex.Workflow.Laws.AppliedCases.{applied_cases}
use omnigrex.Workflow.Reducer.Basics.{Reducer}
use omnigrex.Workflow.Model.Actions.{Decision}
use omnigrex.Workflow.Reducer.Step.{dispatch, is_applied, reduce}
use omnigrex.Workflow.Model.Events.{Event, EventMetadata, TerminalIntentRevalidatedEvent}
use omnigrex.Workflow.Reducer.Revalidating.{
  reduce_terminal_intent_revalidated, revalidate_current, other_source,
}
use omnigrex.Workflow.Laws.Lawful.{revised, revision_lem}
use omnigrex.Workflow.Model.Snapshots.{Snapshot, WorkflowAttempt}
use omnigrex.Workflow.Definition.Stages.{Definition}

-- The Attempt that a revalidated intent is for.
abbrev pub IntentAdmitted : Reducer → Snapshot → TerminalIntentRevalidatedEvent → Type 0
IntentAdmitted r s e =
    (a : WorkflowAttempt) × (s.current_attempt ≡ some a)
    × (a.id ≡ e.attempt_id)
    × (a.current_stage ≡ e.source_turn.stage)
    × (s.active_turn ≡ none)
    × (is_working s.state ≡ true)
    × (e.metadata.expected_revision ≡ s.revision)

revalidate_current-admits :
    (r : Reducer) (s : Snapshot) (e : TerminalIntentRevalidatedEvent)
    → e.metadata.expected_revision ≡ s.revision
    → Holds (λ d. is_applied d.disposition ≡ true → IntentAdmitted r s e) (revalidate_current r s e)
unfolding revalidate_current
revalidate_current-admits r s e m = elim (Option-cases s.current_attempt) [
  | inl q ↦ rw (q, revalidate_current) (ground arith)
  | inr (a, q) ↦
      if-Holds (λ d. is_applied d.disposition ≡ true → IntentAdmitted r s e)
        (other_source s.current_attempt e || is_some s.active_turn || not (is_working s.state)) _ _
        (λ _ k. ground arith)
        (λ fits. all-Holds _ _ (
          a,
          q,
          ground (arith, text_eq_iff a.id e.attempt_id),
          ground (arith, text_eq_iff a.current_stage e.source_turn.stage),
          ground arith,
          ground arith,
          m,
        ))
]
  where
    all-Holds :
        {P : Type 0} (B : Decision → Type 0) (run : Run Decision) → P → Holds (λ d. B d → P) run
    all-Holds B (Run.done d) p = λ _. p
    all-Holds B Run.panic p = tt

reduce_terminal_intent_revalidated-admits :
    (r : Reducer) (s : Snapshot) (e : TerminalIntentRevalidatedEvent)
    → Holds
        (λ d. is_applied d.disposition ≡ true → IntentAdmitted r s e)
        (reduce_terminal_intent_revalidated r s e)
unfolding reduce_terminal_intent_revalidated
reduce_terminal_intent_revalidated-admits r s e =
    revised (Holds (λ d. is_applied d.disposition ≡ true → IntentAdmitted r s e)) s e.metadata
      (revalidate_current r s e) (λ d h k. absurd (not_applied d k (stale_lem s e.metadata h)))
      (λ h. revalidate_current-admits r s e (revision_lem s e.metadata h))
  where
    not_applied :
        (d : Decision) → is_applied d.disposition ≡ true → is_applied d.disposition ≡ false → ⊥
    not_applied d p q = ground arith

valid_revalidated_lem :
    (d : Definition) (e : TerminalIntentRevalidatedEvent) (m : EventMetadata)
    → valid_event d (Event.terminal_intent_revalidated e) m ≡ true
    → text_eq e.source_turn.attempt_id e.attempt_id ≡ false
unfolding valid_event valid_content valid_revalidated
valid_revalidated_lem d e m h = ground arith

-- A revalidated terminal intent that is applied is one of another Attempt's Turn, and is applied
-- to the current Attempt that the Event names, in the Stage of that Turn, in PLANNING, DEVELOPING
-- or REVIEWING, with no active Turn, at the Revision at which it was observed.
pub terminal_intent_revalidated-admitted :
    (r : Reducer) (s : Snapshot) (e : TerminalIntentRevalidatedEvent) {d : Decision}
    → reduce r s (Event.terminal_intent_revalidated e) ≡ done d
    → is_applied d.disposition ≡ true
    → (text_eq e.source_turn.attempt_id e.attempt_id ≡ false) × IntentAdmitted r s e
unfolding dispatch
terminal_intent_revalidated-admitted r s e q a =
    applied_cases
      (λ _ _. (text_eq e.source_turn.attempt_id e.attempt_id ≡ false) × IntentAdmitted r s e) r s
      (Event.terminal_intent_revalidated e) q a
      (λ m kind d' p eq a'. (
        valid_revalidated_lem r.definition e m p.admitted,
        Holds-done (λ d. is_applied d.disposition ≡ true → IntentAdmitted r s e)
            (reduce_terminal_intent_revalidated r s e) eq
            (reduce_terminal_intent_revalidated-admits r s e) a',
      ))

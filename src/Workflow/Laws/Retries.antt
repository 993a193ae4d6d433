-- ===== src/Workflow/Laws/Retries.antt =====
-- The retries after infrastructure failures are bounded.
use omnigrex.Prelude.{
  ◌≡◌, refl, ◌<◌, true, false, some, none, Option-cases, inl, inr, ◌⊎◌, Holds, Holds-done, done,
  arith, inc_8, ltb, if-Holds,
}
use omnigrex.Workflow.Laws.Fencing.{stale_lem}
use omnigrex.Workflow.Model.Actions.{Decision}
use omnigrex.Workflow.Validation.SnapshotCheck.{
  is_blank, valid_attempt, valid_present, valid_snapshot,
}
use omnigrex.Workflow.Model.Snapshots.{Snapshot, WorkflowAttempt}
use omnigrex.Workflow.Model.Vocabulary.{State, TurnOutcome}
use omnigrex.Workflow.Model.Events.{TurnSettledEvent, Event}
use omnigrex.Workflow.Reducer.Basics.{Reducer, expected_revision_decision}
use omnigrex.Workflow.Reducer.Settling.{
  reduce_infrastructure_failure, settled_snapshot, needs_transition,
  reduce_terminal_corroboration_handoff, reduce_turn_settled, settle_current, settle_outcome,
  settle_turn,
}
use omnigrex.Workflow.Reducer.Step.{is_applied, dispatch, reduce}
use omnigrex.Workflow.Reducer.Developing.{with_used}
use omnigrex.Workflow.Laws.AppliedCases.{applied_cases}
use omnigrex.Workflow.Laws.Lawful.{revised}

-- A human takes over, or the Attempt goes on with one retry more than before.
abbrev pub Retried : Reducer → Snapshot → Snapshot → Type 0
Retried r s next =
    (next.state ≡ State.needs_human)
    ⊎ ((a : WorkflowAttempt) × (s.current_attempt ≡ some a)
        × (a.infrastructure_retry_budget.used < r.retry_limit)
        × (next.current_attempt ≡ some (with_used (inc_8 a.infrastructure_retry_budget.used) a))
        × (next.state ≡ s.state))

-- The limit of a valid Snapshot's Attempt is the Reducer's.
abbrev Limited : Reducer → Snapshot → Type 0
Limited r s =
    (a : WorkflowAttempt)
    → s.current_attempt ≡ some a
    → a.infrastructure_retry_budget.limit ≡ r.retry_limit

valid_snapshot-Limited :
    (r : Reducer) (s : Snapshot) → valid_snapshot r.definition r.retry_limit s ≡ true → Limited r s
unfolding valid_snapshot valid_present valid_attempt is_blank
valid_snapshot-Limited r s v a q = ground arith

module _ (r : Reducer) (s : Snapshot) (e : TurnSettledEvent) (limited : Limited r s)
    (failed : e.outcome ≡ TurnOutcome.infrastructure_failed) where
  abbrev Bounded : Decision → Type 0
  Bounded d = is_applied d.disposition ≡ true → Retried r s d.snapshot

  reduce_infrastructure_failure-Bounded :
      Holds Bounded (reduce_infrastructure_failure (settled_snapshot s e) e)
  unfolding reduce_infrastructure_failure settled_snapshot
  reduce_infrastructure_failure-Bounded = elim (Option-cases s.current_attempt) [
    | inl q ↦ rw (q, reduce_infrastructure_failure, settled_snapshot) tt
    | inr (a, q) ↦
        rw (q, reduce_infrastructure_failure, settled_snapshot)
          (if-Holds
            (λ (d : Decision).
              is_applied d.disposition ≡ true
              → Retried r (record s { current_attempt = some a }) d.snapshot)
            (ltb a.infrastructure_retry_budget.used a.infrastructure_retry_budget.limit) _ _
            (λ below _. inr (a, refl, ground (arith, limited a q), refl, refl)) (λ _ _. inl refl))
  ]

  settle_turn-Bounded : Holds Bounded (settle_turn r s e)
  unfolding settle_turn settle_outcome needs_transition reduce_terminal_corroboration_handoff
  settle_turn-Bounded =
      rw (failed, settle_turn, settle_outcome)
        (ground (arith, reduce_infrastructure_failure-Bounded))

  settle_current-Bounded : Holds Bounded (settle_current r s e)
  unfolding settle_current
  settle_current-Bounded = ground (arith, settle_turn-Bounded)

  settle_known-Bounded : Holds Bounded (elim (expected_revision_decision s e.metadata) [
    | some stale ↦ done stale
    | none ↦ settle_current r s e
  ])
  settle_known-Bounded =
      revised (Holds Bounded) s e.metadata (settle_current r s e)
        (λ d h a. absurd (not_applied d a (stale_lem s e.metadata h))) (λ _. settle_current-Bounded)
    where
      not_applied :
          (d : Decision) → is_applied d.disposition ≡ true → is_applied d.disposition ≡ false → ⊥
      not_applied d p q = ground arith

  reduce_turn_settled-Bounded : Holds Bounded (reduce_turn_settled r s e)
  unfolding reduce_turn_settled
  reduce_turn_settled-Bounded = elim (Option-cases e.existing_review) [
    | inl q ↦ rw (q, reduce_turn_settled) settle_known-Bounded
    | inr (x, q) ↦ rw (q, reduce_turn_settled) (ground arith)
  ]

-- A Turn that failed for infrastructure is settled by a hand-off to a human or by one retry more
-- in the same state, and by a retry only while fewer retries than the Reducer's limit are used.
pub turn_settled-Retried :
    (r : Reducer) (s : Snapshot) (e : TurnSettledEvent) {d : Decision}
    → reduce r s (Event.turn_settled e) ≡ done d
    → is_applied d.disposition ≡ true
    → e.outcome ≡ TurnOutcome.infrastructure_failed
    → Retried r s d.snapshot
unfolding dispatch
turn_settled-Retried r s e q a failed =
    applied_cases (λ next _. Retried r s next) r s (Event.turn_settled e) q a
      (λ m kind d' p eq a'.
        Holds-done (λ d. is_applied d.disposition ≡ true → Retried r s d.snapshot)
          (reduce_turn_settled r s e) eq
          (reduce_turn_settled-Bounded r s e (valid_snapshot-Limited r s p.sound) failed) a')

-- ===== src/Workflow/Laws/Readiness.antt =====
-- Who marks a Change Proposal as ready: only an approving review of its own head.
use omnigrex.Prelude.{
  ℤ, ◌≡◌, refl, Bool, true, false, Option, none, some, Option-cases, inl, inr, done, Holds,
  option-Holds, deref-Holds, if-Holds, arith, ◌⊎◌, not, is_empty, Bool-cases, String, text_eq_iff,
  text_eq_self, int_eq, int_eq_iff,
}
use omnigrex.Workflow.Model.Vocabulary.{StageId, TurnOutcome, Disposition, Reason}
use omnigrex.Workflow.Model.Snapshots.{
  Snapshot, ChangeProposal, ReviewIdentity, WorkflowAttempt, TurnGuard,
}
use omnigrex.Workflow.Model.Events.{TurnSettledEvent}
use omnigrex.Workflow.Model.Actions.{Decision}
use omnigrex.Workflow.Definition.Stages.{
  StageDefinition, OutcomeTransition, stage_of, transition_of,
}
use omnigrex.Workflow.Reducer.Basics.{Reducer, stage_or_zero, unready, unchanged}
use omnigrex.Workflow.Reducer.Reviewing.{
  reduce_review_settled, accept_review, review_again, approve, exhaust_reviews, request_changes,
  redirect, consume_cycle, stale_head, review_unrelated, settle_review, compare_review,
}
use omnigrex.Workflow.Reducer.Developing.{transition_or_zero, with_used}

abbrev pub marked : Option ChangeProposal → Bool
marked none = false
marked (some p) = not (is_empty p.ready_for_sha)

-- The evidence for `next`: an approving review, by the authorized actor, of the head that the
-- Change Proposal has and that the Turn was given; `next` is that proposal, ready for that head.
pub record Approval (turn : TurnGuard) (outcome : TurnOutcome) (review : Option ReviewIdentity)
    (proposal : Option ChangeProposal) (actor : ℤ) (next : Option ChangeProposal) : Type 0 where
  pub verdict : ReviewIdentity
  pub given : ChangeProposal
  pub approved : outcome ≡ TurnOutcome.approved
  pub reported : review ≡ some verdict
  pub observed : proposal ≡ some given
  pub authorized : verdict.actor_id ≡ actor
  pub current : verdict.head_sha ≡ given.head_sha
  pub expected : verdict.head_sha ≡ turn.expected_head_sha
  pub ready : next ≡ some (record given { ready_for_sha = verdict.head_sha })

module _ (r : Reducer) (s next : Snapshot) (e : TurnSettledEvent) (g : ChangeProposal)
    (v : ReviewIdentity) (u : next.change_proposal ≡ some (unready g)) where
  redirect-unready :
      (t : OutcomeTransition) (stage target : StageDefinition) (id : StageId) (a : WorkflowAttempt)
      → marked (redirect t stage id target a next e (unready g) v).snapshot.change_proposal ≡ false
  unfolding redirect exhaust_reviews request_changes
  redirect-unready t stage target id a = ground (arith, text_eq_self "")

  accept_review-ready :
      (id : StageId) (a : WorkflowAttempt)
      → let d = accept_review r s id a e (unready g) v next in
        marked d.snapshot.change_proposal ≡ true
        → (marked s.change_proposal ≡ true)
          ⊎ ((e.outcome ≡ TurnOutcome.approved)
              × (d.snapshot.change_proposal ≡ some (record g { ready_for_sha = v.head_sha })))
  unfolding accept_review approve
  accept_review-ready id a =
      let t = transition_or_zero (transition_of r.definition id e.outcome) in
      let stage = stage_or_zero (stage_of r.definition id) in
      elim (Option-cases (stage_of r.definition t.next_stage)) [
        | inl q ↦ rw (q, accept_review, approve) (ground arith)
        | inr (target, q) ↦
            rw (q, accept_review, approve)
              (ground (arith, redirect-unready t stage target id (consume_cycle t id a)))
      ]

-- Marked before, or now on evidence.
abbrev pub ReadyBy : Snapshot → TurnSettledEvent → Decision → Type 0
ReadyBy s e d =
    marked d.snapshot.change_proposal ≡ true
    → (marked s.change_proposal ≡ true)
      ⊎ Approval e.turn e.outcome e.review e.change_proposal e.authorized_reviewer_actor_id
          d.snapshot.change_proposal

stale_head_lem :
    (c g : ChangeProposal) (v : ReviewIdentity) (turn : TurnGuard) (pending : String)
    → stale_head c g v turn pending ≡ false
    → (v.head_sha ≡ turn.expected_head_sha) × (v.head_sha ≡ g.head_sha)
unfolding stale_head
stale_head_lem c g v turn pending h =
    ground (arith, text_eq_iff v.head_sha turn.expected_head_sha, text_eq_iff v.head_sha g.head_sha)

review_again-unready :
    (stage : StageDefinition) (next : Snapshot) (e : TurnSettledEvent) (g : ChangeProposal)
    (v : ReviewIdentity)
    → next.change_proposal ≡ some (unready g)
    → marked (review_again stage next e (unready g) v).snapshot.change_proposal ≡ false
unfolding review_again
review_again-unready stage next e g v h = ground (arith, text_eq_self "")

module _ (r : Reducer) (s next : Snapshot) (e : TurnSettledEvent) (current : ChangeProposal)
    (v : ReviewIdentity) (g : ChangeProposal) (review : e.review ≡ some v)
    (given : e.change_proposal ≡ some g) where
  abbrev moved : WorkflowAttempt → Snapshot
  moved attempt = record next {
    change_proposal = some (unready g);
    current_attempt = some (with_used 0 attempt);
  }

  settle_review-ready :
      (attempt : WorkflowAttempt) (source : StageId)
      → v.actor_id ≡ e.authorized_reviewer_actor_id
      → ReadyBy s e (settle_review r s next e current v g attempt source)
  unfolding settle_review
  settle_review-ready attempt source actor =
      let pending = e.pending_events.latest_observed_head_sha in
      elim (Bool-cases (stale_head current (unready g) v e.turn pending)) [
        | inl old ↦
            rw (old, settle_review)
              (λ m. cc (
                m,
                review_again-unready (stage_or_zero (stage_of r.definition source)) (moved attempt)
                    e g v refl,
              ))
        | inr fresh ↦
            rw (fresh, settle_review)
              (λ m.
                elim (accept_review-ready r s (moved attempt) e g v refl source
                  (with_used 0 attempt) m) [
                    | inl k ↦ inl k
                    | inr (a, q) ↦ inr (record {
                      verdict = v;
                      given = g;
                      approved = a;
                      reported = review;
                      observed = given;
                      authorized = actor;
                      current = (stale_head_lem current (unready g) v e.turn pending fresh).1;
                      expected = (stale_head_lem current (unready g) v e.turn pending fresh).0;
                      ready = q;
                    })
                  ])
      ]

  compare_review-ready : Holds (ReadyBy s e) (compare_review r s next e current v g)
  unfolding compare_review
  compare_review-ready =
      if-Holds (ReadyBy s e) (review_unrelated current g v e.turn)
        (done (unchanged s Disposition.unrelated Reason.change_proposal_unrelated)) _ (λ _ m. inl m)
        (λ _.
          if-Holds (ReadyBy s e) (not (int_eq v.actor_id e.authorized_reviewer_actor_id))
            (done (unchanged s Disposition.unrelated Reason.reviewer_actor_unrelated)) _
            (λ _ m. inl m)
            (λ same. deref-Holds (ReadyBy s e) next.current_attempt _ (λ attempt _.
              deref-Holds (ReadyBy s e) s.current_attempt _ (λ source _.
                settle_review-ready attempt source.current_stage
                  (ground (arith, int_eq_iff v.actor_id e.authorized_reviewer_actor_id))))))

pub reduce_review_settled-ready :
    (r : Reducer) (s next : Snapshot) (e : TurnSettledEvent)
    → Holds (ReadyBy s e) (reduce_review_settled r s next e)
unfolding reduce_review_settled
reduce_review_settled-ready r s next e =
    option-Holds (ReadyBy s e) s.change_proposal _ _ (λ m. inl m)
      (λ current _. deref-Holds (ReadyBy s e) e.review _ (λ v review.
        deref-Holds (ReadyBy s e) e.change_proposal _
          (λ g given. compare_review-ready r s next e current v g review given)))

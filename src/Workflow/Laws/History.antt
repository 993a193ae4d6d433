-- ===== src/Workflow/Laws/History.antt =====
-- The Snapshots that Reduce reaches from the Snapshot of a Work Item that has no Workflow.
use omnigrex.Prelude.{
  Option, Option-cases, inl, inr, ℕ, suc, ◌≡◌, refl, true, false, none, some, done, ◌%◌, ◌^◌, arith,
  ◌⊎◌, ap, text_eq, is_some, text_eq_iff, int_eq, is_zero_time, Option-cases,
}
use omnigrex.Workflow.Validation.Parts.{valid_state, is_working}
use omnigrex.Workflow.Laws.Contract.{reduce-counted, reduce-kept, reduce-valid}
use omnigrex.Workflow.Model.Events.{Event}
use omnigrex.Workflow.Model.Snapshots.{
  Snapshot, absent_snapshot, work_item_eq, ChangeProposal, ActiveTurn, WorkflowAttempt,
}
use omnigrex.Workflow.Reducer.Step.{is_applied, reduce}
use omnigrex.Workflow.Validation.SnapshotCheck.{
  attempt_shape, is_blank, valid_snapshot, valid_attempt, valid_attempt_shape, valid_marks,
  valid_present, valid_state_shape, valid_optional_active_turn, valid_active_stage_state,
  valid_present_attempt,
}
use omnigrex.Workflow.Model.Vocabulary.{
  is_unset_runtime, is_unset_status, state_eq, State, state_eq_iff,
}
use omnigrex.Workflow.Definition.Stages.{Definition}
use omnigrex.Workflow.Reducer.Basics.{Reducer}
use omnigrex.Workflow.Model.Actions.{Decision}
use omnigrex.Workflow.Laws.Readiness.{marked}

-- The Snapshots after `n` applied Decisions of Reduce, whatever other Events came between them. Between
-- two Events the store can make a Turn active, where the Snapshot stays valid with it, can release the
-- active Turn, and takes back the wait for a clarification when it prepares a Turn. The Decisions of
-- DefinitionIncompatible are not among the steps: some of them leave a Snapshot that is not valid.
pub data History (r : Reducer) : Snapshot → ℕ → Type 0 where
  start : History r absent_snapshot 0
  applied :
      {s : Snapshot} {n : ℕ}
      → History r s n
      → (e : Event) {d : Decision} → reduce r s e ≡ done d
      → is_applied d.disposition ≡ true
      → History r d.snapshot (suc n)
  refused :
      {s : Snapshot} {n : ℕ}
      → History r s n
      → (e : Event) {d : Decision} → reduce r s e ≡ done d
      → is_applied d.disposition ≡ false
      → History r d.snapshot n
  claimed :
      {s : Snapshot} {n : ℕ}
      → History r s n
      → (turn : ActiveTurn)
      → valid_snapshot r.definition r.retry_limit (record s { active_turn = some turn }) ≡ true
      → History r (record s { active_turn = some turn }) n
  released : {s : Snapshot} {n : ℕ} → History r s n → History r (record s { active_turn = none }) n
  resumed :
      {s : Snapshot} {n : ℕ}
      → History r s n
      → History r (record s { clarification_waiting = false }) n

-- Without the active Turn.
released_shape :
    (d : Definition) (s : Snapshot) (a : WorkflowAttempt) (state : State)
    → valid_attempt_shape state d s a ≡ true
    → valid_attempt_shape state d (record s { active_turn = none }) a ≡ true
unfolding valid_attempt_shape valid_optional_active_turn valid_active_stage_state
released_shape d s a State.planning h = ground arith
released_shape d s a State.developing h = ground arith
released_shape d s a State.reviewing h = ground arith
released_shape d s a State.plan_ready h = ground arith
released_shape d s a State.pr_ready h = ground arith
released_shape d s a State.needs_human h = ground arith
released_shape d s a _ h = h

released_attempt :
    (d : Definition) (s : Snapshot) (o : Option WorkflowAttempt)
    → attempt_shape o d s ≡ true
    → attempt_shape o d (record s { active_turn = none }) ≡ true
released_attempt d s none h = h
released_attempt d s (some a) h = released_shape d s a s.state h

released_state_shape :
    (d : Definition) (s : Snapshot) (state : State)
    → valid_state_shape state d s ≡ true
    → valid_state_shape state d (record s { active_turn = none }) ≡ true
unfolding valid_state_shape
released_state_shape d s State.dormant h = ground arith
released_state_shape d s State.closed h = ground arith
released_state_shape d s State.closing h = ground arith
released_state_shape d s _ h = released_attempt d s s.current_attempt h

released-valid :
    (d : Definition) (n : ℕ) (s : Snapshot)
    → valid_snapshot d n s ≡ true
    → valid_snapshot d n (record s { active_turn = none }) ≡ true
unfolding valid_snapshot valid_present is_blank valid_marks valid_attempt valid_present_attempt
released-valid d n s h = ground (arith, released_state_shape d s s.state)

-- Without the wait for a clarification.
resumed_shape :
    (d : Definition) (s : Snapshot) (a : WorkflowAttempt) (state : State)
    → valid_attempt_shape state d s a ≡ true
    → valid_attempt_shape state d (record s { clarification_waiting = false }) a ≡ true
unfolding valid_attempt_shape valid_optional_active_turn valid_active_stage_state
resumed_shape d s a State.planning h = ground arith
resumed_shape d s a State.developing h = ground arith
resumed_shape d s a State.reviewing h = ground arith
resumed_shape d s a State.plan_ready h = ground arith
resumed_shape d s a State.pr_ready h = ground arith
resumed_shape d s a State.needs_human h = ground arith
resumed_shape d s a _ h = h

resumed_attempt :
    (d : Definition) (s : Snapshot) (o : Option WorkflowAttempt)
    → attempt_shape o d s ≡ true
    → attempt_shape o d (record s { clarification_waiting = false }) ≡ true
resumed_attempt d s none h = h
resumed_attempt d s (some a) h = resumed_shape d s a s.state h

resumed_state_shape :
    (d : Definition) (s : Snapshot) (state : State)
    → valid_state_shape state d s ≡ true
    → valid_state_shape state d (record s { clarification_waiting = false }) ≡ true
unfolding valid_state_shape
resumed_state_shape d s State.dormant h = ground arith
resumed_state_shape d s State.closed h = ground arith
resumed_state_shape d s State.closing h = ground arith
resumed_state_shape d s _ h = resumed_attempt d s s.current_attempt h

resumed-valid :
    (d : Definition) (n : ℕ) (s : Snapshot)
    → valid_snapshot d n s ≡ true
    → valid_snapshot d n (record s { clarification_waiting = false }) ≡ true
unfolding valid_snapshot valid_present is_blank valid_marks valid_attempt valid_present_attempt
resumed-valid d n s h = ground (arith, resumed_state_shape d s s.state)

absent_snapshot-valid :
    (d : Definition) (retry_limit : ℕ) → valid_snapshot d retry_limit absent_snapshot ≡ true
unfolding valid_snapshot valid_state state_eq is_blank work_item_eq int_eq is_unset_status
    is_unset_runtime is_zero_time text_eq
absent_snapshot-valid d retry_limit = refl

module _ (r : Reducer) where
  -- Every Snapshot that Reduce reaches is valid.
  pub History-valid :
      (s : Snapshot) (n : ℕ) → History r s n → valid_snapshot r.definition r.retry_limit s ≡ true
  History-valid _ _ start = absent_snapshot-valid r.definition r.retry_limit
  History-valid _ _ (applied {s} {n} h e q a) = reduce-valid r s e q (History-valid s n h)
  History-valid _ _ (refused {s} {n} h e q a) = reduce-valid r s e q (History-valid s n h)
  History-valid _ _ (claimed h turn v) = v
  History-valid _ _ (released {s} {n} h) =
      released-valid r.definition r.retry_limit s (History-valid s n h)
  History-valid _ _ (resumed {s} {n} h) =
      resumed-valid r.definition r.retry_limit s (History-valid s n h)

  -- The Revision counts the applied Decisions, as a uint64.
  pub History-revision : (s : Snapshot) (n : ℕ) → History r s n → s.revision ≡ n % 2 ^ 64
  History-revision _ _ start = refl
  History-revision _ _ (applied {s} {n} h e q a) =
      omega (arith, (reduce-counted r s e q a).0, History-revision s n h)
  History-revision _ _ (refused {s} {n} h e q a) =
      cc (ap (λ (t : Snapshot). t.revision) (reduce-kept r s e q a), History-revision s n h)
  History-revision _ _ (claimed {s} {n} h turn v) = History-revision s n h
  History-revision _ _ (released {s} {n} h) = History-revision s n h
  History-revision _ _ (resumed {s} {n} h) = History-revision s n h

-- A Snapshot of a Workflow that has begun satisfies the parts of validSnapshot.
present_lem :
    (d : Definition) (n : ℕ) (s : Snapshot)
    → valid_snapshot d n s ≡ true
    → ((state_eq s.state State.absent ≡ true) × (is_blank s ≡ true))
      ⊎ ((valid_state_shape s.state d s ≡ true)
          × (valid_marks d s ≡ true)
          × (valid_attempt d n s ≡ true))
unfolding valid_snapshot valid_present
present_lem d n s v = ground arith

unmarked_lem : (s : Snapshot) → is_blank s ≡ true → marked s.change_proposal ≡ true → ⊥
unfolding is_blank
unmarked_lem s blank m = ground arith

idle_lem : (s : Snapshot) → is_blank s ≡ true → is_some s.active_turn ≡ true → ⊥
unfolding is_blank
idle_lem s blank b = ground arith

-- Where Agent Turns may be active.
busy_lem :
    (d : Definition) (s : Snapshot) (state : State)
    → s.state ≡ state
    → valid_state_shape state d s ≡ true
    → is_some s.active_turn ≡ true
    → (is_working s.state ≡ true) ⊎ (s.state ≡ State.closing)
unfolding valid_state_shape valid_attempt_shape is_working
busy_lem d s State.dormant q v b = ground arith
busy_lem d s State.closed q v b = ground arith
busy_lem d s State.closing q v b = inr q
busy_lem d s State.planning q v b = inl (rw (q, is_working) refl)
busy_lem d s State.developing q v b = inl (rw (q, is_working) refl)
busy_lem d s State.reviewing q v b = inl (rw (q, is_working) refl)
busy_lem d s State.pr_ready q v b = ground arith
busy_lem d s State.plan_ready q v b = ground arith
busy_lem d s State.needs_human q v b = ground arith
busy_lem d s State.absent q v b = ground arith
busy_lem d s State.unset q v b = ground arith

ready_lem :
    (d : Definition) (s : Snapshot)
    → valid_state_shape s.state d s ≡ true
    → valid_marks d s ≡ true
    → marked s.change_proposal ≡ true
    → (p : ChangeProposal) × (s.change_proposal ≡ some p)
      × (s.state ≡ State.pr_ready)
      × (p.ready_for_sha ≡ p.head_sha)
      × (s.active_turn ≡ none)
unfolding valid_state_shape valid_attempt_shape valid_marks
ready_lem d s v m k = elim (Option-cases s.change_proposal) [
  | inl q ↦ ground arith
  | inr (p, q) ↦ (
    p,
    q,
    ground (arith, state_eq_iff s.state State.pr_ready),
    ground (arith, state_eq_iff s.state State.pr_ready, text_eq_iff p.ready_for_sha p.head_sha),
    ground (arith, state_eq_iff s.state State.pr_ready),
  )
]

module _ (r : Reducer) where
  -- In a Snapshot that Reduce reaches, a Change Proposal that is marked ready is so in PR_READY
  -- only, for its own head, and with no active Turn.
  pub History-ready :
      (s : Snapshot) (n : ℕ)
      → History r s n
      → marked s.change_proposal ≡ true
      → (p : ChangeProposal) × (s.change_proposal ≡ some p)
        × (s.state ≡ State.pr_ready)
        × (p.ready_for_sha ≡ p.head_sha)
        × (s.active_turn ≡ none)
  History-ready s n h m = elim (present_lem r.definition r.retry_limit s (History-valid r s n h)) [
    | inl (q, blank) ↦ absurd (unmarked_lem s blank m)
    | inr (shape, marks, a) ↦ ready_lem r.definition s shape marks m
  ]

  -- In a Snapshot that Reduce reaches, a Turn is active in PLANNING, DEVELOPING, REVIEWING and
  -- CLOSING only.
  pub History-busy :
      (s : Snapshot) (n : ℕ)
      → History r s n
      → is_some s.active_turn ≡ true
      → (is_working s.state ≡ true) ⊎ (s.state ≡ State.closing)
  History-busy s n h b = elim (present_lem r.definition r.retry_limit s (History-valid r s n h)) [
    | inl (q, blank) ↦ absurd (idle_lem s blank b)
    | inr (shape, marks, a) ↦ busy_lem r.definition s s.state refl shape b
  ]

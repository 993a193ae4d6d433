-- ===== src/Workflow/Laws/Retention.antt =====
-- The settlement of a closure, and the collection of retained Assignments.
use omnigrex.Prelude.{
  Option, refl, ◌⊎◌, Holds-done, subst, ◌≡◌, true, false, none, some, arith, done, Option-cases,
  inl, inr, text_eq_iff, int_eq_iff, int_lt, zero_time, sym,
}
use omnigrex.Workflow.Model.Vocabulary.{State, is_collected, is_retained, state_eq_iff}
use omnigrex.Workflow.Reducer.Step.{dispatch, is_applied, reduce}
use omnigrex.Workflow.Model.Snapshots.{TurnGuard, ActiveTurn, Closure, Snapshot}
use omnigrex.Workflow.Model.Events.{AssignmentsCollectedEvent, ClosureSettledEvent, Event}
use omnigrex.Workflow.Validation.Parts.{is_working, legal_in_state}
use omnigrex.Workflow.Reducer.Closing.{
  closure_turn_stale, reduce_assignments_collected, reduce_closure_settled, settle_closure,
  settled_assignments, settled_runtime,
}
use omnigrex.Workflow.Reducer.Basics.{Reducer, expected_revision_decision}
use omnigrex.Workflow.Laws.AppliedCases.{applied_cases}
use omnigrex.Workflow.Laws.Fencing.{IsSameTurn, turn_matches-IsSameTurn}
use omnigrex.Workflow.Model.Actions.{Decision}

-- The settled Turn is the active one, or there is neither.
abbrev pub SameTurns : Option ActiveTurn → Option TurnGuard → Type 0
SameTurns active settled =
    ((active ≡ none) × (settled ≡ none))
    ⊎ ((turn : ActiveTurn) × (guard : TurnGuard) × (active ≡ some turn)
        × (settled ≡ some guard)
        × IsSameTurn turn guard)

closure_turn_stale-SameTurns :
    (active : Option ActiveTurn) (settled : Option TurnGuard)
    → closure_turn_stale active settled ≡ false
    → SameTurns active settled
unfolding closure_turn_stale
closure_turn_stale-SameTurns none none h = inl (refl, refl)
closure_turn_stale-SameTurns none (some guard) h = absurd (ground arith)
closure_turn_stale-SameTurns (some turn) none h = absurd (ground arith)
closure_turn_stale-SameTurns (some turn) (some guard) h =
    inr (turn, guard, refl, refl, turn_matches-IsSameTurn turn guard (ground arith))

-- What is left when the closure `c` is settled.
pub record Settled (s : Snapshot) (e : ClosureSettledEvent) (c : Closure) (next : Snapshot)
    : Type 0 where
  pub closing : s.closure ≡ some c
  pub same : c.id ≡ e.closure_id
  pub current : SameTurns s.active_turn e.turn
  pub attempt : next.current_attempt ≡ none
  pub turn : next.active_turn ≡ none
  pub closure : next.closure ≡ none
  pub cancelled :
      c.reopen_requested ≡ true
      → (next.state ≡ State.dormant)
        × (next.assignments.retention_token ≡ "")
        × (next.assignments.retained_until ≡ zero_time)
  pub closed : c.reopen_requested ≡ false → next.state ≡ State.closed
  pub retained :
      is_retained next.assignments.runtime_state ≡ true
      → c.reopen_requested ≡ false
      → (next.assignments.retention_token ≡ c.retention_token)
        × (next.assignments.retained_until ≡ c.retain_until)
        × (e.assignments_exist ≡ true)

settle_closure-Settled :
    (s : Snapshot) (e : ClosureSettledEvent) (c : Closure)
    → s.closure ≡ some c
    → c.id ≡ e.closure_id
    → SameTurns s.active_turn e.turn
    → Settled s e c (settle_closure s e c).snapshot
unfolding settle_closure settled_assignments settled_runtime is_collected is_retained
settle_closure-Settled s e c closing same current = record {
  closing = closing;
  same = same;
  current = current;
  attempt = ground arith;
  turn = ground arith;
  closure = ground arith;
  cancelled = ground arith;
  closed = ground arith;
  retained = ground arith;
}

-- From the test of the state on.
settled_cases :
    (s : Snapshot) (e : ClosureSettledEvent) (d : Decision)
    → reduce_closure_settled s e ≡ d
    → is_applied d.disposition ≡ true
    → (c : Closure) × (s.closure ≡ some c)
      × (c.id ≡ e.closure_id)
      × (closure_turn_stale s.active_turn e.turn ≡ false)
      × (d ≡ settle_closure s e c)
unfolding reduce_closure_settled expected_revision_decision
settled_cases s e d q a = elim (Option-cases s.closure) [
  | inl n ↦ ground arith
  | inr (c, k) ↦ (c, k, ground (arith, text_eq_iff c.id e.closure_id), ground arith, ground arith)
]

reduce_closure_settled-Settled :
    (s : Snapshot) (e : ClosureSettledEvent) (d : Decision)
    → reduce_closure_settled s e ≡ d
    → is_applied d.disposition ≡ true
    → (c : Closure) × Settled s e c d.snapshot
reduce_closure_settled-Settled s e d q a =
    let k = settled_cases s e d q a in
    (
      k.0,
      subst (λ (x : Decision). Settled s e k.0 x.snapshot) (sym k.4)
          (settle_closure-Settled s e k.0 k.1 k.2
            (closure_turn_stale-SameTurns s.active_turn e.turn k.3)),
    )

-- A closure whose settlement is applied is the one that the Snapshot has, and its Turn is the
-- Snapshot's in every field of the guard, or neither has one. No Attempt, Turn or closure is left. The
-- Work Item is DORMANT, with no retention under way, where it was reopened meanwhile, and else CLOSED;
-- retained Assignments then wait for the closure's token and instant.
pub closure_settled-Settled :
    (r : Reducer) (s : Snapshot) (e : ClosureSettledEvent) {d : Decision}
    → reduce r s (Event.closure_settled e) ≡ done d
    → is_applied d.disposition ≡ true
    → (c : Closure) × Settled s e c d.snapshot
unfolding dispatch
closure_settled-Settled r s e q a =
    applied_cases (λ next _. (c : Closure) × Settled s e c next) r s (Event.closure_settled e) q a
      (λ m kind d' p eq a'. reduce_closure_settled-Settled s e d' (ground arith) a')

reduce_assignments_collected-due :
    (s : Snapshot) (e : AssignmentsCollectedEvent)
    → is_applied (reduce_assignments_collected s e).disposition ≡ true
    → (s.state ≡ State.closed)
      × (e.retention_token ≡ s.assignments.retention_token)
      × (e.retain_until ≡ s.assignments.retained_until)
      × (int_lt e.collected_at e.retain_until ≡ false)
      × (is_collected (reduce_assignments_collected s e).snapshot.assignments.runtime_state ≡ true)
unfolding reduce_assignments_collected expected_revision_decision legal_in_state is_working
    is_collected
reduce_assignments_collected-due s e a = ground (
  arith,
  text_eq_iff e.retention_token s.assignments.retention_token,
  int_eq_iff e.retain_until s.assignments.retained_until,
  state_eq_iff s.state State.dormant,
)

-- Assignments are collected only in CLOSED, for the generation that is retained, and not before
-- its instant; and they are collected then.
pub assignments_collected-due :
    (r : Reducer) (s : Snapshot) (e : AssignmentsCollectedEvent) {d : Decision}
    → reduce r s (Event.assignments_collected e) ≡ done d
    → is_applied d.disposition ≡ true
    → (s.state ≡ State.closed)
      × (e.retention_token ≡ s.assignments.retention_token)
      × (e.retain_until ≡ s.assignments.retained_until)
      × (int_lt e.collected_at e.retain_until ≡ false)
      × (is_collected d.snapshot.assignments.runtime_state ≡ true)
unfolding dispatch
assignments_collected-due r s e q a =
    applied_cases
      (λ next _.
        (s.state ≡ State.closed)
        × (e.retention_token ≡ s.assignments.retention_token)
        × (e.retain_until ≡ s.assignments.retained_until)
        × (int_lt e.collected_at e.retain_until ≡ false)
        × (is_collected next.assignments.runtime_state ≡ true))
      r s (Event.assignments_collected e) q a
      (λ m kind d' p eq a'.
        Holds-done
          (λ d.
            is_applied d.disposition ≡ true
            → (s.state ≡ State.closed)
              × (e.retention_token ≡ s.assignments.retention_token)
              × (e.retain_until ≡ s.assignments.retained_until)
              × (int_lt e.collected_at e.retain_until ≡ false)
              × (is_collected d.snapshot.assignments.runtime_state ≡ true))
          (done (reduce_assignments_collected s e)) eq (reduce_assignments_collected-due s e) a')

-- ===== src/Workflow/Laws/Lawful.antt =====
-- The obligations of a handler's Decision, whatever the Event.
use omnigrex.Prelude.{
  ℕ, ◌+◌, ◌≤◌, ◌≡◌, Bool, true, false, List, [], ◌∷◌, ◌⊎◌, refl, ◌||◌, if◌then◌else◌, inc_64,
  is_empty, Run, done, Holds, Option, none, some, arith, text_eq_self, ◌++◌,
}
use omnigrex.Workflow.Model.Vocabulary.{State, Disposition, Reason}
use omnigrex.Workflow.Model.Snapshots.{Snapshot, TurnGuard}
use omnigrex.Workflow.Model.Events.{EventMetadata, PendingEventsObservation}
use omnigrex.Workflow.Model.Actions.{Action, Decision, EnqueueTurnAction}
use omnigrex.Workflow.Reducer.Basics.{
  expected_revision_decision, successor_actions, with_pending, unchanged,
}
use omnigrex.Workflow.Reducer.Step.{is_applied}

-- How many Agent Turns an action brings about.
abbrev pub work : Action → ℕ
work (Action.enqueue_turn t) = 1
work (Action.enqueue_terminal_revalidation source) = 1
work (Action.reconcile_pending_events p) = if is_empty p.fallback_stage then 0 else 1
work _ = 0

abbrev pub scheduled_work : List Action → ℕ
scheduled_work [] = 0
scheduled_work (a ∷ as') = work a + scheduled_work as'

-- The actions by which a human takes over.
abbrev pub is_handoff : Action → Bool
is_handoff (Action.mark_human_handoff reason diagnostic) = true
is_handoff (Action.preserve_human_handoff revision) = true
is_handoff _ = false

abbrev pub hands_off : List Action → Bool
hands_off [] = false
hands_off (a ∷ as') = is_handoff a || hands_off as'

pub record IsLawful (s : Snapshot) (m : EventMetadata) (d : Decision) : Type 0 where
  pub kept : is_applied d.disposition ≡ false → d.snapshot ≡ s
  pub counted : is_applied d.disposition ≡ true → d.snapshot.revision ≡ inc_64 s.revision
  pub fresh : is_applied d.disposition ≡ true → m.expected_revision ≡ s.revision
  pub single : scheduled_work d.actions ≤ 1
  pub handed :
      hands_off d.actions ≡ true
      → (d.snapshot.state ≡ State.needs_human) × (scheduled_work d.actions ≡ 0)
  pub numbered :
      (d.snapshot.last_attempt_number ≡ s.last_attempt_number)
      ⊎ (d.snapshot.last_attempt_number ≡ inc_64 s.last_attempt_number)

-- A Decision that changes nothing and asks for nothing.
pub unchanged-IsLawful :
    (s : Snapshot) (m : EventMetadata) (disposition : Disposition) (reason : Reason)
    → is_applied disposition ≡ false
    → IsLawful s m (unchanged s disposition reason)
unchanged-IsLawful s m disposition reason h = ground arith

pub revision_lem :
    (s : Snapshot) (m : EventMetadata)
    → expected_revision_decision s m ≡ none
    → m.expected_revision ≡ s.revision
unfolding expected_revision_decision
revision_lem s m h = ground arith

pub stale-IsLawful :
    (s : Snapshot) (m : EventMetadata) {d : Decision}
    → expected_revision_decision s m ≡ some d
    → IsLawful s m d
unfolding expected_revision_decision
stale-IsLawful s m h = ground arith

-- The revision is compared first: a stale Event is turned away, another goes on.
pub revised {ℓ} :
    (P : Run Decision → Type ℓ) (s : Snapshot) (m : EventMetadata) (rest : Run Decision)
    → ((d : Decision) → expected_revision_decision s m ≡ some d → P (done d))
    → (expected_revision_decision s m ≡ none → P rest)
    → P (elim (expected_revision_decision s m) [ some d ↦ done d | none ↦ rest ])
revised P s m rest turned on = go (expected_revision_decision s m) refl
  where
    go :
        (o : Option Decision)
        → expected_revision_decision s m ≡ o
        → P (elim o [ some d ↦ done d | none ↦ rest ])
    go (some d) e = turned d e
    go none e = on e

-- The same for a handler that reads no pointer.
pub revised_decision {ℓ} :
    (P : Decision → Type ℓ) (s : Snapshot) (m : EventMetadata) (rest : Decision)
    → ((d : Decision) → expected_revision_decision s m ≡ some d → P d)
    → (expected_revision_decision s m ≡ none → P rest)
    → P (elim (expected_revision_decision s m) [ some d ↦ d | none ↦ rest ])
revised_decision P s m rest turned on = go (expected_revision_decision s m) refl
  where
    go :
        (o : Option Decision)
        → expected_revision_decision s m ≡ o
        → P (elim o [ some d ↦ d | none ↦ rest ])
    go (some d) e = turned d e
    go none e = on e

-- The two forms at `IsLawful`.
pub revised-IsLawful :
    (s : Snapshot) (m : EventMetadata) (rest : Run Decision)
    → (m.expected_revision ≡ s.revision → Holds (IsLawful s m) rest)
    → Holds (IsLawful s m) (elim (expected_revision_decision s m) [ some d ↦ done d | none ↦ rest ])
revised-IsLawful s m rest on =
    revised (Holds (IsLawful s m)) s m rest (λ d h. stale-IsLawful s m h)
      (λ h. on (revision_lem s m h))

pub revised_decision-IsLawful :
    (s : Snapshot) (m : EventMetadata) (rest : Decision)
    → (m.expected_revision ≡ s.revision → IsLawful s m rest)
    → IsLawful s m (elim (expected_revision_decision s m) [ some d ↦ d | none ↦ rest ])
revised_decision-IsLawful s m rest on =
    revised_decision (IsLawful s m) s m rest (λ d h. stale-IsLawful s m h)
      (λ h. on (revision_lem s m h))

-- Lists of actions.
pub scheduled_work-append :
    (as' bs : List Action) → scheduled_work (as' ++ bs) ≡ scheduled_work as' + scheduled_work bs
scheduled_work-append [] bs = omega arith
scheduled_work-append (a ∷ as') bs = omega (arith, scheduled_work-append as' bs)

pub hands_off-append :
    (as' bs : List Action) → hands_off (as' ++ bs) ≡ (hands_off as' || hands_off bs)
hands_off-append [] bs = refl
hands_off-append (a ∷ as') bs = ground (arith, hands_off-append as' bs)

-- The successor of a Turn is one Turn at most, and no hand-off.
pub successor_actions_lem :
    (g : TurnGuard) (p : PendingEventsObservation) (intent : EnqueueTurnAction)
    → (scheduled_work (successor_actions g p intent) ≤ 1)
      × (hands_off (successor_actions g p intent) ≡ false)
unfolding successor_actions
successor_actions_lem g p intent = ground arith

-- Pending events before a hand-off or a readiness bring about no Turn.
pub with_pending_lem :
    (g : TurnGuard) (p : PendingEventsObservation) (as' : List Action)
    → (scheduled_work (with_pending g p as') ≡ scheduled_work as')
      × (hands_off (with_pending g p as') ≡ hands_off as')
unfolding with_pending
with_pending_lem g p as' = ground (arith, text_eq_self "")

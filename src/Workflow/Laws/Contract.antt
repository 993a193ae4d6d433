-- ===== src/Workflow/Laws/Contract.antt =====
-- What every Decision of Reduce promises, for every Snapshot and Event.
use omnigrex.Prelude.{
  ◌≡◌, refl, ◌≤◌, true, false, some, Option-cases, Bool-cases, inl, inr, Run, done, Holds,
  Holds-done, inc_64, ◌⊎◌, arith, [], ap, panic,
}
use omnigrex.Workflow.Laws.CheckTotality.{guarded}
use omnigrex.Workflow.Model.Vocabulary.{State, EventKind}
use omnigrex.Workflow.Model.Snapshots.{Snapshot}
use omnigrex.Workflow.Model.Events.{Event, EventMetadata}
use omnigrex.Workflow.Model.Actions.{Decision}
use omnigrex.Workflow.Validation.EventCheck.{event_details}
use omnigrex.Workflow.Validation.SnapshotCheck.{valid_snapshot}
use omnigrex.Workflow.Reducer.Basics.{Reducer}
use omnigrex.Workflow.Reducer.Step.{normalize, reduce, is_applied}
use omnigrex.Workflow.Laws.Lawful.{IsLawful, scheduled_work, hands_off}
use omnigrex.Workflow.Laws.ReduceLaws.{reduce_cases, reduce-IsLawful}

-- Every Decision satisfies a property that refusals have and that follows from lawfulness.
lawful_cases :
    (P : Snapshot → Decision → Type 0) (r : Reducer) (s : Snapshot) (e : Event)
    → ((d : Decision) (m : EventMetadata) (kind : EventKind)
        → event_details e ≡ some (m, kind)
        → IsLawful s m d
        → P s d)
    → ((d : Decision) → is_applied d.disposition ≡ false → d.snapshot ≡ s → d.actions ≡ [] → P s d)
    → Holds (P s) (reduce r s e)
lawful_cases P r s e lawful refused = elim (Option-cases (event_details e)) [
  | inl q ↦
      reduce_cases r s e (P s) (λ dis reason h. refused _ h refl refl)
        (λ m kind d p eq. cc (q, p.details))
  | inr ((m, kind), q) ↦
      weaken (reduce r s e) (λ d h. lawful d m kind q h) (reduce-IsLawful r s e m q)
]
  where
    weaken :
        {Q : Decision → Type 0} {m : EventMetadata} (run : Run Decision)
        → ((d : Decision) → IsLawful s m d → Q d)
        → Holds (IsLawful s m) run
        → Holds Q run
    weaken (done d) f h = f d h
    weaken panic f h = tt

guarded-valid :
    (r : Reducer) (s : Snapshot) (d : Decision)
    → valid_snapshot r.definition r.retry_limit s ≡ true
    → valid_snapshot r.definition r.retry_limit (guarded r s d).snapshot ≡ true
unfolding guarded
guarded-valid r s d v =
    elim (Bool-cases (valid_snapshot r.definition r.retry_limit (normalize s d).snapshot)) [
      | inl ok ↦ rw (ok, guarded) ok
      | inr bad ↦ rw (bad, guarded) v
    ]

module _ (r : Reducer) (s : Snapshot) (e : Event) {d : Decision} (q : reduce r s e ≡ done d) where
  -- A Decision that is not applied leaves the Snapshot as it was.
  pub reduce-kept : is_applied d.disposition ≡ false → d.snapshot ≡ s
  reduce-kept = Holds-done _ (reduce r s e) q (
      lawful_cases (λ s' d'. is_applied d'.disposition ≡ false → d'.snapshot ≡ s') r s e
        (λ d' m kind h l. l.kept) (λ d' h k a _. k))

  -- An applied Decision answers an Event that was observed at the Snapshot's revision, and counts
  -- the revision up by one, as a uint64.
  pub reduce-counted :
      is_applied d.disposition ≡ true
      → (d.snapshot.revision ≡ inc_64 s.revision)
        × ((m : EventMetadata) × (kind : EventKind) × (event_details e ≡ some (m, kind))
            × (m.expected_revision ≡ s.revision))
  reduce-counted = Holds-done _ (reduce r s e) q (
      lawful_cases
        (λ s' d'.
          is_applied d'.disposition ≡ true
          → (d'.snapshot.revision ≡ inc_64 s'.revision)
            × ((m : EventMetadata) × (kind : EventKind) × (event_details e ≡ some (m, kind))
                × (m.expected_revision ≡ s'.revision)))
        r s e (λ d' m kind h l a. (l.counted a, (m, kind, h, l.fresh a))) (λ d' h k a b. cc))

  -- A Decision schedules at most one Agent Turn, counting the fallback of a reconciliation, and none
  -- beside the revalidation of a terminal intent, of which there is at most one.
  pub reduce-single_turn : scheduled_work d.actions ≤ 1
  reduce-single_turn = Holds-done _ (reduce r s e) q (
      lawful_cases (λ s' d'. scheduled_work d'.actions ≤ 1) r s e (λ d' m kind h l. l.single)
        (λ d' h k a. rw a (omega arith)))

  -- A Decision that hands the work to a human leaves the Snapshot in NEEDS_HUMAN and schedules no
  -- Agent Turn and no revalidation.
  pub reduce-hands_off :
      hands_off d.actions ≡ true
      → (d.snapshot.state ≡ State.needs_human) × (scheduled_work d.actions ≡ 0)
  reduce-hands_off = Holds-done _ (reduce r s e) q (
      lawful_cases
        (λ s' d'.
          hands_off d'.actions ≡ true
          → (d'.snapshot.state ≡ State.needs_human) × (scheduled_work d'.actions ≡ 0))
        r s e (λ d' m kind h l. l.handed) (λ d' h k a b. cc))

  -- The number of the last Attempt stays, or counts up by one.
  pub reduce-numbered :
      (d.snapshot.last_attempt_number ≡ s.last_attempt_number)
      ⊎ (d.snapshot.last_attempt_number ≡ inc_64 s.last_attempt_number)
  reduce-numbered = Holds-done _ (reduce r s e) q (
      lawful_cases
        (λ s' d'.
          (d'.snapshot.last_attempt_number ≡ s'.last_attempt_number)
          ⊎ (d'.snapshot.last_attempt_number ≡ inc_64 s'.last_attempt_number))
        r s e (λ d' m kind h l. l.numbered) (λ d' h k a. inl (ap (λ s'. s'.last_attempt_number) k)))

  -- A valid Snapshot is followed by a valid Snapshot.
  pub reduce-valid :
      valid_snapshot r.definition r.retry_limit s ≡ true
      → valid_snapshot r.definition r.retry_limit d.snapshot ≡ true
  reduce-valid v = Holds-done _ (reduce r s e) q (
      reduce_cases r s e (λ d'. valid_snapshot r.definition r.retry_limit d'.snapshot ≡ true)
        (λ dis reason h. v) (λ m kind d' p eq. guarded-valid r s d' v))

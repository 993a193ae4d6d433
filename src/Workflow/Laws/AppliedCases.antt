-- ===== src/Workflow/Laws/AppliedCases.antt =====
-- An applied Decision of Reduce is the applied Decision of a handler.
use omnigrex.Prelude.{◌≡◌, true, List, Holds-done, done, arith}
use omnigrex.Workflow.Laws.CheckTotality.{guarded}
use omnigrex.Workflow.Reducer.Step.{dispatch, is_applied, normalize, reduce}
use omnigrex.Workflow.Model.Events.{Event, EventMetadata}
use omnigrex.Workflow.Laws.ReduceLaws.{Passed, reduce_cases}
use omnigrex.Workflow.Model.Vocabulary.{EventKind}
use omnigrex.Workflow.Model.Actions.{Action, Decision}
use omnigrex.Workflow.Reducer.Basics.{Reducer}
use omnigrex.Workflow.Model.Snapshots.{Snapshot}

guarded_lem :
    (Q : Snapshot → List Action → Type 0) (r : Reducer) (s : Snapshot) (d : Decision)
    → (is_applied d.disposition ≡ true → Q d.snapshot d.actions)
    → is_applied (guarded r s d).disposition ≡ true
    → Q (guarded r s d).snapshot (guarded r s d).actions
unfolding guarded normalize
guarded_lem Q r s d h a = ground (arith, h)

pub applied_cases :
    (Q : Snapshot → List Action → Type 0) (r : Reducer) (s : Snapshot) (e : Event) {d : Decision}
    → reduce r s e ≡ done d
    → is_applied d.disposition ≡ true
    → ((m : EventMetadata) (kind : EventKind) (d' : Decision)
        → Passed r s e m kind
        → dispatch r s e ≡ done d'
        → is_applied d'.disposition ≡ true
        → Q d'.snapshot d'.actions)
    → Q d.snapshot d.actions
applied_cases Q r s e q a h =
    Holds-done (λ d. is_applied d.disposition ≡ true → Q d.snapshot d.actions) (reduce r s e) q
      (reduce_cases r s e (λ d. is_applied d.disposition ≡ true → Q d.snapshot d.actions)
        (λ dis reason no yes. cc (no, yes))
        (λ m kind d p eq. guarded_lem Q r s d (h m kind d p eq)))
      a

-- ===== src/Collaboration/History.antt =====
-- The histories of a State of internal/collaboration: any sequence of its operations, from the empty
-- State. An operation that refuses is no step, except that Accept records its rejection.
use omnigrex.Prelude.{
  ℕ, String, Bool, true, List, none, some, ◌||◌, ◌⊎◌, inl, inr, Option-cases, ◌≡◌, sym, ◌↔◌, suc,
  length, all, any, is_empty, Gives-some, filter, ◌≤◌,
}
use omnigrex.Collaboration.Model.Records.{
  Source, Question, Round, Resolution, Assessment, Command, Admission,
}
use omnigrex.Collaboration.Model.Planned.{
  OriginalRequest, PlanningContent, PlanningRevision, CheckpointNotApplied,
}
use omnigrex.Collaboration.Model.States.{State, empty_state}
use omnigrex.Collaboration.References.{find_reference, name_for, target, reference}
use omnigrex.Collaboration.Rounds.{is_open, request, publish, fail_publication}
use omnigrex.Collaboration.Inputs.Accepting.{accept}
use omnigrex.Collaboration.Inputs.Delivering.{prepare, mark_delivered}
use omnigrex.Collaboration.Inputs.Projecting.{project}
use omnigrex.Collaboration.Interpreting.Resolving.{resolve}
use omnigrex.Collaboration.Interpreting.Assessing.{assess}
use omnigrex.Collaboration.Planning.Checkpoints.{
  start_planning, confirm_checkpoint, fail_checkpoint,
}
use omnigrex.Collaboration.Planning.Reserving.{Reservation, reserve_checkpoint}
use omnigrex.Collaboration.Planning.Validating.{validate_planning}
use omnigrex.Collaboration.Evidence.Lineage.{amends_loop, amends}
use omnigrex.Collaboration.Evidence.Amending.{Amends, amends-Amends}
use omnigrex.Collaboration.Laws.Naming.{
  target_found, reference_found, reference_keeps, reference-Named,
}
use omnigrex.Collaboration.Laws.Sound.{Sound, Sound-empty_state, is_assigned, is_frontier}
use omnigrex.Collaboration.Laws.RoundSound.{
  request-Sound, publish-Sound, fail_publication-Sound, resolve-Sound,
}
use omnigrex.Collaboration.Laws.InputSound.{
  accept-Sound, prepare-Sound, mark_delivered-Sound, project-Sound,
}
use omnigrex.Collaboration.Laws.PlanSound.{Sound-IsFramed}
use omnigrex.Collaboration.Laws.PlanKeeps.{
  start_planning-Keeps, confirm_checkpoint-Keeps, fail_checkpoint-Keeps, assess-Keeps,
  validate_planning-Keeps, reserve_checkpoint-Keeps,
}

pub data Step (s : State) : State → Type 0 where
  requested :
      {next : State} (id participant turn head : String) (questions : List Question) (r : Round)
      → request s id participant turn head questions ≡ some (r, next)
      → Step s next
  published :
      {next : State} (id : String) (source : Source) → publish s id source ≡ some next → Step s next
  publication_failed :
      {next : State} (id : String) → fail_publication s id ≡ some next → Step s next
  accepted : (id : String) (c : Command) (a : Admission) → Step s ((accept s id c a).1)
  prepared : (participant turn : String) → Step s ((prepare s participant turn).1)
  delivered :
      {next : State} (participant turn id : String)
      → mark_delivered s participant turn id ≡ some next
      → Step s next
  resolved :
      {next : State} (round turn : String) (resolutions : List Resolution)
      → resolve s round turn resolutions ≡ some next
      → Step s next
  assessed :
      {next : State} (operation participant turn : String) (batch : List Assessment)
      → assess s operation participant turn batch ≡ some next
      → Step s next
  planning_started :
      {next : State} (original : OriginalRequest)
      → start_planning s original ≡ some next
      → Step s next
  reserved :
      {next : State} (id participant turn : String) (c : PlanningContent) (r : PlanningRevision)
      → reserve_checkpoint s id participant turn c ≡ Reservation.reserved r next
      → Step s next
  not_applied :
      {next : State} (id participant turn : String) (c : PlanningContent) (x : CheckpointNotApplied)
      → reserve_checkpoint s id participant turn c ≡ Reservation.not_applied x next
      → Step s next
  confirmed :
      {next : State} (id : String) (source : Source)
      → confirm_checkpoint s id source ≡ some next
      → Step s next
  checkpoint_failed : {next : State} (id : String) → fail_checkpoint s id ≡ some next → Step s next
  validated :
      {next : State} (operation revision participant turn commit evidence : String)
      (resolved_all : Bool)
      → validate_planning s operation revision participant turn commit evidence resolved_all
        ≡ some next
      → Step s next

-- The States that sequences of operations lead to.
pub data Reachable : State → Type 0 where
  start : Reachable empty_state
  step : {s next : State} → Reachable s → Step s next → Reachable next
  projected :
      {s : State}
      → Reachable s
      → (encoded_length : State → String → String → ℕ) (participant turn : String)
      → Reachable (project encoded_length s participant turn)

-- The States that sequences of operations lead to from a State, where Project is called for the Turns
-- that pass the test only.
pub data Follows (allowed : String → Bool) (s : State) : State → Type 0 where
  here : Follows allowed s s
  next : {t u : State} → Follows allowed s t → Step t u → Follows allowed s u
  projected :
      {t : State}
      → Follows allowed s t
      → (encoded_length : State → String → String → ℕ) (participant turn : String)
      → allowed turn ≡ true
      → Follows allowed s (project encoded_length t participant turn)

Step-Sound : {s next : State} → Step s next → Sound s → Sound next
Step-Sound {s} (Step.requested id participant turn head questions r e) h =
    Gives-some (λ (_, n). Sound n) _ e (request-Sound s id participant turn head questions h)
Step-Sound {s} (Step.published id source e) h = Gives-some Sound _ e (publish-Sound s id source h)
Step-Sound {s} (Step.publication_failed id e) h =
    Gives-some Sound _ e (fail_publication-Sound s id h)
Step-Sound {s} (Step.accepted id c a) h = accept-Sound s id c a h
Step-Sound {s} (Step.prepared participant turn) h = prepare-Sound s participant turn h
Step-Sound {s} (Step.delivered participant turn id e) h =
    Gives-some Sound _ e (mark_delivered-Sound s participant turn id h)
Step-Sound {s} (Step.resolved round turn resolutions e) h =
    Gives-some Sound _ e (resolve-Sound s round turn resolutions h)
Step-Sound {s} (Step.assessed operation participant turn batch e) h =
    Gives-some Sound _ e (assess-Keeps Sound-IsFramed s operation participant turn batch h)
Step-Sound {s} (Step.planning_started original e) h =
    Gives-some Sound _ e (start_planning-Keeps Sound-IsFramed s original h)
Step-Sound {s} (Step.reserved id participant turn c r e) h =
    rw e at (reserve_checkpoint-Keeps Sound-IsFramed s id participant turn c h)
Step-Sound {s} (Step.not_applied id participant turn c x e) h =
    rw e at (reserve_checkpoint-Keeps Sound-IsFramed s id participant turn c h)
Step-Sound {s} (Step.confirmed id source e) h =
    Gives-some Sound _ e (confirm_checkpoint-Keeps Sound-IsFramed s id source h)
Step-Sound {s} (Step.checkpoint_failed id e) h =
    Gives-some Sound _ e (fail_checkpoint-Keeps Sound-IsFramed s id h)
Step-Sound {s} (Step.validated operation revision participant turn commit evidence b e) h =
    Gives-some Sound _ e (
      validate_planning-Keeps Sound-IsFramed s operation revision participant turn commit evidence b
        h)

pub Reachable-Sound : {s : State} → Reachable s → Sound s
Reachable-Sound Reachable.start = Sound-empty_state
Reachable-Sound (Reachable.step before taken) = Step-Sound taken (Reachable-Sound before)
Reachable-Sound (Reachable.projected {s} before encoded_length participant turn) =
    project-Sound encoded_length s participant turn (Reachable-Sound before)

-- In every State that the operations lead to, at most one round awaits its publication; the current
-- round, if there is one, is a published round; and every input is assigned to no Turn or to one that
-- was prepared.
pub Reachable-Frontier :
    (s : State)
    → Reachable s
    → (length (filter is_open s.rounds) ≤ 1)
      × ((is_empty s.current_round || any (is_frontier s.current_round) s.rounds) ≡ true)
      × (all (is_assigned s.preparations) s.inputs ≡ true)
Reachable-Frontier s r =
    let h = Reachable-Sound r in (h.frontier.open_once, h.frontier.published, h.assigned)

-- In every State that the operations lead to, the loop of amends ends within as many rounds as there are
-- inputs and one more, for every pair of identities, and its answer is whether a chain of one or more
-- amendments leads from the first to the second.
pub amends_ends :
    (s : State)
    → Reachable s
    → (id prior : String)
    → (amends_loop (suc (length s.inputs)) s.inputs id prior ≡ some (amends s id prior))
      × ((amends s id prior ≡ true) ↔ Amends s.inputs id prior)
amends_ends s r id prior = amends-Amends s id prior (Reachable-Sound r).ordered

-- In every State that the operations lead to, an identity of a round, an input or a checkpoint has no
-- short name yet, or its name leads back to it, and still does after `reference` has named any identity.
-- The name that `reference` returns leads to the identity that it was asked for.
pub target-reference :
    (s : State)
    → Reachable s
    → (kind id k i : String)
    → ((find_reference k i s.references ≡ none)
        ⊎ ((target s k (name_for k i s.references) ≡ i)
            × (target ((reference s kind id).1) k (name_for k i s.references) ≡ i)))
      × (target ((reference s kind id).1) kind ((reference s kind id).0) ≡ id)
unfolding name_for
target-reference s r kind id k i =
    let named = (Reachable-Sound r).named in
    let next = (reference s kind id).1 in
    let (x, f, name) = reference_found s kind id in
    (
      elim (Option-cases (find_reference k i s.references)) [
        | inl e ↦ inl e
        | inr (y, e) ↦ inr (
            rw (name_for, e)
              (
                target_found s k i y named e,
                target_found next k i y (reference-Named s kind id named)
                    (reference_keeps s kind id k i y e),
              ))
      ],
      rw (sym name) (target_found next kind id x (reference-Named s kind id named) f),
    )

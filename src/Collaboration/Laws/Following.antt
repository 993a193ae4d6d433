-- ===== src/Collaboration/Laws/Following.antt =====
-- What survives all the operations of internal/collaboration.
use omnigrex.Prelude.{
  ℕ, String, Bool, true, not, none, some, List, [], map, ◌||◌, ◌≡◌, first, all, text_eq, Gives,
  option-Gives, if-Gives, Gives-some,
}
use omnigrex.Collaboration.Model.Records.{
  Source, Question, Round, Resolution, Reference, Command, Admission,
}
use omnigrex.Collaboration.Model.States.{State}
use omnigrex.Collaboration.References.{reference}
use omnigrex.Collaboration.Rounds.{
  request, request_refused, publish, fail_publication, same_delivery,
}
use omnigrex.Collaboration.Inputs.Accepting.{accept}
use omnigrex.Collaboration.Inputs.Delivering.{prepare, mark_delivered}
use omnigrex.Collaboration.Inputs.Projecting.{project}
use omnigrex.Collaboration.Interpreting.Resolving.{
  resolve, resolutions_valid, freeze, apply_resolutions, was_prepared,
}
use omnigrex.Collaboration.Evidence.Currency.{resolution_current}
use omnigrex.Collaboration.Laws.RoundSound.{apply_resolutions-frame}
use omnigrex.Collaboration.Laws.PlanKeeps.{
  IsFramed, start_planning-Keeps, confirm_checkpoint-Keeps, fail_checkpoint-Keeps, assess-Keeps,
  validate_planning-Keeps, reserve_checkpoint-Keeps,
}
use omnigrex.Collaboration.History.{Step, Follows}

-- A property that survives every operation, and Project of the Turns that pass the test.
pub record IsStable (allowed : String → Bool) (P : State → Type 0) : Type 0 where
  pub framed : IsFramed P
  pub touched :
      (s : State) (references : List Reference) (rounds : List Round) (current : String) (n : ℕ)
      → P s
      → P (record s {
        references = references;
        rounds = rounds;
        current_round = current;
        interpretation_sequence = n;
      })
  pub accepted :
      (s : State) (id : String) (c : Command) (a : Admission) → P s → P (accept s id c a).1
  pub prepared : (s : State) (participant turn : String) → P s → P (prepare s participant turn).1
  pub delivered :
      (s : State) (participant turn id : String)
      → P s
      → Gives P (mark_delivered s participant turn id)
  pub projected :
      (encoded_length : State → String → String → ℕ) (s : State) (participant turn : String)
      → allowed turn ≡ true
      → P s
      → P (project encoded_length s participant turn)

module _ {allowed : String → Bool} {P : State → Type 0} (k : IsStable allowed P) where
  request-Keeps :
      (s : State) (id participant turn head : String) (questions : List Question)
      → P s
      → Gives (λ (_, n). P n) (request s id participant turn head questions)
  unfolding request reference
  request-Keeps s id participant turn head questions h =
      if-Gives (λ (_, n). P n) (request_refused s id participant turn questions) none _ (λ _. tt)
        λ _. k.touched s _ _ _ _ h

  publish-Keeps : (s : State) (id : String) (source : Source) → P s → Gives P (publish s id source)
  unfolding publish
  publish-Keeps s id source h = option-Gives P (first (λ r. text_eq r.id id) s.rounds) _ λ r _.
      if-Gives P r.publication_failed none _ (λ _. tt)
        λ _.
          if-Gives P r.published _ _
            (λ _. if-Gives P (same_delivery r.source source) (some s) none (λ _. h) (λ _. tt))
            λ _. k.touched s _ _ _ _ h

  fail_publication-Keeps : (s : State) (id : String) → P s → Gives P (fail_publication s id)
  unfolding fail_publication
  fail_publication-Keeps s id h =
      option-Gives P (first (λ r. text_eq r.id id) s.rounds) _
        λ r _. if-Gives P r.published none _ (λ _. tt) λ _. k.touched s _ _ _ _ h

  apply_resolutions-Keeps :
      (r : Round) (s : State) (resolutions : List Resolution)
      → P s
      → P (apply_resolutions r s resolutions)
  apply_resolutions-Keeps r s resolutions h =
      let (n, rounds, e) = apply_resolutions-frame r s resolutions in
      rw e (k.touched s s.references rounds s.current_round n h)

  resolve-Keeps :
      (s : State) (round turn : String) (resolutions : List Resolution)
      → P s
      → Gives P (resolve s round turn resolutions)
  unfolding resolve
  resolve-Keeps s round turn resolutions h =
      option-Gives P (first (λ r. text_eq r.id round) s.rounds) _ λ r _.
        if-Gives P (not r.published || not (was_prepared s r.participant_id turn)) none _ (λ _. tt)
          λ _.
            if-Gives P (not (resolutions_valid s r [] resolutions)) none _ (λ _. tt)
              λ _.
                if-Gives P (not (all (resolution_current s) (map (freeze s) resolutions))) none _
                  (λ _. tt) λ _. apply_resolutions-Keeps r s (map (freeze s) resolutions) h

  Step-Keeps : {s next : State} → Step s next → P s → P next
  Step-Keeps {s} (Step.requested id participant turn head questions r e) h =
      Gives-some (λ (_, n). P n) _ e (request-Keeps s id participant turn head questions h)
  Step-Keeps {s} (Step.published id source e) h = Gives-some P _ e (publish-Keeps s id source h)
  Step-Keeps {s} (Step.publication_failed id e) h = Gives-some P _ e (fail_publication-Keeps s id h)
  Step-Keeps {s} (Step.accepted id c a) h = k.accepted s id c a h
  Step-Keeps {s} (Step.prepared participant turn) h = k.prepared s participant turn h
  Step-Keeps {s} (Step.delivered participant turn id e) h =
      Gives-some P _ e (k.delivered s participant turn id h)
  Step-Keeps {s} (Step.resolved round turn resolutions e) h =
      Gives-some P _ e (resolve-Keeps s round turn resolutions h)
  Step-Keeps {s} (Step.assessed operation participant turn batch e) h =
      Gives-some P _ e (assess-Keeps k.framed s operation participant turn batch h)
  Step-Keeps {s} (Step.planning_started original e) h =
      Gives-some P _ e (start_planning-Keeps k.framed s original h)
  Step-Keeps {s} (Step.reserved id participant turn c r e) h =
      rw e at (reserve_checkpoint-Keeps k.framed s id participant turn c h)
  Step-Keeps {s} (Step.not_applied id participant turn c x e) h =
      rw e at (reserve_checkpoint-Keeps k.framed s id participant turn c h)
  Step-Keeps {s} (Step.confirmed id source e) h =
      Gives-some P _ e (confirm_checkpoint-Keeps k.framed s id source h)
  Step-Keeps {s} (Step.checkpoint_failed id e) h =
      Gives-some P _ e (fail_checkpoint-Keeps k.framed s id h)
  Step-Keeps {s} (Step.validated operation revision participant turn commit evidence b e) h =
      Gives-some P _ e
        (validate_planning-Keeps k.framed s operation revision participant turn commit evidence b h)

  pub Follows-Keeps : {s t : State} → Follows allowed s t → P s → P t
  Follows-Keeps Follows.here h = h
  Follows-Keeps (Follows.next before taken) h = Step-Keeps taken (Follows-Keeps before h)
  Follows-Keeps (Follows.projected {t} before encoded_length participant turn a) h =
      k.projected encoded_length t participant turn a (Follows-Keeps before h)

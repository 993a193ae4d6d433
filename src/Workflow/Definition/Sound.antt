-- ===== src/Workflow/Definition/Sound.antt =====
-- What NewDefinition of internal/workflow/definition.go promises of a Definition that it accepts.
use omnigrex.Prelude.{
  subst, ◌≡◌, refl, Bool, true, false, List, [], ◌∷◌, ◌++◌, none, some, is_some, ◌&&◌, ◌||◌, arith,
  is_empty, all, text_eq_self, map, ap, sym, ◌∙◌, append_nil, append_assoc,
}
use omnigrex.Workflow.Definition.Build.{
  ok, check_relations, check_target, check_targets, initial_refused, add_stages, check_stage,
  insert_stage, is_stage_state, new_definition, omits_purpose,
}
use omnigrex.Workflow.Definition.Stages.{
  Definition, OutcomeTransition, StageDefinition, accepts_purpose, stage_of, StageEntry,
  contains_purpose, find_stage,
}
use omnigrex.Workflow.Model.Vocabulary.{StageId, Role, TurnPurpose}
use omnigrex.Workflow.Definition.Ids.{valid_stage_id}

-- Every transition of the Stages names Stages that exist, and a successor accepts its purpose.
abbrev pub target_closed : Definition → OutcomeTransition → Bool
target_closed d t =
    (is_empty t.next_stage || accepts_purpose d t.next_stage t.next_purpose)
    && (is_empty t.continuation_stage || is_some (stage_of d t.continuation_stage))

abbrev pub closed_under : Definition → List (StageId × StageDefinition) → Bool
closed_under d [] = true
closed_under d ((_, stage) ∷ rest) = all (target_closed d) stage.transitions && closed_under d rest

check_target_lem :
    (d : Definition) (id : StageId) (t : OutcomeTransition)
    → check_target d id t ≡ ok tt
    → target_closed d t ≡ true
unfolding check_target accepts_purpose stage_of
check_target_lem d id t h = ground arith

check_targets_lem :
    (d : Definition) (id : StageId) (ts : List OutcomeTransition)
    → check_targets d id ts ≡ ok tt
    → all (target_closed d) ts ≡ true
unfolding check_targets
check_targets_lem d id [] h = refl
check_targets_lem d id (t ∷ ts) h =
    ground (arith, check_target_lem d id t, check_targets_lem d id ts)

check_relations_lem :
    (d : Definition) (stages : List (StageId × StageDefinition))
    → check_relations d stages ≡ ok tt
    → closed_under d stages ≡ true
unfolding check_relations
check_relations_lem d [] h = refl
check_relations_lem d ((id, stage) ∷ rest) h =
    ground (arith, check_targets_lem d stage.id stage.transitions, check_relations_lem d rest)

initial_refused_lem :
    (d : Definition)
    → initial_refused d ≡ false
    → accepts_purpose d d.initial.stage d.initial.purpose ≡ true
unfolding initial_refused accepts_purpose
initial_refused_lem d h = ground arith

-- What a Stage has on its own.
abbrev pub sound_stage : (Role → Bool) → StageDefinition → Bool
sound_stage known stage =
    valid_stage_id stage.id
    && known stage.role
    && is_stage_state stage.state
    && contains_purpose stage.accepted_purposes TurnPurpose.retry
    && contains_purpose stage.accepted_purposes TurnPurpose.reactivation

-- Each Stage is found under its name.
abbrev pub Found : Definition → List StageDefinition → Type 0
Found d [] = Unit
Found d (stage ∷ rest) = (stage_of d stage.id ≡ some stage) × Found d rest

find_stage-kept :
    (id : StageId) (key : StageId) (new : StageDefinition)
    (stages : List (StageId × StageDefinition)) (stage : StageDefinition)
    → find_stage id stages ≡ some stage
    → find_stage id (stages ++ (key, new) ∷ []) ≡ some stage
unfolding find_stage
find_stage-kept id key new [] stage h = ground arith
find_stage-kept id key new ((k, s) ∷ rest) stage h =
    ground (arith, find_stage-kept id key new rest stage)

find_stage-last :
    (id : StageId) (new : StageDefinition) (stages : List (StageId × StageDefinition))
    → find_stage id stages ≡ none
    → find_stage id (stages ++ (id, new) ∷ []) ≡ some new
unfolding find_stage
find_stage-last id new [] h = ground (arith, text_eq_self id)
find_stage-last id new ((k, s) ∷ rest) h = ground (arith, find_stage-last id new rest)

check_stage_lem :
    (known : Role → Bool) (d : Definition) (stage : StageDefinition)
    → check_stage known d stage ≡ ok tt
    → (sound_stage known stage ≡ true) × (find_stage stage.id d.stages ≡ none)
unfolding check_stage omits_purpose
check_stage_lem known d stage h = ground arith

module _ (known : Role → Bool) where
  add_stages-step :
      (d0 d : Definition) (stage : StageDefinition) (rest : List StageDefinition)
      → add_stages known d0 (stage ∷ rest) ≡ ok d
      → (check_stage known d0 stage ≡ ok tt)
        × (add_stages known (insert_stage d0 stage) rest ≡ ok d)
  unfolding add_stages
  add_stages-step d0 d stage rest h = ground arith

  add_stages-kept :
      (d0 d : Definition) (stages : List StageDefinition) (id : StageId) (stage : StageDefinition)
      → add_stages known d0 stages ≡ ok d
      → find_stage id d0.stages ≡ some stage
      → find_stage id d.stages ≡ some stage
  unfolding add_stages insert_stage
  add_stages-kept d0 d [] id stage h f = ground arith
  add_stages-kept d0 d (new ∷ rest) id stage h f =
      add_stages-kept (insert_stage d0 new) d rest id stage (add_stages-step d0 d new rest h).1
        (find_stage-kept id new.id new d0.stages stage f)

  add_stages-Found :
      (d0 d : Definition) (stages : List StageDefinition)
      → add_stages known d0 stages ≡ ok d
      → Found d stages
  unfolding stage_of insert_stage
  add_stages-Found d0 d [] h = tt
  add_stages-Found d0 d (stage ∷ rest) h =
      let step = add_stages-step d0 d stage rest h in
      (
        add_stages-kept (insert_stage d0 stage) d rest stage.id stage step.1
            (find_stage-last stage.id stage d0.stages (check_stage_lem known d0 stage step.0).1),
        add_stages-Found (insert_stage d0 stage) d rest step.1,
      )

  add_stages_sound :
      (d0 d : Definition) (stages : List StageDefinition)
      → add_stages known d0 stages ≡ ok d
      → all (sound_stage known) stages ≡ true
  add_stages_sound d0 d [] h = refl
  add_stages_sound d0 d (stage ∷ rest) h =
      let step = add_stages-step d0 d stage rest h in
      ground (
        arith,
        check_stage_lem known d0 stage step.0,
        add_stages_sound (insert_stage d0 stage) d rest step.1,
      )

  add_stages-initial :
      (d0 d : Definition) (stages : List StageDefinition)
      → add_stages known d0 stages ≡ ok d
      → d.initial ≡ d0.initial
  unfolding add_stages insert_stage
  add_stages-initial d0 d [] h = ground arith
  add_stages-initial d0 d (stage ∷ rest) h =
      add_stages-initial (insert_stage d0 stage) d rest (add_stages-step d0 d stage rest h).1

  -- The Stages of the result are those that were there and the given ones, in their order.
  add_stages-listed :
      (d0 d : Definition) (stages : List StageDefinition)
      → add_stages known d0 stages ≡ ok d
      → (d.stages ≡ (d0.stages ++ map (λ (x : StageDefinition). (x.id, x)) stages))
        × (d.ordered ≡ (d0.ordered ++ map (λ (x : StageDefinition). x.id) stages))
  unfolding add_stages insert_stage
  add_stages-listed d0 d [] h =
      let same : d0 ≡ d = ground arith in
      (
        ap (λ (x : Definition). x.stages) (sym same) ∙ sym (append_nil d0.stages),
        ap (λ (x : Definition). x.ordered) (sym same) ∙ sym (append_nil d0.ordered),
      )
  add_stages-listed d0 d (stage ∷ rest) h =
      let (stages, ordered) =
        add_stages-listed (insert_stage d0 stage) d rest (add_stages-step d0 d stage rest h).1 in
      (
        stages ∙ append_assoc d0.stages ((stage.id, stage) ∷ []) _,
        ordered ∙ append_assoc d0.ordered (stage.id ∷ []) _,
      )

-- A Definition that NewDefinition accepts.
pub record SoundDefinition (known : Role → Bool) (initial : StageEntry)
    (stages : List StageDefinition) (d : Definition) : Type 0 where
  pub entry : d.initial ≡ initial
  pub stages_given : d.stages ≡ map (λ (x : StageDefinition). (x.id, x)) stages
  pub ordered_given : d.ordered ≡ map (λ (x : StageDefinition). x.id) stages
  pub found : Found d stages
  pub sound : all (sound_stage known) stages ≡ true
  pub closed : closed_under d d.stages ≡ true
  pub startable : accepts_purpose d initial.stage initial.purpose ≡ true

new_definition_cases :
    (known : Role → Bool) (initial : StageEntry) (stages : List StageDefinition) {d : Definition}
    → new_definition (some known) initial stages ≡ ok d
    → (add_stages known (record { initial = initial; ordered = []; stages = [] }) stages ≡ ok d)
      × (initial_refused d ≡ false)
      × (check_relations d d.stages ≡ ok tt)
unfolding new_definition
new_definition_cases known initial stages h = ground arith

-- A Definition that NewDefinition accepts starts at the given entry, has the given Stages and no other,
-- in the given order, and finds each under its name; each has a valid name, a known Role and a working state
-- and accepts retries and reactivations; every transition names Stages that exist, a successor accepts the
-- transition's purpose, and the initial Stage accepts the initial purpose.
pub new_definition-SoundDefinition :
    (known : Role → Bool) (initial : StageEntry) (stages : List StageDefinition) {d : Definition}
    → new_definition (some known) initial stages ≡ ok d
    → SoundDefinition known initial stages d
new_definition-SoundDefinition known initial stages {d} h =
    let c = new_definition_cases known initial stages h in
    let empty : Definition = record { initial = initial; ordered = []; stages = [] } in
    let entry = add_stages-initial known empty d stages c.0 in
    record {
      entry = entry;
      stages_given = (add_stages-listed known empty d stages c.0).0;
      ordered_given = (add_stages-listed known empty d stages c.0).1;
      found = add_stages-Found known empty d stages c.0;
      sound = add_stages_sound known empty d stages c.0;
      closed = check_relations_lem d d.stages c.2;
      startable =
          subst (λ (i : StageEntry). accepts_purpose d i.stage i.purpose ≡ true) entry
            (initial_refused_lem d c.1);
    }

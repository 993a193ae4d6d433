-- ===== src/Workflow/Definition/BuiltinLaws.antt =====
-- NewBuiltinDefinition of internal/workflow/builtin.go is accepted by NewDefinition.
use omnigrex.Prelude.{
  ◌≡◌, refl, String, Bool, true, false, [], ◌∷◌, none, some, text_eq, byte_length, trim_space,
  drop_space, is_space, codes_eq,
}
use omnigrex.Workflow.Definition.Build.{
  ok, check_direction, check_instructions, check_purposes, check_stage, check_transitions,
  contains_outcome, has_nul, invalid_shape, is_stage_state, is_successor, is_terminal,
  omits_purpose, valid_definition_outcome, valid_turn_purpose, add_stages, check_relations,
  check_target, check_targets, initial_refused, insert_stage,
}
use omnigrex.Workflow.Model.Vocabulary.{
  Role, outcome_eq, purpose_eq, role_developer, role_planner, role_reviewer, state_eq,
}
use omnigrex.Workflow.Definition.Builtin.{
  builtin_entry, implementation_stage, planning_stage, review_stage, stage_implementation,
  stage_planning, stage_review, builtin_stages, new_builtin_definition,
}
use omnigrex.Workflow.Definition.Stages.{
  Definition, contains_purpose, find_stage, definition_valid, roles_of,
}
use omnigrex.Workflow.Definition.Ids.{is_stage_id_character, valid_stage_codes, valid_stage_id}

abbrev pub builtin_definition : String → String → Definition
builtin_definition implementation_instructions review_instructions = record {
  initial = builtin_entry;
  ordered = stage_planning ∷ stage_implementation ∷ stage_review ∷ [];
  stages =
      (stage_planning, planning_stage)
      ∷ (stage_implementation, implementation_stage implementation_instructions)
      ∷ (stage_review, review_stage review_instructions)
      ∷ [];
}

module _ (known : Role → Bool) (implementation_instructions review_instructions : String)
    (planner : known role_planner ≡ true) (developer : known role_developer ≡ true)
    (reviewer : known role_reviewer ≡ true) (clean : has_nul implementation_instructions ≡ false)
    (clean_review : has_nul review_instructions ≡ false) where
  planning-accepted :
      (d : Definition)
      → find_stage stage_planning d.stages ≡ none
      → check_stage known d planning_stage ≡ ok tt
  unfolding check_stage check_purposes check_instructions omits_purpose check_transitions has_nul
      is_stage_state contains_purpose purpose_eq state_eq outcome_eq valid_turn_purpose
      valid_definition_outcome contains_outcome invalid_shape is_successor is_terminal
      check_direction valid_stage_id valid_stage_codes text_eq byte_length trim_space drop_space
      is_space codes_eq is_stage_id_character
  planning-accepted d h = rw (planner, h) refl

  implementation-accepted :
      (d : Definition)
      → find_stage stage_implementation d.stages ≡ none
      → check_stage known d (implementation_stage implementation_instructions) ≡ ok tt
  unfolding check_stage check_purposes check_instructions omits_purpose check_transitions has_nul
      is_stage_state contains_purpose purpose_eq state_eq outcome_eq valid_turn_purpose
      valid_definition_outcome contains_outcome invalid_shape is_successor is_terminal
      check_direction valid_stage_id valid_stage_codes text_eq byte_length trim_space drop_space
      is_space codes_eq is_stage_id_character
  implementation-accepted d h = rw (developer, h, clean) refl

  review-accepted :
      (d : Definition)
      → find_stage stage_review d.stages ≡ none
      → check_stage known d (review_stage review_instructions) ≡ ok tt
  unfolding check_stage check_purposes check_instructions omits_purpose check_transitions has_nul
      is_stage_state contains_purpose purpose_eq state_eq outcome_eq valid_turn_purpose
      valid_definition_outcome contains_outcome invalid_shape is_successor is_terminal
      check_direction valid_stage_id valid_stage_codes text_eq byte_length trim_space drop_space
      is_space codes_eq is_stage_id_character
  review-accepted d h = rw (reviewer, h, clean_review) refl

  relations-accepted :
      check_relations
        (builtin_definition implementation_instructions review_instructions)
        (builtin_definition implementation_instructions review_instructions).stages
      ≡ ok tt
  unfolding check_relations check_targets check_target find_stage contains_purpose purpose_eq
      text_eq
  relations-accepted = refl

  initial-accepted :
      initial_refused (builtin_definition implementation_instructions review_instructions) ≡ false
  unfolding initial_refused find_stage contains_purpose purpose_eq state_eq text_eq
  initial-accepted = refl

  stages-accepted :
      add_stages known
        (record { initial = builtin_entry; ordered = []; stages = [] })
        (builtin_stages implementation_instructions review_instructions)
      ≡ ok (builtin_definition implementation_instructions review_instructions)
  unfolding add_stages insert_stage find_stage text_eq
  stages-accepted =
      let d0 : Definition = record { initial = builtin_entry; ordered = []; stages = [] } in
      let d1 = insert_stage d0 planning_stage in
      let d2 = insert_stage d1 (implementation_stage implementation_instructions) in
      rw (planning-accepted d0 refl, implementation-accepted d1 refl, review-accepted d2 refl) refl

  -- The built-in Definition is accepted, whatever the instruction files say, if they hold no NUL
  -- and the catalog knows the three Roles; its Roles are these three, in this order.
  pub new_builtin_definition_lem :
      (new_builtin_definition (some known) implementation_instructions review_instructions
        ≡ ok (builtin_definition implementation_instructions review_instructions))
      × (definition_valid (builtin_definition implementation_instructions review_instructions)
          ≡ true)
      × (roles_of (builtin_definition implementation_instructions review_instructions)
          ≡ role_planner ∷ role_developer ∷ role_reviewer ∷ [])
  unfolding new_builtin_definition valid_stage_id valid_stage_codes text_eq byte_length trim_space
      drop_space is_space codes_eq is_stage_id_character valid_turn_purpose definition_valid
      roles_of find_stage
  new_builtin_definition_lem =
      (rw (stages-accepted, initial-accepted, relations-accepted) refl, refl, refl)

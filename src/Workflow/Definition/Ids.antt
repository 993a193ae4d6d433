-- ===== src/Workflow/Definition/Ids.antt =====
-- validStageID of internal/workflow/definition.go.
use omnigrex.Prelude.{
  ℕ, Bool, false, not, List, [], ◌∷◌, ◌&&◌, ◌||◌, ltb, all, codes, byte_length, between, trim_space,
  codes_eq, ◌==◌,
}
use omnigrex.Workflow.Model.Vocabulary.{StageId}

abbrev pub max_stage_id_length : ℕ
max_stage_id_length = 64

abbrev pub is_lower : ℕ → Bool
is_lower = between b'a' b'z'

-- The loop over `id[1:]` returns false at the first other character.
unfoldable pub is_stage_id_character : ℕ → Bool
is_stage_id_character c = is_lower c || between b'0' b'9' c || c == b'-'

unfoldable pub valid_stage_codes : List ℕ → Bool
unfolding is_stage_id_character byte_length trim_space codes_eq
valid_stage_codes [] = false
valid_stage_codes (c ∷ cs) =
    not (ltb max_stage_id_length (byte_length (c ∷ cs)))
    && is_lower c
    && codes_eq (trim_space (c ∷ cs)) (c ∷ cs)
    && all is_stage_id_character cs

unfoldable pub valid_stage_id : StageId → Bool
unfolding valid_stage_codes
valid_stage_id id = valid_stage_codes (codes id)

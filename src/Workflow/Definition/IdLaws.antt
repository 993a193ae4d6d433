-- ===== src/Workflow/Definition/IdLaws.antt =====
-- validStageID against a description of the names it accepts.
use mathlib.Core.List.{reverse, reverse_aux, reverse-reverse}
use omnigrex.Prelude.{
  ap, ◌∙◌, ℕ, ◌≡◌, refl, Bool, true, false, List, [], ◌∷◌, ◌&&◌, ◌||◌, leb, ◌==◌, all, between,
  arith, length, byte_length, is_space, codes, codes_eq, drop_space, trim_space, utf8_length,
}
use omnigrex.Workflow.Definition.Ids.{
  max_stage_id_length, is_stage_id_character, valid_stage_codes, valid_stage_id,
}
use omnigrex.Workflow.Model.Vocabulary.{StageId}

-- A name of at most 64 characters: a lower-case letter, then such letters, digits and hyphens.
abbrev pub is_name_character : ℕ → Bool
is_name_character c = between b'a' b'z' c || between b'0' b'9' c || c == b'-'

abbrev pub is_stage_name : List ℕ → Bool
is_stage_name [] = false
is_stage_name (c ∷ cs) =
    between b'a' b'z' c && all is_name_character cs && leb (length (c ∷ cs)) max_stage_id_length

is_name_character_lem :
    (c : ℕ) → is_name_character c ≡ true → (utf8_length c ≡ 1) × (is_space c ≡ false)
unfolding is_space
is_name_character_lem c h = ground arith

byte_length-length : (cs : List ℕ) → all is_name_character cs ≡ true → byte_length cs ≡ length cs
unfolding byte_length
byte_length-length [] h = refl
byte_length-length (c ∷ cs) h = ground (arith, byte_length-length cs, is_name_character_lem c)

drop_space_lem : (cs : List ℕ) → all is_name_character cs ≡ true → drop_space cs ≡ cs
unfolding drop_space
drop_space_lem [] h = refl
drop_space_lem (c ∷ cs) h = ground (arith, is_name_character_lem c)

all-reverse_aux :
    (cs ds : List ℕ)
    → all is_name_character cs ≡ true
    → all is_name_character ds ≡ true
    → all is_name_character (reverse_aux cs ds) ≡ true
all-reverse_aux [] ds h k = k
all-reverse_aux (c ∷ cs) ds h k = ground (arith, all-reverse_aux cs (c ∷ ds))

trim_space_lem : (cs : List ℕ) → all is_name_character cs ≡ true → trim_space cs ≡ cs
unfolding trim_space
trim_space_lem cs h =
    ap (λ l. reverse (drop_space (reverse l))) (drop_space_lem cs h)
    ∙ ap reverse (drop_space_lem (reverse cs) (all-reverse_aux cs [] h refl))
    ∙ reverse-reverse cs

codes_eq_self : (cs : List ℕ) → codes_eq cs cs ≡ true
unfolding codes_eq
codes_eq_self [] = refl
codes_eq_self (c ∷ cs) = ground (arith, codes_eq_self cs)

name_characters_lem : (cs : List ℕ) → all is_stage_id_character cs ≡ all is_name_character cs
unfolding is_stage_id_character
name_characters_lem [] = refl
name_characters_lem (c ∷ cs) = ground (arith, name_characters_lem cs)

valid_stage_codes_lem : (cs : List ℕ) → valid_stage_codes cs ≡ is_stage_name cs
unfolding valid_stage_codes
valid_stage_codes_lem [] = refl
valid_stage_codes_lem (c ∷ cs) = ground (
  arith,
  name_characters_lem cs,
  byte_length-length (c ∷ cs),
  trim_space_lem (c ∷ cs),
  codes_eq_self (c ∷ cs),
)

-- A Stage's name is valid exactly if it has 1 to 64 characters, the first a lower-case letter and
-- the others lower-case letters, digits or hyphens; the bytes are the characters then, and trimming
-- changes nothing.
pub valid_stage_id_lem : (id : StageId) → valid_stage_id id ≡ is_stage_name (codes id)
unfolding valid_stage_id
valid_stage_id_lem id = valid_stage_codes_lem (codes id)

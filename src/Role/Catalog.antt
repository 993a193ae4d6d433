-- ===== src/Role/Catalog.antt =====
-- internal/role/catalog.go. The catalog's map is the list of its entries, whose identities differ; a copy
-- of a value is the value. Texts are read as Unicode.
use omnigrex.Prelude.{
  ℕ, String, Bool, false, not, List, [], ◌∷◌, Option, none, some, ◌&&◌, ◌||◌, if◌then◌else◌, ltb,
  ◌==◌, all, any, between, codes, codes_eq, byte_length, trim_space, is_blank, is_some, text_eq,
  first, snoc,
}

abbrev pub max_id_length : ℕ
max_id_length = 64

abbrev pub RoleId : Type 0
RoleId = String

pub record Metadata : Type 0 where
  pub id : RoleId
  pub display_name : String
  pub description : String

pub record Catalog : Type 0 where
  pub ordered : List RoleId
  pub by_id : List Metadata

abbrev pub is_upper : ℕ → Bool
is_upper = between b'A' b'Z'

abbrev pub is_id_character : ℕ → Bool
is_id_character c = is_upper c || between b'0' b'9' c || c == b'_'

abbrev valid_id_codes : List ℕ → Bool
valid_id_codes [] = false
valid_id_codes (c ∷ cs) =
    not (ltb max_id_length (byte_length (c ∷ cs))) && is_upper c && all is_id_character cs

unfoldable pub valid_id : RoleId → Bool
unfolding byte_length
valid_id id = valid_id_codes (codes id)

-- unicode.IsControl: the control characters of ASCII and Latin-1.
abbrev pub is_control : ℕ → Bool
is_control c = ltb c 0x20 || between 0x7F 0x9F c

unfoldable pub contains_control : String → Bool
contains_control s = any is_control (codes s)

-- Not blank, and without space at its ends.
abbrev pub is_trimmed : String → Bool
is_trimmed s = not (is_blank s) && codes_eq (trim_space (codes s)) (codes s)

unfoldable pub valid_metadata : Metadata → Bool
unfolding valid_id contains_control is_blank trim_space codes_eq
valid_metadata m =
    valid_id m.id
    && is_trimmed m.display_name
    && is_trimmed m.description
    && not (contains_control m.display_name)
    && not (contains_control m.description)

unfoldable pub lookup : Catalog → RoleId → Option Metadata
lookup catalog id = first (λ m. text_eq m.id id) catalog.by_id

unfoldable pub contains_id : Catalog → RoleId → Bool
unfolding lookup
contains_id catalog id = is_some (lookup catalog id)

-- The loop of NewCatalog.
unfoldable pub add_all : Catalog → List Metadata → Option Catalog
unfolding valid_metadata contains_id
add_all catalog [] = some catalog
add_all catalog (m ∷ ms) =
    let rest =
      add_all (record { ordered = snoc catalog.ordered m.id; by_id = snoc catalog.by_id m }) ms in
    if not (valid_metadata m) || contains_id catalog m.id then none else rest

unfoldable pub new_catalog : List Metadata → Option Catalog
unfolding add_all
new_catalog [] = none
new_catalog (m ∷ ms) = add_all (record { ordered = []; by_id = [] }) (m ∷ ms)

abbrev pub ids : Catalog → List RoleId
ids catalog = catalog.ordered

abbrev pub builtin_metadata : List Metadata
builtin_metadata =
    record {
      id = "DEVELOPER";
      display_name = "Developer";
      description = "Implements and revises the Change Proposal.";
    }
    ∷ record {
      id = "REVIEWER";
      display_name = "Reviewer";
      description = "Evaluates the current Change Proposal.";
    }
    ∷ record {
      id = "PLANNER";
      display_name = "Planner";
      description =
          "Investigates and discusses requirements and technical plans without authorizing implementation.";
    }
    ∷ []

-- BuiltinCatalog, which panics where this is `none`.
unfoldable pub builtin_catalog : Option Catalog
unfolding new_catalog
builtin_catalog = new_catalog builtin_metadata

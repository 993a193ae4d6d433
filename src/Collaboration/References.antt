-- ===== src/Collaboration/References.antt =====
-- internal/collaboration/references.go: the permanent names of rounds, inputs and checkpoints.
use omnigrex.Prelude.{
  ◌+◌, String, Bool, List, Option, none, some, ◌&&◌, text_eq, length, filter, first, snoc, decimal,
  append,
}
use omnigrex.Collaboration.Model.Records.{Reference}
use omnigrex.Collaboration.Model.States.{State}

abbrev pub of_kind : String → Reference → Bool
of_kind kind r = text_eq r.kind kind

unfoldable pub find_reference : String → String → List Reference → Option Reference
find_reference kind id = first (λ r. text_eq r.kind kind && text_eq r.id id)

abbrev pub next_name : String → List Reference → String
next_name kind refs = append kind (decimal (length (filter (of_kind kind) refs) + 1))

-- The name that the identity has, or is given.
unfoldable pub name_for : String → String → List Reference → String
name_for kind id refs = elim (find_reference kind id refs) [
  | some r ↦ r.name
  | none ↦ next_name kind refs
]

unfoldable pub references_with : String → String → List Reference → List Reference
references_with kind id refs = elim (find_reference kind id refs) [
  | some r ↦ refs
  | none ↦ snoc refs (record { name = next_name kind refs; id = id; kind = kind })
]

-- The name, and the State that has it.
unfoldable pub reference : State → String → String → String × State
reference s kind id =
    (name_for kind id s.references, record s { references = references_with kind id s.references })

unfoldable pub target : State → String → String → String
target s kind name = elim (first (λ r. text_eq r.kind kind && text_eq r.name name) s.references) [
  | none ↦ ""
  | some r ↦ r.id
]

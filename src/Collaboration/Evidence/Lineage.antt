-- ===== src/Collaboration/Evidence/Lineage.antt =====
-- amends, evidenceLineage, isAmendmentOfEvidence and explicitlyCorrects of internal/collaboration.
use omnigrex.Prelude.{
  ℕ, zero, suc, String, Bool, true, false, not, List, [], ◌∷◌, ◌++◌, Option, none, some, ◌&&◌, ◌||◌,
  if◌then◌else◌, any, contains, is_empty, text_eq, length, first, concat_map,
}
use omnigrex.Collaboration.Model.Records.{Input, Assessment}
use omnigrex.Collaboration.Model.States.{State}

abbrev pub amends_of : Option Input → String
amends_of none = ""
amends_of (some x) = x.amends

-- The `Amends` of the first input with the identity, "" where there is none.
unfoldable pub amended_by : List Input → String → String
amended_by inputs id = amends_of (first (λ x. text_eq x.id id) inputs)

-- The loop of amends: `none` where the rounds given do not suffice.
unfoldable pub amends_loop : ℕ → List Input → String → String → Option Bool
amends_loop zero inputs id prior = none
amends_loop (suc k) inputs id prior = elim (is_empty id || is_empty (amended_by inputs id)) [
  | true ↦ some false
  | false ↦ elim (text_eq (amended_by inputs id) prior) [
    | true ↦ some true
    | false ↦ amends_loop k inputs (amended_by inputs id) prior
  ]
]

-- As many rounds as there are inputs, and one more.
unfoldable pub amends : State → String → String → Bool
amends s id prior = elim (amends_loop (suc (length s.inputs)) s.inputs id prior) [
  | none ↦ false
  | some b ↦ b
]

-- What an assessed change corrects.
abbrev pub corrections : String → Assessment → List String
corrections id a =
    if text_eq a.input_id id && text_eq a.disposition "changed" then a.corrects else []

abbrev pub amended_prior : Option Input → List String
amended_prior none = []
amended_prior (some x) = x.amends ∷ []

-- The identities that `visit` goes on to, in its order.
unfoldable pub priors : State → String → List String
priors s id =
    amended_prior (first (λ x. text_eq x.id id) s.inputs)
    ++ concat_map (corrections id) s.assessments

abbrev pub through : (List String → String → List String) → List String → List String → List String
through f seen [] = seen
through f seen (id ∷ ids) = through f (f seen id) ids

-- The closure `visit` of evidenceLineage, which goes on to `next`; `seen` is its map.
unfoldable pub visit : ℕ → (String → List String) → List String → String → List String
visit zero next seen id = seen
visit (suc k) next seen id = elim (is_empty id || contains seen id) [
  | true ↦ seen
  | false ↦ through (visit k next) (id ∷ seen) (next id)
]

-- Every identity that an edge leads to.
abbrev pub edge_ends : State → List String
edge_ends s = concat_map (λ x. x.amends ∷ []) s.inputs ++ concat_map (λ a. a.corrects) s.assessments

-- Calls nest only at new identities, so one for each edge end and one for the start are enough.
unfoldable pub evidence_lineage : State → String → List String
unfolding visit priors
evidence_lineage s id = visit (suc (suc (length (edge_ends s)))) (priors s) [] id

unfoldable pub is_amendment_of_evidence : State → String → String → Bool
unfolding evidence_lineage
is_amendment_of_evidence s id prior =
    any (λ x. text_eq x.id id && not (is_empty x.amends)) s.inputs
    && any (contains (evidence_lineage s id)) (evidence_lineage s prior)

unfoldable pub explicitly_corrects : State → String → String → Bool
explicitly_corrects s id prior =
    any (λ a. text_eq a.input_id id && text_eq a.disposition "changed" && contains a.corrects prior)
      s.assessments

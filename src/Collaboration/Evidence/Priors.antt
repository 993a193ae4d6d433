-- ===== src/Collaboration/Evidence/Priors.antt =====
-- The priors of an input, as a relation: what it amends and what an assessed change of it corrects.
use omnigrex.Prelude.{
  String, true, false, List, [], ◌∷◌, Option, none, some, ◌&&◌, ◌≡◌, sym, ◌⊎◌, inl, inr, ◌↔◌, arith,
  Bool-cases, and_parts, contains, is_empty, text_eq, text_eq_self, first, concat_map, Has, Sub,
  Has-head, Has-cases, Has-append_cases, Has-append_left, Has-append_right, Has-concat_map,
  concat_map-Sub,
}
use omnigrex.Collaboration.Model.Records.{Input, Assessment}
use omnigrex.Collaboration.Model.States.{State}
use omnigrex.Collaboration.Evidence.Lineage.{
  amended_by, amends_of, amended_prior, corrections, priors, edge_ends, explicitly_corrects,
}

-- `p` is what input `id` amends, or what an assessed change of it corrects.
abbrev pub Prior : State → String → String → Type 0
Prior s id p = (amended_by s.inputs id ≡ p) ⊎ (explicitly_corrects s id p ≡ true)

-- A chain of nonempty identities, each a prior of the one before it.
pub data Reaches (s : State) : String → String → Type 0 where
  here : {id : String} → is_empty id ≡ false → Reaches s id id
  next : {id p x : String} → is_empty id ≡ false → Prior s id p → Reaches s p x → Reaches s id x

Has-correction :
    (id p : String) (a : Assessment)
    → Has (corrections id a) p
      ↔ ((text_eq a.input_id id && text_eq a.disposition "changed" && contains a.corrects p) ≡ true)
Has-correction id p a =
    elim (Bool-cases (text_eq a.input_id id && text_eq a.disposition "changed")) [
      | inl e ↦ rw e (λ h. h, λ h. h)
      | inr e ↦ rw e (λ h. absurd (ground arith), λ h. absurd (ground arith))
    ]

corrections-Sub : (id : String) (a : Assessment) → Sub (corrections id a) a.corrects
corrections-Sub id a p h =
    (and_parts (text_eq a.input_id id && text_eq a.disposition "changed") _
      ((Has-correction id p a).0 h)).1

amended_prior_only : (o : Option Input) (p : String) → Has (amended_prior o) p → amends_of o ≡ p
amended_prior_only none p h = absurd (ground arith)
amended_prior_only (some x) p h = elim (Has-cases x.amends [] p h) [
  | inl e ↦ e
  | inr k ↦ absurd (ground arith)
]

amended_prior-Has :
    (o : Option Input) (p : String) → is_empty p ≡ false → amends_of o ≡ p → Has (amended_prior o) p
amended_prior-Has none p ne e = absurd (let k = rw (sym e) at ne in ground (arith, text_eq_self ""))
amended_prior-Has (some x) p ne e = rw e (Has-head p [])

-- The identities that `visit` goes on to are the priors.
pub priors-Prior : (s : State) (id p : String) → Has (priors s id) p → Prior s id p
unfolding priors amended_by explicitly_corrects
priors-Prior s id p h =
    elim (Has-append_cases (amended_prior (first (λ x. text_eq x.id id) s.inputs)) _ p h) [
      | inl i ↦ inl (amended_prior_only _ p i)
      | inr j ↦ inr ((Has-concat_map (corrections id) _ p s.assessments (Has-correction id p)).0 j)
    ]

pub Prior-priors :
    (s : State) (id p : String) → is_empty p ≡ false → Prior s id p → Has (priors s id) p
unfolding priors amended_by explicitly_corrects
Prior-priors s id p ne (inl e) =
    Has-append_left _ _ p (amended_prior-Has (first (λ x. text_eq x.id id) s.inputs) p ne e)
Prior-priors s id p ne (inr e) =
    Has-append_right (amended_prior (first (λ x. text_eq x.id id) s.inputs)) _ p
      ((Has-concat_map (corrections id) _ p s.assessments (Has-correction id p)).1 e)

amended_prior-Sub :
    (id : String) (inputs : List Input)
    → Sub
        (amended_prior (first (λ x. text_eq x.id id) inputs))
        (concat_map (λ x. x.amends ∷ []) inputs)
amended_prior-Sub id [] p h = h
amended_prior-Sub id (x ∷ xs) p h = elim (Bool-cases (text_eq x.id id)) [
  | inl e ↦ Has-append_left (x.amends ∷ []) _ p (rw e at h)
  | inr e ↦ Has-append_right (x.amends ∷ []) _ p (amended_prior-Sub id xs p (rw e at h))
]

-- A prior is the end of an edge.
pub priors-Sub : (s : State) (id : String) → Sub (priors s id) (edge_ends s)
unfolding priors
priors-Sub s id p h =
    elim (Has-append_cases (amended_prior (first (λ x. text_eq x.id id) s.inputs)) _ p h) [
      | inl i ↦ Has-append_left _ _ p (amended_prior-Sub id s.inputs p i)
      | inr j ↦
          Has-append_right (concat_map (λ x. x.amends ∷ []) s.inputs) _ p (
            concat_map-Sub (corrections id) (λ a. a.corrects) s.assessments (corrections-Sub id) p
              j)
    ]

-- ===== src/Collaboration/Evidence/Reach.antt =====
-- The lineage of evidence, and the inputs that amendments and corrections lead to.
use omnigrex.Prelude.{
  ℕ, zero, suc, ◌<◌, String, true, false, List, [], ◌∷◌, ◌||◌, ◌≡◌, refl, sym, ◌∙◌, ap, ◌⊎◌, inl,
  inr, ◌↔◌, arith, Bool-cases, contains, is_empty, length, Has, Sub, Has-head, Has-tail, Has-cases,
  or_cases, unseen, unseen_le, unseen_lt, unseen_nil, or_false,
}
use omnigrex.Collaboration.Model.States.{State}
use omnigrex.Collaboration.Evidence.Lineage.{priors, through, visit, edge_ends, evidence_lineage}
use omnigrex.Collaboration.Evidence.Priors.{Prior, Reaches, priors-Prior, Prior-priors, priors-Sub}

-- What a traversal of a list finds was seen before or is found from an element.
through-found :
    (R : String → String → Type 0) (f : List String → String → List String)
    → ((seen : List String) (id x : String) → Has (f seen id) x → Has seen x ⊎ R id x)
    → (seen ids : List String) (x : String) → Has (through f seen ids) x
    → Has seen x ⊎ ((p : String) × Has ids p × R p x)
through-found R f h seen [] x k = inl k
through-found R f h seen (p ∷ ids) x k = elim (through-found R f h (f seen p) ids x k) [
  | inl i ↦ elim (h seen p x i) [ inl a ↦ inl a | inr r ↦ inr (p, Has-head p ids, r) ]
  | inr (q, m, r) ↦ inr (q, Has-tail p ids q m, r)
]

visit_stop :
    (k : ℕ) (s : State) (seen : List String) (id : String)
    → (is_empty id || contains seen id) ≡ true
    → visit (suc k) (priors s) seen id ≡ seen
unfolding visit
visit_stop k s seen id e = rw (e, visit) refl

visit_go :
    (k : ℕ) (s : State) (seen : List String) (id : String)
    → (is_empty id || contains seen id) ≡ false
    → visit (suc k) (priors s) seen id ≡ through (visit k (priors s)) (id ∷ seen) (priors s id)
unfolding visit
visit_go k s seen id e = rw (e, visit) refl

visit-Reaches :
    (k : ℕ) (s : State) (seen : List String) (id x : String)
    → Has (visit k (priors s) seen id) x
    → Has seen x ⊎ Reaches s id x
unfolding visit
visit-Reaches zero s seen id x h = inl h
visit-Reaches (suc k) s seen id x h = elim (Bool-cases (is_empty id || contains seen id)) [
  | inl e ↦ inl (rw (visit_stop k s seen id e) at h)
  | inr e ↦
      let (ne, _) = or_false _ _ e in
      elim (through-found (Reaches s) (visit k (priors s)) (visit-Reaches k s) (id ∷ seen)
        (priors s id) x (rw (visit_go k s seen id e) at h)) [
          | inl i ↦ elim (Has-cases id seen x i) [
            | inl q ↦ inr (rw (sym q) (Reaches.here ne))
            | inr j ↦ inl j
          ]
          | inr (p, m, r) ↦ inr (Reaches.next ne (priors-Prior s id p m) r)
        ]
]

-- Every new element has its priors in `res`.
abbrev Closed : State → List String → List String → Type 0
Closed s seen res =
    (x : String)
    → Has res x
    → Has seen x ⊎ ((p : String) → is_empty p ≡ false → Prior s x p → Has res p)

-- What a traversal from `ids` gives.
abbrev Complete : State → List String → List String → List String → Type 0
Complete s seen ids res =
    Sub seen res × ((p : String) → Has ids p → is_empty p ≡ false → Has res p) × Closed s seen res

Closed-trans :
    (s : State) (seen more res : List String)
    → Sub more res
    → Closed s seen more
    → Closed s more res
    → Closed s seen res
Closed-trans s seen more res sub c d x h = elim (d x h) [
  | inl i ↦ elim (c x i) [ inl j ↦ inl j | inr k ↦ inr λ p ne r. sub p (k p ne r) ]
  | inr k ↦ inr k
]

abbrev Visits : State → List String → ℕ → (List String → String → List String) → Type 0
Visits s ends k f =
    (seen : List String) (id : String)
    → unseen seen ends < k
    → Has ends id
    → Complete s seen (id ∷ []) (f seen id)

through-Complete :
    (s : State) (ends : List String) (k : ℕ) (f : List String → String → List String)
    → Visits s ends k f
    → (seen ids : List String) → unseen seen ends < k
    → Sub ids ends
    → Complete s seen ids (through f seen ids)
through-Complete s ends k f h seen [] lt sub =
    (λ x m. m, λ p m _. absurd (ground arith), λ x m. inl m)
through-Complete s ends k f h seen (q ∷ ids) lt sub =
    let (keeps, finds, closed) = h seen q lt (sub q (Has-head q ids)) in
    let le = unseen_le seen (f seen q) ends keeps in
    let (keeps', finds', closed') =
      through-Complete s ends k f h (f seen q) ids (omega arith)
        (λ x m. sub x (Has-tail q ids x m)) in
    (
      λ x m. keeps' x (keeps x m),
      λ p m ne. elim (Has-cases q ids p m) [
        | inl e ↦ keeps' p (finds p (rw e (Has-head p [])) ne)
        | inr j ↦ finds' p j ne
      ],
      Closed-trans s seen (f seen q) _ keeps' closed closed',
    )

visit-Visits :
    (s : State) (ends : List String)
    → ((id : String) → Sub (priors s id) ends)
    → (k : ℕ) → Visits s ends k (visit k (priors s))
visit-Visits s ends sub zero seen id lt m = absurd (omega arith)
visit-Visits s ends sub (suc k) seen id lt m = elim (Bool-cases (is_empty id || contains seen id)) [
  | inl e ↦ rw (visit_stop k s seen id e) (
    λ x h. h,
    λ p h ne. elim (Has-cases id [] p h) [
      | inl q ↦ elim (or_cases (is_empty id) (contains seen id) e) [
        | inl none_given ↦ absurd (let b = sym none_given ∙ ap is_empty q ∙ ne in ground arith)
        | inr old ↦ rw (sym q) old
      ]
      | inr j ↦ absurd (ground arith)
    ],
    λ x h. inl h,
  )
  | inr e ↦
      let less = unseen_lt seen ends id m (or_false _ _ e).1 in
      let (keeps, finds, closed) =
        through-Complete s ends k (visit k (priors s)) (visit-Visits s ends sub k) (id ∷ seen)
          (priors s id) (omega arith) (sub id) in
      rw (visit_go k s seen id e) (
        λ x h. keeps x (Has-tail id seen x h),
        λ p h ne. elim (Has-cases id [] p h) [
          | inl q ↦ rw (sym q) (keeps id (Has-head id seen))
          | inr j ↦ absurd (ground arith)
        ],
        λ x h. elim (closed x h) [
          | inl i ↦ elim (Has-cases id seen x i) [
            | inl q ↦ inr λ p ne r. finds p (Prior-priors s id p ne (rw (sym q) at r)) ne
            | inr j ↦ inl j
          ]
          | inr n ↦ inr n
        ],
      )
]

Reaches-source : (s : State) {id x : String} → Reaches s id x → is_empty id ≡ false
Reaches-source s (Reaches.here ne) = ne
Reaches-source s (Reaches.next ne _ _) = ne

lineage-Closed :
    (s : State) (res : List String)
    → Closed s [] res
    → {id x : String} → Reaches s id x
    → Has res id
    → Has res x
lineage-Closed s res c (Reaches.here ne) h = h
lineage-Closed s res c (Reaches.next {id} {p} ne r rs) h = elim (c id h) [
  | inl i ↦ absurd (ground arith)
  | inr k ↦ lineage-Closed s res c rs (k p (Reaches-source s rs) r)
]

-- The lineage of an input is exactly the set of the identities that a chain of amendments and assessed
-- corrections leads to from it, itself included. So the depth given to the traversal is always enough,
-- whatever the State, cycles of corrections included.
pub evidence_lineage-Reaches :
    (s : State) (id x : String) → Has (evidence_lineage s id) x ↔ Reaches s id x
unfolding evidence_lineage
evidence_lineage-Reaches s id x =
    let ends = id ∷ edge_ends s in
    let count = unseen_nil ends in
    let (keeps, finds, closed) =
      visit-Visits s ends (λ i p h. Has-tail id _ p (priors-Sub s i p h))
        (suc (suc (length (edge_ends s)))) [] id (omega arith) (Has-head id _) in
    (
      λ h. elim (visit-Reaches (suc (suc (length (edge_ends s)))) s [] id x h) [
        | inl i ↦ absurd (ground arith)
        | inr r ↦ r
      ],
      λ r. lineage-Closed s _ closed r (finds id (Has-head id []) (Reaches-source s r)),
    )

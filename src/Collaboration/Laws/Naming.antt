-- ===== src/Collaboration/Laws/Naming.antt =====
-- The permanent names of internal/collaboration/references.go.
use text.Mathlib.TextLemmas.{append_cancel_left}
use omnigrex.Prelude.{
  ℕ, ◌+◌, ◌<◌, String, Bool, false, List, [], none, some, ◌&&◌, ◌≡◌, refl, sym, ◌∙◌, arith,
  Bool-cases, Option-cases, and_parts, text_eq, text_eq→≡, text_eq_self, length, filter, first,
  snoc, decimal, decimal_injective, append, first-snoc_found, first-snoc-none, length-filter-snoc,
  inl, inr,
}
use mathlib.Core.Option.{some-injective}
use omnigrex.Collaboration.Model.Records.{Reference}
use omnigrex.Collaboration.Model.States.{State}
use omnigrex.Collaboration.References.{
  of_kind, find_reference, next_name, name_for, references_with, reference, target,
}

abbrev has_name : String → String → Reference → Bool
has_name kind name r = text_eq r.kind kind && text_eq r.name name

abbrev count_of : String → List Reference → ℕ
count_of kind refs = length (filter (of_kind kind) refs)

-- The numbers after the count are free, and a name leads to the identity that it was given to.
pub record Named (refs : List Reference) : Type 0 where
  pub free :
      (kind : String) (n : ℕ)
      → count_of kind refs < n
      → first (has_name kind (append kind (decimal n))) refs ≡ none
  pub found :
      (kind id : String) (r : Reference)
      → find_reference kind id refs ≡ some r
      → (t : Reference) × (first (has_name kind r.name) refs ≡ some t) × (t.id ≡ id)

numbered_ne :
    (kind : String) (m n : ℕ)
    → m < n
    → text_eq (append kind (decimal m)) (append kind (decimal n)) ≡ false
numbered_ne kind m n lt =
    elim (Bool-cases (text_eq (append kind (decimal m)) (append kind (decimal n)))) [
      | inl e ↦
          let same = decimal_injective m n (append_cancel_left kind _ _ (text_eq→≡ _ _ e)) in
          absurd (omega arith)
      | inr e ↦ e
    ]

pub Named-nil : Named []
unfolding find_reference
Named-nil = record { free = λ kind n lt. refl; found = λ kind id r e. absurd (ground arith) }

-- The reference that is allocated.
abbrev pub allocated : String → String → List Reference → Reference
allocated kind id refs = record { name = next_name kind refs; id = id; kind = kind }

allocated-free :
    (kind id : String) (refs : List Reference)
    → Named refs
    → (k : String) (n : ℕ) → count_of k (snoc refs (allocated kind id refs)) < n
    → first (has_name k (append k (decimal n))) (snoc refs (allocated kind id refs)) ≡ none
allocated-free kind id refs named k n lt =
    let r = allocated kind id refs in
    let p = has_name k (append k (decimal n)) in
    let count = length-filter-snoc (of_kind k) refs r in
    elim (Bool-cases (text_eq kind k)) [
      | inl e ↦
          let more = rw e at count in
          let gone = first-snoc-none p refs r (named.free k n (omega arith)) in
          let other = numbered_ne k (count_of k refs + 1) n (omega arith) in
          gone ∙ rw (text_eq→≡ kind k e, text_eq_self k, other) refl
      | inr e ↦
          let same = rw e at count in
          first-snoc-none p refs r (named.free k n (omega arith)) ∙ rw e refl
    ]

allocated-found :
    (kind id : String) (refs : List Reference)
    → Named refs
    → find_reference kind id refs ≡ none
    → (k i : String) (r : Reference)
    → find_reference k i (snoc refs (allocated kind id refs)) ≡ some r
    → (t : Reference) × (first (has_name k r.name) (snoc refs (allocated kind id refs)) ≡ some t)
      × (t.id ≡ i)
unfolding find_reference
allocated-found kind id refs named absent k i r e =
    let new = allocated kind id refs in
    elim (Option-cases (find_reference k i refs)) [
      | inr (old, h) ↦
          let same = some-injective old r (sym (first-snoc_found _ refs new h) ∙ e) in
          let (t, at_name, at_id) = named.found k i old h in
          (t, rw (sym same) (first-snoc_found _ refs new at_name), at_id)
      | inl h ↦
          let last_one =
            sym (first-snoc-none (λ x. text_eq x.kind k && text_eq x.id i) refs new h) ∙ e in
          elim (Bool-cases (text_eq kind k && text_eq id i)) [
            | inl m ↦
                let (mk, mi) = and_parts (text_eq kind k) (text_eq id i) m in
                let same = some-injective new r (rw m at last_one) in
                let free = named.free kind (count_of kind refs + 1) (omega arith) in
                (
                  new,
                  rw (sym same, sym (text_eq→≡ kind k mk))
                      (first-snoc-none (has_name kind new.name) refs new free
                        ∙ rw (text_eq_self kind, text_eq_self new.name) refl),
                  text_eq→≡ id i mi,
                )
            | inr m ↦ absurd (let z = rw m at last_one in ground arith)
          ]
    ]

references_old :
    (kind id : String) (refs : List Reference) {r : Reference}
    → find_reference kind id refs ≡ some r
    → (references_with kind id refs ≡ refs) × (name_for kind id refs ≡ r.name)
unfolding references_with name_for
references_old kind id refs e = rw (e, references_with, name_for) (refl, refl)

references_new :
    (kind id : String) (refs : List Reference)
    → find_reference kind id refs ≡ none
    → (references_with kind id refs ≡ snoc refs (allocated kind id refs))
      × (name_for kind id refs ≡ next_name kind refs)
unfolding references_with name_for
references_new kind id refs e = rw (e, references_with, name_for) (refl, refl)

pub reference-Named :
    (s : State) (kind id : String) → Named s.references → Named (reference s kind id).1.references
unfolding reference
reference-Named s kind id named = elim (Option-cases (find_reference kind id s.references)) [
  | inr (r, e) ↦ rw ((references_old kind id s.references e).0) named
  | inl e ↦ rw ((references_new kind id s.references e).0) (record {
    free = allocated-free kind id s.references named;
    found = allocated-found kind id s.references named e;
  })
]

found_in_new :
    (kind id : String) (refs : List Reference)
    → find_reference kind id refs ≡ none
    → find_reference kind id (snoc refs (allocated kind id refs)) ≡ some (allocated kind id refs)
unfolding find_reference
found_in_new kind id refs e =
    first-snoc-none (λ x. text_eq x.kind kind && text_eq x.id id) refs (allocated kind id refs) e
    ∙ rw (text_eq_self kind, text_eq_self id) refl

find_reference-snoc :
    (k i : String) (refs : List Reference) (x : Reference) {r : Reference}
    → find_reference k i refs ≡ some r
    → find_reference k i (snoc refs x) ≡ some r
unfolding find_reference
find_reference-snoc k i refs x e = first-snoc_found _ refs x e

-- What `reference` found or allocated is found afterwards.
pub reference_found :
    (s : State) (kind id : String)
    → (r : Reference) × (find_reference kind id (reference s kind id).1.references ≡ some r)
      × (r.name ≡ (reference s kind id).0)
unfolding reference
reference_found s kind id = elim (Option-cases (find_reference kind id s.references)) [
  | inr (r, e) ↦
      let (same, name) = references_old kind id s.references e in (r, rw same e, sym name)
  | inl e ↦
      let (more, name) = references_new kind id s.references e in
      (allocated kind id s.references, rw more (found_in_new kind id s.references e), sym name)
]

pub target_found :
    (s : State) (kind id : String) (r : Reference)
    → Named s.references
    → find_reference kind id s.references ≡ some r
    → target s kind r.name ≡ id
unfolding target
target_found s kind id r named e =
    let (t, at_name, at_id) = named.found kind id r e in rw (at_name, target) at_id

-- `reference` keeps the names given before.
pub reference_keeps :
    (s : State) (kind id k i : String) (r : Reference)
    → find_reference k i s.references ≡ some r
    → find_reference k i (reference s kind id).1.references ≡ some r
unfolding reference
reference_keeps s kind id k i r e = elim (Option-cases (find_reference kind id s.references)) [
  | inr (t, f) ↦ rw ((references_old kind id s.references f).0) e
  | inl f ↦
      rw ((references_new kind id s.references f).0) (find_reference-snoc k i s.references _ e)
]

-- ===== src/Collaboration/Laws/RoundSound.antt =====
-- Request, Publish, FailPublication and Resolve, and the shape of the State.
use omnigrex.Prelude.{
  ℕ, ◌≤◌, String, Bool, true, false, not, List, [], ◌∷◌, none, some, ◌||◌, ◌≡◌, refl, ◌∙◌, inl, inr,
  arith, Bool-cases, and_parts, all, any, is_empty, length, filter, first, map, text_eq, snoc,
  update_first, update_all, or_cases, or_left, or_right, or_false, Gives, option-Gives, if-Gives,
  either, any-snoc, any_weaken, inc_64, length-filter-snoc, any-update_all, any-update_first,
  any-update_first_new, length-update_first, first-update_all, length-update_all,
}
use omnigrex.Collaboration.Model.Records.{Round, Question, Resolution, Source}
use omnigrex.Collaboration.Model.States.{State}
use omnigrex.Collaboration.Rounds.{
  is_open, request, request_refused, publish, supersede, fail_publication, same_delivery,
}
use omnigrex.Collaboration.Interpreting.Resolving.{
  resolve, apply_resolution, apply_resolutions, freeze, still_asks, record_resolution, was_prepared,
  resolutions_valid,
}
use omnigrex.Collaboration.Evidence.Currency.{resolution_current}
use omnigrex.Collaboration.Laws.Naming.{reference-Named}
use omnigrex.Collaboration.Laws.Sound.{Sound, Frontier, is_frontier}

-- A change of rounds that neither opens one nor takes back a publication.
abbrev Harmless : (Round → Round) → Type 0
Harmless f =
    ((x : Round) → (f x).id ≡ x.id)
    × ((x : Round) → x.published ≡ true → (f x).published ≡ true)
    × ((x : Round) → is_open x ≡ false → is_open (f x) ≡ false)

is_frontier_kept :
    (f : Round → Round) (c : String)
    → Harmless f
    → (x : Round) → is_frontier c x ≡ true
    → is_frontier c (f x) ≡ true
is_frontier_kept f c (same, keeps, _) x h =
    let (a, b) = and_parts (text_eq x.id c) x.published h in rw (same x, a) (keeps x b)

Frontier-update_first :
    (p : Round → Bool) (f : Round → Round) (c : String) (rounds : List Round)
    → Harmless f
    → Frontier c rounds
    → Frontier c (update_first p f rounds)
Frontier-update_first p f c rounds h fr = record {
  published = elim (or_cases (is_empty c) _ fr.published) [
    | inl a ↦ or_left _ _ a
    | inr b ↦
        or_right (is_empty c) _
          (any-update_first p f (is_frontier c) (is_frontier_kept f c h) rounds b)
  ];
  open_once =
      (let le = length-update_first p f is_open h.2 rounds in
        let once = fr.open_once in omega arith);
}

Frontier-update_all :
    (p : Round → Bool) (f : Round → Round) (c : String) (rounds : List Round)
    → Harmless f
    → Frontier c rounds
    → Frontier c (update_all p f rounds)
Frontier-update_all p f c rounds h fr = record {
  published = elim (or_cases (is_empty c) _ fr.published) [
    | inl a ↦ or_left _ _ a
    | inr b ↦
        or_right (is_empty c) _
          (any-update_all p f (is_frontier c) (is_frontier_kept f c h) rounds b)
  ];
  open_once =
      (let le = length-update_all p f is_open h.2 rounds in let once = fr.open_once in omega arith);
}

none_open : (rounds : List Round) → any is_open rounds ≡ false → length (filter is_open rounds) ≡ 0
none_open [] h = refl
none_open (r ∷ rounds) h = let (a, b) = or_false (is_open r) _ h in rw a (none_open rounds b)

Frontier-snoc :
    (c : String) (rounds : List Round) (r : Round)
    → any is_open rounds ≡ false
    → Frontier c rounds
    → Frontier c (snoc rounds r)
Frontier-snoc c rounds r h fr = record {
  published = elim (or_cases (is_empty c) _ fr.published) [
    | inl a ↦ or_left _ _ a
    | inr b ↦ or_right (is_empty c) _ (any-snoc (is_frontier c) rounds r ∙ or_left _ _ b)
  ];
  open_once =
      (let zero_before = none_open rounds h in
        let after = length-filter-snoc is_open rounds r in
        elim (Bool-cases (is_open r)) [
          | inl k ↦ let e = rw k at after in omega arith
          | inr k ↦ let e = rw k at after in omega arith
        ]);
}

no_open_round :
    (s : State) (id participant turn : String) (questions : List Question)
    → request_refused s id participant turn questions ≡ false
    → any is_open s.rounds ≡ false
unfolding request_refused
no_open_round s id participant turn questions h =
    any_weaken _ (λ r. text_eq r.id id) s.rounds (ground arith)

pub request-Sound :
    (s : State) (id participant turn head : String) (questions : List Question)
    → Sound s
    → Gives (λ (_, next). Sound next) (request s id participant turn head questions)
unfolding request
request-Sound s id participant turn head questions h =
    if-Gives (λ (_, next). Sound next) (request_refused s id participant turn questions) none _
      (λ _. tt)
      λ e. record {
        named = reference-Named s "R" id h.named;
        ordered = h.ordered;
        assigned = h.assigned;
        frontier =
            Frontier-snoc s.current_round s.rounds _
              (no_open_round s id participant turn questions e) h.frontier;
      }

pub fail_publication-Sound :
    (s : State) (id : String) → Sound s → Gives Sound (fail_publication s id)
unfolding fail_publication
fail_publication-Sound s id h = option-Gives Sound (first (λ r. text_eq r.id id) s.rounds) _ λ r e.
    if-Gives Sound r.published none _ (λ _. tt)
      λ _. record {
        named = h.named;
        ordered = h.ordered;
        assigned = h.assigned;
        frontier =
            Frontier-update_first _ _ s.current_round s.rounds
              (λ x. refl, λ x k. k, λ x k. ground arith) h.frontier;
      }

supersede-first :
    (s : State) (id : String) {r : Round}
    → first (λ x. text_eq x.id id) s.rounds ≡ some r
    → (t : Round) × (first (λ x. text_eq x.id id) (supersede s id s.rounds) ≡ some t)
supersede-first s id {r} e = elim (Bool-cases (is_empty s.current_round)) [
  | inl k ↦ rw k (r, e)
  | inr k ↦ rw k (
    _,
    first-update_all (λ x. text_eq x.id id) (λ x. text_eq x.id s.current_round)
        (λ x. record x { superseded_by = id }) (λ x. refl) s.rounds e,
  )
]

supersede_open :
    (s : State) (id : String)
    → length (filter is_open (supersede s id s.rounds)) ≤ length (filter is_open s.rounds)
supersede_open s id = elim (Bool-cases (is_empty s.current_round)) [
  | inl k ↦ rw k (omega arith)
  | inr k ↦ rw k (
      length-update_all (λ x. text_eq x.id s.current_round) (λ x. record x { superseded_by = id })
        is_open (λ x e. e) s.rounds)
]

Frontier-publish :
    (s : State) (id : String) (source : Source) {r : Round}
    → first (λ x. text_eq x.id id) s.rounds ≡ some r
    → Frontier s.current_round s.rounds
    → Frontier id (
        update_first
          (λ x. text_eq x.id id)
          (λ x. record x { published = true; source = some source })
          (supersede s id s.rounds))
Frontier-publish s id source e fr =
    let (t, there) = supersede-first s id e in
    let le = supersede_open s id in
    let less =
      length-update_first (λ x. text_eq x.id id)
        (λ x. record x { published = true; source = some source }) is_open (λ x k. refl)
        (supersede s id s.rounds) in
    record {
      published = or_right (is_empty id) _ (
          any-update_first_new (λ x. text_eq x.id id) _ (is_frontier id) (λ x k. rw k refl)
            (supersede s id s.rounds) there);
      open_once = (let once = fr.open_once in omega arith);
    }

pub publish-Sound :
    (s : State) (id : String) (source : Source) → Sound s → Gives Sound (publish s id source)
unfolding publish
publish-Sound s id source h = option-Gives Sound (first (λ r. text_eq r.id id) s.rounds) _ λ r e.
    if-Gives Sound r.publication_failed none _ (λ _. tt)
      λ _.
        if-Gives Sound r.published _ _
          (λ _. if-Gives Sound (same_delivery r.source source) (some s) none (λ _. h) (λ _. tt))
          λ _. record {
            named = h.named;
            ordered = h.ordered;
            assigned = h.assigned;
            frontier = Frontier-publish s id source e h.frontier;
          }

recorded : (x : Resolution) → Harmless (record_resolution x)
recorded x = (λ y. refl, λ y k. k, λ y k. k)

Frontier-apply_resolutions :
    (r : Round) (s : State) (resolutions : List Resolution)
    → Frontier s.current_round s.rounds
    → Frontier
        (apply_resolutions r s resolutions).current_round
        (apply_resolutions r s resolutions).rounds
unfolding apply_resolutions
Frontier-apply_resolutions r s [] fr = fr
Frontier-apply_resolutions r s (x ∷ xs) fr =
    let numbered = record x { sequence = inc_64 s.interpretation_sequence } in
    let added =
      Frontier-update_first (λ y. text_eq y.id r.id) (record_resolution numbered) s.current_round
        s.rounds (recorded numbered) fr in
    Frontier-apply_resolutions r (apply_resolution r s x) xs (
      either (Frontier s.current_round) (is_empty r.superseded_by) (λ _. added)
        λ _.
          Frontier-update_all (still_asks s r x.question_id) (record_resolution numbered)
            s.current_round _ (recorded numbered) added)

pub apply_resolutions-frame :
    (r : Round) (s : State) (resolutions : List Resolution)
    → (n : ℕ) × (rounds : List Round) × (apply_resolutions r s resolutions
        ≡ record s { interpretation_sequence = n; rounds = rounds })
unfolding apply_resolutions
apply_resolutions-frame r s [] = (s.interpretation_sequence, s.rounds, refl)
apply_resolutions-frame r s (x ∷ xs) = apply_resolutions-frame r (apply_resolution r s x) xs

apply_resolutions-Sound :
    (r : Round) (s : State) (resolutions : List Resolution)
    → Sound s
    → Sound (apply_resolutions r s resolutions)
apply_resolutions-Sound r s resolutions h =
    let (n, rounds, e) = apply_resolutions-frame r s resolutions in
    let fr = rw e at (Frontier-apply_resolutions r s resolutions h.frontier) in
    rw e (record { named = h.named; ordered = h.ordered; assigned = h.assigned; frontier = fr })

pub resolve-Sound :
    (s : State) (round turn : String) (resolutions : List Resolution)
    → Sound s
    → Gives Sound (resolve s round turn resolutions)
unfolding resolve
resolve-Sound s round turn resolutions h =
    option-Gives Sound (first (λ r. text_eq r.id round) s.rounds) _ λ r e.
      if-Gives Sound (not r.published || not (was_prepared s r.participant_id turn)) none _
        (λ _. tt)
        λ _.
          if-Gives Sound (not (resolutions_valid s r [] resolutions)) none _ (λ _. tt)
            λ _.
              if-Gives Sound (not (all (resolution_current s) (map (freeze s) resolutions))) none _
                (λ _. tt) λ _. apply_resolutions-Sound r s (map (freeze s) resolutions) h

-- ===== src/Collaboration/Laws/Freezing.antt =====
-- The batch of inputs that a Turn has, and the operations.
use omnigrex.Prelude.{
  not, sym, ltb, ◌||◌, ◌⊎◌, none, is_nil, first, either, if-Gives, update_first, Option-cases,
  String, Bool, true, false, List, [], ◌∷◌, ◌++◌, map, ◌≡◌, refl, ap, ◌∙◌, inl, inr, arith,
  Bool-cases, and_parts, all, any, is_empty, filter, text_eq, text_eq_self, text_eq→≡, snoc,
  update_all, or_left, or_right, or_false, any-snoc,
}
use omnigrex.Collaboration.Model.Records.{Input, Preparation, Command, Admission}
use omnigrex.Collaboration.Model.States.{State}
use omnigrex.Collaboration.Evidence.Currency.{is_undelivered}
use omnigrex.Collaboration.Inputs.Delivering.{
  is_waiting, deliver_to, is_prepared, new_preparation, prepare, is_delivery, mark_delivered,
}
use omnigrex.Collaboration.Laws.Sound.{is_assigned}
use omnigrex.Collaboration.Inputs.Projecting.{project, max_projection_bytes, is_projected, withhold}
use omnigrex.Collaboration.Inputs.Accepting.{
  Verdict, check_input, new_input, same_source, settle_input, accept,
}
use omnigrex.Collaboration.References.{reference}
use omnigrex.Collaboration.Laws.Following.{IsStable}
use omnigrex.Collaboration.History.{Reachable, Reachable-Sound}

abbrev pub is_of : String → Input → Bool
is_of turn x = text_eq x.delivered_to turn

-- No input is assigned to a Turn that was not prepared.
none_assigned :
    (ps : List Preparation) (turn : String) (xs : List Input)
    → is_empty turn ≡ false
    → any (λ p. text_eq p.turn_id turn) ps ≡ false
    → all (is_assigned ps) xs ≡ true
    → any (is_of turn) xs ≡ false
none_assigned ps turn [] ne e h = refl
none_assigned ps turn (x ∷ xs) ne e h =
    let (a, b) = and_parts (is_assigned ps x) _ h in
    elim (Bool-cases (is_of turn x)) [
      | inl k ↦
          let same = text_eq→≡ x.delivered_to turn k in
          absurd (let bad = rw (same, ne, e) at a in ground arith)
      | inr k ↦ rw k (none_assigned ps turn xs ne e b)
    ]

filter_none :
    (turn : String) (xs : List Input) → any (is_of turn) xs ≡ false → filter (is_of turn) xs ≡ []
filter_none turn [] h = refl
filter_none turn (x ∷ xs) h =
    let (a, b) = or_false (is_of turn x) _ h in rw a (filter_none turn xs b)

filter_delivered :
    (participant turn : String) (xs : List Input)
    → any (is_of turn) xs ≡ false
    → filter (is_of turn) (update_all (is_waiting participant) (deliver_to turn) xs)
      ≡ map (deliver_to turn) (filter (is_waiting participant) xs)
filter_delivered participant turn [] h = refl
filter_delivered participant turn (x ∷ xs) h =
    let (a, b) = or_false (is_of turn x) _ h in
    let ih = filter_delivered participant turn xs b in
    elim (Bool-cases (is_waiting participant x)) [
      | inl k ↦ rw (k, text_eq_self turn) (ap (λ l. deliver_to turn x ∷ l) ih)
      | inr k ↦ rw (k, a) ih
    ]

pub prepare_first :
    (s : State) (participant turn : String)
    → is_prepared s turn ≡ false
    → prepare s participant turn ≡ (
      filter (is_of turn) s.inputs
          ++ map (deliver_to turn) (filter (is_waiting participant) s.inputs),
      record s {
        preparations = snoc s.preparations (new_preparation participant turn);
        inputs = update_all (is_waiting participant) (deliver_to turn) s.inputs;
      },
    )
unfolding prepare
prepare_first s participant turn e = rw (e, prepare) refl

pub prepare_again :
    (s : State) (participant turn : String)
    → is_prepared s turn ≡ true
    → prepare s participant turn ≡ (filter (is_of turn) s.inputs, s)
unfolding prepare
prepare_again s participant turn e = rw (e, prepare) refl

-- An input that is assigned to the Turn awaits no other delivery.
abbrev is_settled : String → Input → Bool
is_settled turn x = not (is_of turn x) || not x.delivery_pending

-- The batch of the Turn, once it is prepared.
abbrev pub Frozen : String → List Input → State → Type 0
Frozen turn batch s =
    (is_prepared s turn ≡ true)
    × (filter (is_of turn) s.inputs ≡ batch)
    × (all (is_settled turn) s.inputs ≡ true)

-- A change in place that leaves the settled inputs of the Turn, and assigns none to it.
record Unmoving (turn : String) (p : Input → Bool) (f : Input → Input) : Type 0 where
  same : (x : Input) → p x ≡ true → is_settled turn x ≡ true → is_of turn x ≡ true → f x ≡ x
  other : (x : Input) → p x ≡ true → is_of turn x ≡ false → is_of turn (f x) ≡ false

module _ (turn : String) (p : Input → Bool) (f : Input → Input) (u : Unmoving turn p f) where
  moved :
      (x : Input)
      → p x ≡ true
      → is_settled turn x ≡ true
      → (f x ≡ x) ⊎ ((is_of turn x ≡ false) × (is_of turn (f x) ≡ false))
  moved x k h = elim (Bool-cases (is_of turn x)) [
    | inl m ↦ inl (u.same x k h m)
    | inr m ↦ inr (m, u.other x k m)
  ]

  frozen-update_all :
      (xs : List Input)
      → all (is_settled turn) xs ≡ true
      → (filter (is_of turn) (update_all p f xs) ≡ filter (is_of turn) xs)
        × (all (is_settled turn) (update_all p f xs) ≡ true)
  frozen-update_all [] h = (refl, refl)
  frozen-update_all (x ∷ xs) h =
      let (a, b) = and_parts (is_settled turn x) (all (is_settled turn) xs) h in
      let (same, settled) = frozen-update_all xs b in
      elim (Bool-cases (p x)) [
        | inr k ↦ rw (k, same, a) (refl, settled)
        | inl k ↦ elim (moved x k a) [
          | inl e ↦ rw (k, e, same, a) (refl, settled)
          | inr (m, n) ↦ rw (k, m, n, same) (refl, settled)
        ]
      ]

  frozen-update_first :
      (xs : List Input)
      → all (is_settled turn) xs ≡ true
      → (filter (is_of turn) (update_first p f xs) ≡ filter (is_of turn) xs)
        × (all (is_settled turn) (update_first p f xs) ≡ true)
  frozen-update_first [] h = (refl, refl)
  frozen-update_first (x ∷ xs) h =
      let (a, b) = and_parts (is_settled turn x) (all (is_settled turn) xs) h in
      let (same, settled) = frozen-update_first xs b in
      elim (Bool-cases (p x)) [
        | inr k ↦ rw (k, same, a) (refl, settled)
        | inl k ↦ elim (moved x k a) [
          | inl e ↦ rw (k, e, a) (refl, b)
          | inr (m, n) ↦ rw (k, m, n) (refl, b)
        ]
      ]

filter-snoc_other :
    (turn : String) (xs : List Input) (x : Input)
    → is_of turn x ≡ false
    → (filter (is_of turn) (snoc xs x) ≡ filter (is_of turn) xs)
      × (all (is_settled turn) (snoc xs x) ≡ all (is_settled turn) xs)
filter-snoc_other turn [] x h = rw h (refl, refl)
filter-snoc_other turn (y ∷ xs) x h =
    let (same, settled) = filter-snoc_other turn xs x h in rw (same, settled) (refl, refl)

no_turn : (turn : String) → is_empty turn ≡ false → text_eq "" turn ≡ false
unfolding text_eq
no_turn turn h = elim (Bool-cases (text_eq "" turn)) [
  | inr k ↦ k
  | inl k ↦ absurd (let bad = rw (sym (text_eq→≡ "" turn k)) at h in ground arith)
]

test_false : (b : Bool) → not b ≡ true → b ≡ false
test_false b h = ground arith

other_turn :
    (x : Input) (turn other : String)
    → text_eq other turn ≡ false
    → is_of turn x ≡ true
    → text_eq x.delivered_to other ≡ false
other_turn x turn other ne m = elim (Bool-cases (text_eq x.delivered_to other)) [
  | inr k ↦ k
  | inl k ↦ absurd (
      let bad = rw (sym (text_eq→≡ x.delivered_to other k)) at ne in
      let now = rw m at bad in ground arith)
]

module _ (turn : String) (ne : is_empty turn ≡ false) where
  delivered-Unmoving :
      (participant other : String)
      → text_eq other turn ≡ false
      → Unmoving turn (is_waiting participant) (deliver_to other)
  unfolding is_undelivered
  delivered-Unmoving participant other d = record {
    same = λ x k h m.
        let e = text_eq→≡ x.delivered_to turn m in
        absurd (let full : is_empty x.delivered_to ≡ false = rw e ne in ground arith);
    other = λ x k m. d;
  }

  marked-Unmoving :
      (p : Input → Bool) → Unmoving turn p (λ x. record x { delivery_pending = false })
  marked-Unmoving p = record {
    same = λ x k h m.
        let settled : x.delivery_pending ≡ false = ground arith in
        ap (λ b. record x { delivery_pending = b }) (sym settled);
    other = λ x k m. m;
  }

  projected-Unmoving :
      (participant other : String)
      → text_eq other turn ≡ false
      → Unmoving turn (is_projected participant other) withhold
  projected-Unmoving participant other d = record {
    same = λ x k h m. absurd (
        let (_, here) = and_parts (text_eq x.participant_id participant) _ k in
        let away = other_turn x turn other d m in ground arith);
    other = λ x k m. m;
  }

  Frozen-settle_input :
      (batch : List Input) (s : State) (id : String) (c : Command) (a : Admission)
      (v : Verdict String)
      → Frozen turn batch s
      → Frozen turn batch (settle_input s id c a v).1
  unfolding settle_input reference new_input
  Frozen-settle_input batch s id c a (Verdict.refused m) h = h
  Frozen-settle_input batch s id c a (Verdict.granted round) (prepared, same, settled) =
      let (kept, all_settled) = filter-snoc_other turn s.inputs _ (no_turn turn ne) in
      (prepared, kept ∙ same, all_settled ∙ settled)

  prepare-Frozen :
      (batch : List Input) (s : State) (participant other : String)
      → Frozen turn batch s
      → Frozen turn batch (prepare s participant other).1
  prepare-Frozen batch s participant other (prepared, same, settled) =
      elim (Bool-cases (is_prepared s other)) [
        | inl e ↦ rw (prepare_again s participant other e) (prepared, same, settled)
        | inr e ↦
            let d : text_eq other turn ≡ false = elim (Bool-cases (text_eq other turn)) [
              | inr k ↦ k
              | inl k ↦
                  absurd (let bad = rw (text_eq→≡ other turn k, prepared) at e in ground arith)
            ] in
            let (kept, all_settled) =
              frozen-update_all turn (is_waiting participant) (deliver_to other)
                (delivered-Unmoving participant other d) s.inputs settled in
            rw (prepare_first s participant other e) (
              any-snoc (λ q. text_eq q.turn_id turn) s.preparations _ ∙ or_left _ _ prepared,
              kept ∙ same,
              all_settled,
            )
      ]

  pub Frozen-IsStable :
      (batch : List Input) → IsStable (λ other. not (text_eq other turn)) (Frozen turn batch)
  unfolding accept mark_delivered project reference
  Frozen-IsStable batch = record {
    framed = record { planned = λ s p h. h; named = λ s id p h. h; assessed = λ s as' p h. h };
    touched = λ s references rounds current n h. h;
    accepted = λ s id c a h. elim (Option-cases (first (same_source a.source) s.receipts)) [
      | inl e ↦ rw (e, accept) (Frozen-settle_input batch s id c a (check_input s id c a) h)
      | inr (r, e) ↦ rw (e, accept) h
    ];
    prepared = λ s participant other h. prepare-Frozen batch s participant other h;
    delivered = λ s participant other id (prepared, same, settled).
        let (kept, all_settled) =
          frozen-update_first turn (is_delivery participant other id) _ (marked-Unmoving _) s.inputs
            settled in
        if-Gives (Frozen turn batch) (is_nil (first (is_delivery participant other id) s.inputs))
          none _ (λ _. tt) λ _. (prepared, kept ∙ same, all_settled);
    projected = λ encoded_length s participant other d (prepared, same, settled).
        let (kept, all_settled) =
          frozen-update_all turn (is_projected participant other) withhold
            (projected-Unmoving participant other (test_false _ d)) s.inputs settled in
        either (Frozen turn batch) (ltb max_projection_bytes (encoded_length s participant other))
          (λ _. (prepared, kept ∙ same, all_settled)) λ _. (prepared, same, settled);
  }

  settled_first :
      (participant : String) (xs : List Input)
      → any (is_of turn) xs ≡ false
      → all (is_settled turn) (update_all (is_waiting participant) (deliver_to turn) xs) ≡ true
  settled_first participant [] h = refl
  settled_first participant (x ∷ xs) h =
      let (a, b) = or_false (is_of turn x) _ h in
      let ih = settled_first participant xs b in
      elim (Bool-cases (is_waiting participant x)) [
        | inl k ↦ rw (k, text_eq_self turn) ih
        | inr k ↦ rw (k, a) ih
      ]

  -- The first preparation freezes the batch that it returns.
  pub prepare_first-Frozen :
      (s : State) (participant : String)
      → Reachable s
      → is_prepared s turn ≡ false
      → Frozen turn ((prepare s participant turn).0) ((prepare s participant turn).1)
  prepare_first-Frozen s participant r e =
      let none_yet = none_assigned s.preparations turn s.inputs ne e (Reachable-Sound r).assigned in
      rw (prepare_first s participant turn e) (
        any-snoc (λ p. text_eq p.turn_id turn) s.preparations (new_preparation participant turn)
            ∙ or_right (is_prepared s turn) _ (text_eq_self turn),
        rw (filter_none turn s.inputs none_yet)
            (filter_delivered participant turn s.inputs none_yet),
        settled_first participant s.inputs none_yet,
      )

-- ===== src/Collaboration/Laws/InputSound.antt =====
-- Accept, Prepare and MarkDelivered, and the shape of the State.
use omnigrex.Prelude.{
  ℕ, ltb, either, String, true, List, [], none, ◌||◌, ◌≡◌, refl, sym, ◌∙◌, inl, inr, arith,
  Bool-cases, Option-cases, any, contains, is_empty, is_nil, first, text_eq, text_eq→≡,
  text_eq_self, snoc, or_cases, or_left, or_right, Gives, if-Gives, either, any-snoc, all-snoc,
  first-any, all-update_all, all-update_first, all_mono,
}
use omnigrex.Collaboration.Model.Records.{Input, Preparation, Command, Admission}
use omnigrex.Collaboration.Model.States.{State}
use omnigrex.Collaboration.References.{reference}
use omnigrex.Collaboration.Inputs.Accepting.{
  Verdict, ◌>>=◌, check_admission, check_command, check_amend, check_input, command_target,
  new_input, same_source, check_body, settle_input, accept,
}
use omnigrex.Collaboration.Inputs.Projecting.{project, max_projection_bytes, is_projected, withhold}
use omnigrex.Collaboration.Inputs.Delivering.{
  is_waiting, is_delivery, deliver_to, is_prepared, new_preparation, prepare, mark_delivered,
}
use omnigrex.Collaboration.Laws.Naming.{reference-Named}
use omnigrex.Collaboration.Laws.Sound.{
  Sound, is_assigned, in_order-snoc, in_order-update_all, in_order-update_first,
}

pub bind_granted {ℓ κ} :
    {A : Type ℓ} {B : Type κ} (m : Verdict A) (f : A → Verdict B) {b : B}
    → (m >>= f) ≡ Verdict.granted b
    → (a : A) × (m ≡ Verdict.granted a) × (f a ≡ Verdict.granted b)
bind_granted (Verdict.granted a) f e = (a, refl, e)
bind_granted (Verdict.refused m) f e = absurd (ground arith)

-- The parts of a command that is granted.
pub check_input_granted :
    (s : State) (id : String) (c : Command) (a : Admission) {round : String}
    → check_input s id c a ≡ Verdict.granted round
    → (check_admission s id a ≡ Verdict.granted tt) × (check_command s c a ≡ Verdict.granted round)
unfolding check_input
check_input_granted s id c a e =
    let (_, ok, rest) = bind_granted (check_admission s id a) _ e in
    let (r, command, body) = bind_granted (check_command s c a) _ rest in
    let (_, _, same) = bind_granted (check_body c) (λ _. Verdict.granted r) body in
    (ok, command ∙ same)

check_command_amend :
    (s : State) (c : Command) (a : Admission)
    → c.kind ≡ "amend"
    → check_command s c a ≡ check_amend s (command_target s c) a
unfolding check_command text_eq
check_command_amend s c a e = rw (e, check_command) refl

check_amend_found :
    (s : State) (id : String) (a : Admission) {round : String}
    → check_amend s id a ≡ Verdict.granted round
    → any (λ x. text_eq x.id id) s.inputs ≡ true
unfolding check_amend
check_amend_found s id a e = elim (Option-cases (first (λ x. text_eq x.id id) s.inputs)) [
  | inl k ↦ absurd (let z = rw (k, check_amend) at e in ground arith)
  | inr (x, k) ↦ first-any (λ x. text_eq x.id id) s.inputs k
]

amends_earlier :
    (s : State) (id name round : String) (c : Command) (a : Admission)
    → check_input s id c a ≡ Verdict.granted round
    → (is_empty (new_input s name id round c a).amends
        || (contains [] (new_input s name id round c a).amends
            || any (λ y. text_eq y.id (new_input s name id round c a).amends) s.inputs))
      ≡ true
unfolding new_input
amends_earlier s id name round c a e =
    either (λ t. (is_empty t || (contains [] t || any (λ y. text_eq y.id t) s.inputs)) ≡ true)
      (text_eq c.kind "amend")
      (λ k.
        let command = (check_input_granted s id c a e).1 in
        let checked = sym (check_command_amend s c a (text_eq→≡ c.kind "amend" k)) ∙ command in
        or_right (is_empty (command_target s c)) _
          (check_amend_found s (command_target s c) a checked))
      λ _. or_left _ _ (text_eq_self "")

settle_input-Sound :
    (s : State) (id : String) (c : Command) (a : Admission) (v : Verdict String)
    → check_input s id c a ≡ v
    → Sound s
    → Sound (settle_input s id c a v).1
unfolding settle_input
settle_input-Sound s id c a (Verdict.refused m) e h = record {
  named = h.named;
  ordered = h.ordered;
  assigned = h.assigned;
  frontier = h.frontier;
}
settle_input-Sound s id c a (Verdict.granted round) e h =
    let name = (reference s "A" id).0 in
    record {
      named = reference-Named s "A" id h.named;
      ordered =
          in_order-snoc [] s.inputs (new_input s name id round c a) h.ordered
            (amends_earlier s id name round c a e);
      assigned =
          all-snoc (is_assigned s.preparations) s.inputs (new_input s name id round c a)
          ∙ rw h.assigned (or_left _ _ (text_eq_self ""));
      frontier = h.frontier;
    }

pub accept-Sound :
    (s : State) (id : String) (c : Command) (a : Admission) → Sound s → Sound (accept s id c a).1
unfolding accept
accept-Sound s id c a h = elim (Option-cases (first (same_source a.source) s.receipts)) [
  | inl e ↦ rw (e, accept) (settle_input-Sound s id c a (check_input s id c a) refl h)
  | inr (old, e) ↦ rw (e, accept) h
]

assigned_more :
    (ps : List Preparation) (p : Preparation) (x : Input)
    → is_assigned ps x ≡ true
    → is_assigned (snoc ps p) x ≡ true
assigned_more ps p x h = elim (or_cases (is_empty x.delivered_to) _ h) [
  | inl a ↦ or_left _ _ a
  | inr b ↦
      or_right (is_empty x.delivered_to) _
        (any-snoc (λ q. text_eq q.turn_id x.delivered_to) ps p ∙ or_left _ _ b)
]

assigned_new :
    (ps : List Preparation) (participant turn : String) (x : Input)
    → is_assigned (snoc ps (new_preparation participant turn)) (deliver_to turn x) ≡ true
assigned_new ps participant turn x = or_right (is_empty turn) _ (
    any-snoc (λ q. text_eq q.turn_id turn) ps _
    ∙ or_right (any (λ q. text_eq q.turn_id turn) ps) _ (text_eq_self turn))

pub prepare-Sound :
    (s : State) (participant turn : String) → Sound s → Sound (prepare s participant turn).1
unfolding prepare
prepare-Sound s participant turn h =
    let p = new_preparation participant turn in
    elim (Bool-cases (is_prepared s turn)) [
      | inl e ↦ rw (e, prepare) h
      | inr e ↦
          rw (e, prepare)
            (record {
              named = h.named;
              ordered =
                  in_order-update_all (is_waiting participant) (deliver_to turn) (λ x. refl)
                    (λ x. refl) [] s.inputs h.ordered;
              assigned =
                  all-update_all (is_waiting participant) (deliver_to turn)
                    (is_assigned (snoc s.preparations p))
                    (λ x _. assigned_new s.preparations participant turn x) s.inputs
                    (all_mono (is_assigned s.preparations) (is_assigned (snoc s.preparations p))
                      s.inputs (assigned_more s.preparations p) h.assigned);
              frontier = h.frontier;
            })
    ]

pub mark_delivered-Sound :
    (s : State) (participant turn id : String)
    → Sound s
    → Gives Sound (mark_delivered s participant turn id)
unfolding mark_delivered
mark_delivered-Sound s participant turn id h =
    if-Gives Sound (is_nil (first (is_delivery participant turn id) s.inputs)) none _ (λ _. tt)
      λ _. record {
        named = h.named;
        ordered =
            in_order-update_first (is_delivery participant turn id) _ (λ x. refl) (λ x. refl) []
              s.inputs h.ordered;
        assigned =
            all-update_first (is_delivery participant turn id) _ (is_assigned s.preparations)
              (λ x k. k) s.inputs h.assigned;
        frontier = h.frontier;
      }

pub project-Sound :
    (encoded_length : State → String → String → ℕ) (s : State) (participant turn : String)
    → Sound s
    → Sound (project encoded_length s participant turn)
unfolding project
project-Sound encoded_length s participant turn h =
    either Sound (ltb max_projection_bytes (encoded_length s participant turn))
      (λ _. record {
        named = h.named;
        ordered =
            in_order-update_all (is_projected participant turn) withhold (λ x. refl) (λ x. refl) []
              s.inputs h.ordered;
        assigned =
            all-update_all (is_projected participant turn) withhold (is_assigned s.preparations)
              (λ x k. k) s.inputs h.assigned;
        frontier = h.frontier;
      })
      λ _. h

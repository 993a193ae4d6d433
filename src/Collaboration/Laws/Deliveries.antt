-- ===== src/Collaboration/Laws/Deliveries.antt =====
-- The batch of inputs that Prepare freezes for a Turn.
use omnigrex.Prelude.{
  not, String, Bool, true, false, List, [], ◌∷◌, map, ◌&&◌, ◌≡◌, refl, ap, ◌∙◌, inl, inr, arith,
  Bool-cases, any, is_empty, filter, text_eq, text_eq_self, update_all, or_cases, or_left, or_right,
  any_append_right,
}
use omnigrex.Collaboration.Model.Records.{Input}
use omnigrex.Collaboration.Model.States.{State}
use omnigrex.Collaboration.Evidence.Currency.{pending, is_undelivered}
use omnigrex.Collaboration.Inputs.Delivering.{is_waiting, deliver_to, is_prepared, prepare}
use omnigrex.Collaboration.Laws.Freezing.{
  is_of, prepare_first, prepare_again, Frozen-IsStable, prepare_first-Frozen,
}
use omnigrex.Collaboration.Laws.Following.{Follows-Keeps}
use omnigrex.Collaboration.History.{Follows, Reachable}

-- In every State that the operations lead to, a Turn with a nonempty identity that was not prepared
-- before gets a batch, and whatever operations come later, new inputs and other Turns' preparations
-- included, preparing the Turn again, for whichever participant, gives the same batch and changes
-- nothing, where Project was not called for this Turn meanwhile, which offers its inputs once more.
pub prepare-replay :
    (s t : State)
    → Reachable s
    → (participant other turn : String) → is_empty turn ≡ false
    → is_prepared s turn ≡ false
    → Follows (λ x. not (text_eq x turn)) ((prepare s participant turn).1) t
    → prepare t other turn ≡ ((prepare s participant turn).0, t)
prepare-replay s t r participant other turn ne e follows =
    let (prepared, same, _) =
      Follows-Keeps (Frozen-IsStable turn ne ((prepare s participant turn).0)) follows
        (prepare_first-Frozen turn ne s participant r e) in
    prepare_again t other turn prepared ∙ ap (λ batch. (batch, t)) same

none_waiting :
    (participant turn : String) (xs : List Input)
    → is_empty turn ≡ false
    → any (is_waiting participant) (update_all (is_waiting participant) (deliver_to turn) xs)
      ≡ false
unfolding is_undelivered
none_waiting participant turn [] ne = refl
none_waiting participant turn (x ∷ xs) ne =
    let ih = none_waiting participant turn xs ne in
    elim (Bool-cases (is_waiting participant x)) [
      | inl k ↦ rw (k, ne) (ground arith)
      | inr k ↦ rw (k, k) ih
    ]

abbrev pub is_delivery_of : (id turn : String) → Input → Bool
is_delivery_of id turn y = text_eq y.id id && text_eq y.delivered_to turn

any_delivered :
    (id turn : String) (xs : List Input)
    → any (λ y. text_eq y.id id) xs ≡ true
    → any (is_delivery_of id turn) (map (deliver_to turn) xs) ≡ true
any_delivered id turn [] h = h
any_delivered id turn (x ∷ xs) h = elim (or_cases (text_eq x.id id) _ h) [
  | inl a ↦ or_left (is_delivery_of id turn (deliver_to turn x)) _ (rw (a, text_eq_self turn) refl)
  | inr b ↦ or_right (is_delivery_of id turn (deliver_to turn x)) _ (any_delivered id turn xs b)
]

-- Preparing a Turn with a nonempty identity for the first time puts an input that the participant has
-- pending, whichever it is, into the batch, assigned to the Turn, and leaves the participant with none
-- pending.
pub prepare-pending :
    (s : State) (participant turn id : String)
    → is_empty turn ≡ false
    → is_prepared s turn ≡ false
    → any (λ y. text_eq y.id id) (filter (is_waiting participant) s.inputs) ≡ true
    → (pending ((prepare s participant turn).1) participant ≡ false)
      × (any (is_delivery_of id turn) ((prepare s participant turn).0) ≡ true)
unfolding pending
prepare-pending s participant turn id ne e h = rw (prepare_first s participant turn e) (
  none_waiting participant turn s.inputs ne,
  any_append_right (is_delivery_of id turn) (filter (is_of turn) s.inputs) _
      (any_delivered id turn (filter (is_waiting participant) s.inputs) h),
)

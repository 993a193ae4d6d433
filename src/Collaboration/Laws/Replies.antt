-- ===== src/Collaboration/Laws/Replies.antt =====
-- Commands that arrive again, and what a command leaves behind.
use omnigrex.Prelude.{
  List, is_nil, ltb, either, if-Gives, first-snoc_found, String, true, false, none, some, ◌&&◌, ◌≡◌,
  refl, sym, ◌∙◌, ◌⊎◌, inl, inr, arith, Option-cases, any, first, text_eq, text_eq_self, snoc,
  or_left, or_right, any-snoc, first-snoc-none, first-any,
}
use omnigrex.Collaboration.Model.Records.{Source, Input, Receipt, Command, Admission}
use omnigrex.Collaboration.Model.States.{State}
use omnigrex.Collaboration.References.{reference}
use omnigrex.Collaboration.Evidence.Currency.{pending, is_undelivered}
use omnigrex.Collaboration.Inputs.Delivering.{is_prepared, is_delivery, prepare, mark_delivered}
use omnigrex.Collaboration.Inputs.Projecting.{project, max_projection_bytes}
use omnigrex.Collaboration.History.{Follows}
use omnigrex.Collaboration.Laws.Following.{IsStable, Follows-Keeps}
use omnigrex.Collaboration.Inputs.Accepting.{
  Verdict, check_input, new_input, new_receipt, queued, same_source, settle_input, accept,
}

settle_input-receipt :
    (s : State) (id : String) (c : Command) (a : Admission) (v : Verdict String)
    → first (same_source a.source) s.receipts ≡ none
    → first (same_source a.source) (settle_input s id c a v).1.receipts
      ≡ some (settle_input s id c a v).0
unfolding settle_input
settle_input-receipt s id c a (Verdict.refused m) e =
    first-snoc-none (same_source a.source) s.receipts (new_receipt id a.source "" m) e
    ∙ rw (text_eq_self a.source.channel, text_eq_self a.source.id) refl
settle_input-receipt s id c a (Verdict.granted round) e =
    first-snoc-none (same_source a.source) s.receipts
      (new_receipt id a.source id (queued ((reference s "A" id).0))) e
    ∙ rw (text_eq_self a.source.channel, text_eq_self a.source.id) refl

accept-receipt :
    (s : State) (id : String) (c : Command) (a : Admission)
    → first (same_source a.source) (accept s id c a).1.receipts ≡ some (accept s id c a).0
unfolding accept
accept-receipt s id c a = elim (Option-cases (first (same_source a.source) s.receipts)) [
  | inl e ↦ rw (e, accept) (settle_input-receipt s id c a (check_input s id c a) e)
  | inr (old, e) ↦ rw (e, accept) e
]

accept_again :
    (s : State) (id : String) (c : Command) (a : Admission) {old : Receipt}
    → first (same_source a.source) s.receipts ≡ some old
    → accept s id c a ≡ (old, s)
unfolding accept
accept_again s id c a e = rw (e, accept) refl

-- The first receipt of a source.
abbrev Heard : Source → Receipt → State → Type 0
Heard source old s = first (same_source source) s.receipts ≡ some old

Heard-settle_input :
    (source : Source) (old : Receipt) (s : State) (id : String) (c : Command) (a : Admission)
    (v : Verdict String)
    → Heard source old s
    → Heard source old (settle_input s id c a v).1
unfolding settle_input reference
Heard-settle_input source old s id c a (Verdict.refused m) h =
    first-snoc_found (same_source source) s.receipts _ h
Heard-settle_input source old s id c a (Verdict.granted round) h =
    first-snoc_found (same_source source) s.receipts _ h

Heard-IsStable : (source : Source) (old : Receipt) → IsStable (λ _. true) (Heard source old)
unfolding accept prepare mark_delivered project reference
Heard-IsStable source old = record {
  framed = record { planned = λ s p h. h; named = λ s id p h. h; assessed = λ s as' p h. h };
  touched = λ s references rounds current n h. h;
  accepted = λ s id c a h. elim (Option-cases (first (same_source a.source) s.receipts)) [
    | inl e ↦ rw (e, accept) (Heard-settle_input source old s id c a (check_input s id c a) h)
    | inr (r, e) ↦ rw (e, accept) h
  ];
  prepared = λ s participant turn h.
      either (λ (n : List Input × State). Heard source old n.1) (is_prepared s turn) (λ _. h)
        λ _. h;
  delivered = λ s participant turn id h.
      if-Gives (Heard source old) (is_nil (first (is_delivery participant turn id) s.inputs)) none _
        (λ _. tt) λ _. h;
  projected = λ encoded_length s participant turn _ h.
      either (Heard source old) (ltb max_projection_bytes (encoded_length s participant turn))
        (λ _. h) λ _. h;
}

-- A command from a source that was heard before, whatever its identity, content and authority now and
-- whatever operations came in between, gets the receipt of the first one and changes nothing.
pub accept-replay :
    (s t : State) (id again : String) (c changed : Command) (a later : Admission)
    → Follows (λ _. true) ((accept s id c a).1) t
    → later.source.channel ≡ a.source.channel
    → later.source.id ≡ a.source.id
    → accept t again changed later ≡ ((accept s id c a).0, t)
accept-replay s t id again c changed a later follows channel source =
    accept_again t again changed later (
      rw (channel, source)
        (Follows-Keeps (Heard-IsStable a.source ((accept s id c a).0)) follows
          (accept-receipt s id c a)))

-- What a refused command does, and what an admitted one does.
abbrev pub Rejects : State → String → Command → Admission → Type 0
Rejects s id c a =
    ((accept s id c a).0.response_id ≡ "")
    × ((accept s id c a).1 ≡ record s { receipts = snoc s.receipts ((accept s id c a).0) })

abbrev pub Admits : State → String → Command → Admission → Type 0
Admits s id c a =
    ((accept s id c a).0.response_id ≡ id)
    × (pending ((accept s id c a).1) a.participant_id ≡ true)
    × ((x : Input) × ((accept s id c a).1.inputs ≡ snoc s.inputs x)
        × (x.id ≡ id)
        × (x.body ≡ c.body)
        × (x.kind ≡ c.kind)
        × (x.source ≡ a.source)
        × (x.delivered_to ≡ ""))

pending_new :
    (s : State) (name id round : String) (c : Command) (a : Admission)
    → any
        (λ x. text_eq x.participant_id a.participant_id && is_undelivered x)
        (snoc s.inputs (new_input s name id round c a))
      ≡ true
unfolding new_input is_undelivered
pending_new s name id round c a =
    any-snoc (λ x. text_eq x.participant_id a.participant_id && is_undelivered x) s.inputs
      (new_input s name id round c a)
    ∙ or_right (any _ s.inputs) _
        (rw (text_eq_self a.participant_id) (or_left _ _ (text_eq_self "")))

settle_input-cases :
    (s : State) (id : String) (c : Command) (a : Admission) (v : Verdict String)
    → accept s id c a ≡ settle_input s id c a v
    → Rejects s id c a ⊎ Admits s id c a
unfolding settle_input new_input pending
settle_input-cases s id c a (Verdict.refused m) e = inl (rw e (refl, refl))
settle_input-cases s id c a (Verdict.granted round) e = inr (
    rw e (
      refl,
      pending_new s ((reference s "A" id).0) id round c a,
      (new_input s ((reference s "A" id).0) id round c a, refl, refl, refl, refl, refl, refl),
    ))

-- A command from a source that was not heard before is either rejected, which leaves the State as it was
-- but for the receipt, or admitted: then exactly one undelivered input is appended, with the
-- command's kind and body, which its participant has pending, and the receipt names it.
pub accept-cases :
    (s : State) (id : String) (c : Command) (a : Admission)
    → any (same_source a.source) s.receipts ≡ false
    → Rejects s id c a ⊎ Admits s id c a
unfolding accept
accept-cases s id c a fresh = elim (Option-cases (first (same_source a.source) s.receipts)) [
  | inl e ↦ settle_input-cases s id c a (check_input s id c a) (rw (e, accept) refl)
  | inr (old, e) ↦ absurd (let heard = sym (first-any _ s.receipts e) ∙ fresh in ground arith)
]

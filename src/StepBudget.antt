-- ===== src/StepBudget.antt =====
-- internal/stepbudget/budget.go: the limit of an Agent Turn's steps, and what a runtime observes of it.
-- The readers of JSON and YAML, which decode with encoding/json and yaml.v3, are left out.
mod Examples
use Prim.Native.Char.{code}
use omnigrex.Prelude.{
  ℕ, zero, suc, ◌+◌, ◌/◌, ◌%◌, ◌^◌, ◌≤◌, ◌<◌, String, Bool, true, false, not, List, [], ◌∷◌, Option,
  none, some, ◌&&◌, ◌||◌, ◌≡◌, refl, subst, sym, ap, ◌∙◌, inl, inr, arith, Bool-cases,
  if◌then◌else◌, either, ltb, leb, ◌==◌, all, between, codes, is_empty, text_eq, text_eq→≡,
  text_eq_self, bool_eq, digit, code-digit, emit, decimal, value, value-decimal,
}

abbrev pub max : ℕ
max = 2147483647

pub record Limit : Type 0 where
  pub steps : ℕ

-- `Limit{}`, which stands for no limit.
abbrev pub unlimited : Limit
unlimited = record { steps = 0 }

abbrev pub is_digit : ℕ → Bool
is_digit = between b'0' b'9'

-- strconv.ParseUint in base 10 to 31 bits, of digits.
abbrev pub parse_uint_31 : String → Option ℕ
parse_uint_31 text = let n = value (codes text) 0 in if ltb max n then none else some n

abbrev pub limit_of : Option ℕ → Option Limit
limit_of none = none
limit_of (some n) = if n == 0 then none else some (record { steps = n % 2 ^ 32 })

unfoldable pub parse : String → Option Limit
parse text =
    if text_eq text "unlimited"
    then some unlimited
    else if is_empty text || not (all is_digit (codes text))
    then none
    else limit_of (parse_uint_31 text)

unfoldable pub finite : Limit → Bool
finite l = not (l.steps == 0)

unfoldable pub string : Limit → String
unfolding finite
string l = if not (finite l) then "unlimited" else decimal l.steps

-- The profile's limit, or else the fallback.
unfoldable pub resolve : Option Limit → Limit → Limit
resolve none fallback = fallback
resolve (some l) fallback = l

pub record Observation : Type 0 where
  pub limit : Limit
  pub used : ℕ
  pub responses : ℕ
  pub summary : Bool
  pub stopped : Bool
  pub complete : Bool

unfoldable pub valid : Observation → Bool
unfolding finite
valid o =
    leb o.used 9007199254740991
    && leb o.responses o.used
    && (not (finite o.limit) || leb o.used o.limit.steps)
    && bool_eq o.summary (finite o.limit && o.used == o.limit.steps)
    && (not o.stopped || o.summary && o.responses == o.used)
    && (not o.complete || o.responses == o.used)

digit-is_digit : (d : ℕ) → d < 10 → is_digit (code (digit d)) ≡ true
digit-is_digit d h = rw (code-digit d h) (ground arith)

emit-digits :
    (k n : ℕ) (out : String)
    → all is_digit (codes out) ≡ true
    → all is_digit (codes (emit k n out)) ≡ true
unfolding emit
emit-digits zero n out h = h
emit-digits (suc k) n out h = elim (Bool-cases (n == 0)) [
  | inl e ↦ rw (e, emit) h
  | inr e ↦
      rw (e, emit)
        (emit-digits k (n / 10) (String.◌∷◌ (digit (n % 10)) out)
          (rw (digit-is_digit (n % 10) (omega arith)) h))
]

decimal-digits : (n : ℕ) → all is_digit (codes (decimal n)) ≡ true
unfolding decimal
decimal-digits n =
    either (λ s. all is_digit (codes s) ≡ true) (n == 0) (λ _. refl) λ _. emit-digits n n "" refl

decimal_is_no_word : (n : ℕ) → text_eq (decimal n) "unlimited" ≡ false
decimal_is_no_word n = elim (Bool-cases (text_eq (decimal n) "unlimited")) [
  | inl e ↦ absurd (
      let z = sym (decimal-digits n) ∙ ap (λ s. all is_digit (codes s)) (text_eq→≡ _ _ e) in
      ground arith)
  | inr e ↦ e
]

decimal-is_empty : (n : ℕ) → 0 < n → is_empty (decimal n) ≡ false
unfolding value
decimal-is_empty n pos_n = elim (Bool-cases (is_empty (decimal n))) [
  | inl e ↦
      let word = text_eq→≡ _ _ e in
      absurd (let z = sym (value-decimal n) ∙ ap (λ s. value (codes s) 0) word in omega arith)
  | inr e ↦ e
]

parse-decimal : (n : ℕ) → 0 < n → n ≤ max → parse (decimal n) ≡ some (record { steps = n })
unfolding parse
parse-decimal n h k =
    let small : n % 2 ^ 32 ≡ n = omega arith in
    let within : ltb max n ≡ false = ground arith in
    let positive : (n == 0) ≡ false = ground arith in
    rw
      (
        decimal_is_no_word n,
        decimal-is_empty n h,
        decimal-digits n,
        value-decimal n,
        within,
        positive,
        small,
      )
      refl

abbrev steps_limit : ℕ → Limit
steps_limit n = record { steps = n }

parse-unlimited : parse (string (steps_limit 0)) ≡ some (steps_limit 0)
unfolding parse string text_eq
parse-unlimited = refl

parse-steps : (n : ℕ) → n ≤ max → parse (string (steps_limit n)) ≡ some (steps_limit n)
unfolding string finite
parse-steps n h = elim (Bool-cases (n == 0)) [
  | inl e ↦
      let none_set : n ≡ 0 = ground arith in
      subst (λ m. parse (string (steps_limit m)) ≡ some (steps_limit m)) (sym none_set)
        parse-unlimited
  | inr e ↦ rw (e, string) (parse-decimal n (ground arith) h)
]

-- A limit of at most 2147483647 steps, or none, is parsed back from its print.
pub parse-string : (l : Limit) → l.steps ≤ max → parse (string l) ≡ some l
parse-string l h = parse-steps l.steps h

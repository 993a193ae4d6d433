-- ===== src/Prelude/Decimals.antt =====
-- Numbers printed in base ten, as fmt's %d and strconv.FormatUint print them, and read back.
use Prim.Native.Nat.{ℕ, zero, suc, ◌+◌, ◌-◌, ◌*◌, ◌/◌, ◌%◌, ◌<◌, ◌≤◌}
use Prim.Native.Char.{Char, code}
use Prim.Native.String.{String}
use mathlib.Core.Path.{◌≡◌, refl, sym, ap, ◌∙◌}
use mathlib.Core.Bool.{true, false}
use mathlib.Core.List.{List, [], ◌∷◌}
use native.Mathlib.Omega.{arith}
use omnigrex.Prelude.Tests.{ltb, ◌==◌, either, if◌then◌else◌}
use omnigrex.Prelude.Codes.{codes}

abbrev pub digit : ℕ → Char
digit d =
    if ltb d 5
    then (if d == 0
        then "0"
        else if d == 1
        then "1"
        else if d == 2
        then "2"
        else if d == 3
        then "3"
        else "4")
    else (if d == 5
        then "5"
        else if d == 6
        then "6"
        else if d == 7
        then "7"
        else if d == 8
        then "8"
        else "9")

pub code-digit : (d : ℕ) → d < 10 → code (digit d) ≡ b'0' + d
code-digit d h =
    either C (ltb d 5)
      (λ l.
        either C (d == 0) (λ e. ground arith)
          λ n0.
            either C (d == 1) (λ e. ground arith)
              λ n1.
                either C (d == 2) (λ e. ground arith)
                  λ n2. either C (d == 3) (λ e. ground arith) λ n3. ground arith)
      λ l.
        either C (d == 5) (λ e. ground arith)
          λ n0.
            either C (d == 6) (λ e. ground arith)
              λ n1.
                either C (d == 7) (λ e. ground arith)
                  λ n2. either C (d == 8) (λ e. ground arith) λ n3. ground arith
  where
    C : Char → Type 0
    C c = code c ≡ b'0' + d

-- The digits of `n` before `out`; the first argument bounds the rounds.
unfoldable pub emit : ℕ → ℕ → String → String
emit zero n out = out
emit (suc k) n out = elim (n == 0) [
  | true ↦ out
  | false ↦ emit k (n / 10) (String.◌∷◌ (digit (n % 10)) out)
]

-- `%d`; `n` rounds are enough, since each divides `n` by ten.
unfoldable pub decimal : ℕ → String
unfolding emit
decimal n = if n == 0 then "0" else emit n n ""

-- The number that a text of digits denotes, read after `n`.
unfoldable pub value : List ℕ → ℕ → ℕ
value [] n = n
value (c ∷ cs) n = value cs (n * 10 + (c - b'0'))

value-emit : (k n : ℕ) (out : String) → n ≤ k → value (codes (emit k n out)) 0 ≡ value (codes out) n
unfolding emit value
value-emit zero n out h = ground arith
value-emit (suc k) n out h =
    ground (arith, value-emit k (n / 10) (String.◌∷◌ (digit (n % 10)) out), code-digit (n % 10))

pub value-decimal : (n : ℕ) → value (codes (decimal n)) 0 ≡ n
unfolding decimal value
value-decimal n =
    either (λ s. value (codes s) 0 ≡ n) (n == 0) (λ e. ground arith)
      λ e. value-emit n n "" (omega arith)

pub decimal_injective : (m n : ℕ) → decimal m ≡ decimal n → m ≡ n
decimal_injective m n e = sym (value-decimal m) ∙ ap (λ s. value (codes s) 0) e ∙ value-decimal n

decimal_test : decimal 1070 ≡ "1070"
unfolding decimal emit
decimal_test = refl

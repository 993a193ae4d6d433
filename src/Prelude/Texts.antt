-- ===== src/Prelude/Texts.antt =====
-- Texts compared as a whole. Go's strings of the program are read as texts of Unicode characters.
use Prim.Native.String.{String, ◌++◌}
use mathlib.Core.Path.{◌≡◌}
use mathlib.Core.Logic.{◌↔◌}
use mathlib.Core.Bool.{Bool, true}
use mathlib.Core.List.{List}
use text.Mathlib.Text.{◌==◌ as str_eq}
use text.Mathlib.TextEquality.{eq_iff}
use text.Mathlib.TextPositions.{eq_refl}
use omnigrex.Prelude.Tests.{any}

unfoldable pub text_eq : String → String → Bool
text_eq s t = str_eq s t

pub text_eq_iff : (s t : String) → (text_eq s t ≡ true) ↔ (s ≡ t)
unfolding text_eq
text_eq_iff s t = eq_iff s t

pub text_eq_self : (s : String) → text_eq s s ≡ true
unfolding text_eq
text_eq_self s = eq_refl s

-- `s == ""`.
abbrev pub is_empty : String → Bool
is_empty s = text_eq s ""

abbrev pub contains : List String → String → Bool
contains l s = any (λ t. text_eq t s) l

-- `s + t`.
abbrev pub append : String → String → String
append s t = s ++ t

-- ===== src/Prelude/Text.antt =====
-- Equality of texts, as a test, and membership in a list of texts.
use Prim.Native.Char.{code}
use bollywood_hal.Prelude.Tests.{◌==◌, if◌then◌else◌}
use Prim.Native.String.{String, ◌++◌ as text_append}
use mathlib.Core.Path.{◌≡◌, refl}
use mathlib.Core.Logic.{◌↔◌}
use mathlib.Core.Bool.{Bool, true, false, ◌||◌}
use mathlib.Core.List.{List, [], ◌∷◌}
use text.Mathlib.Text.{◌==◌ as text_eq}
use text.Mathlib.TextEquality.{eq_iff}

infix 50 ◌=s◌
-- `==` of two `str` values.
abbrev pub ◌=s◌ : String → String → Bool
a =s b = text_eq a b

pub =s_iff : (a b : String) → ((a =s b) ≡ true) ↔ (a ≡ b)
=s_iff a b = eq_iff a b

pub =s_refl : (a : String) → (a =s a) ≡ true
=s_refl a = (eq_iff a a).1 refl

-- `x in xs` for a list of texts.
abbrev pub contains : String → List String → Bool
contains x [] = false
contains x (y ∷ ys) = x =s y || contains x ys

infixr 65 ◌+s◌
-- `+` of two `str` values.
abbrev pub ◌+s◌ : String → String → String
a +s b = text_append a b

-- `s.startswith(p)`
unfoldable pub text_startswith : String → String → Bool
text_startswith s String.[] = true
text_startswith String.[] (String.◌∷◌ d p) = false
text_startswith (String.◌∷◌ c s) (String.◌∷◌ d p) =
    let rest = text_startswith s p in if code c == code d then rest else false

-- `s.endswith(p)`
unfoldable pub text_endswith : String → String → Bool
text_endswith String.[] p = p =s ""
text_endswith (String.◌∷◌ c s) p = String.◌∷◌ c s =s p || text_endswith s p

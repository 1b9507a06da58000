-- ===== src/Prelude/Sorting.antt =====
-- `sorted` on texts: by code points, as Python compares `str` values.
use Prim.Native.Char.{code}
use Prim.Native.String.{String}
use mathlib.Core.Bool.{Bool, true, false}
use mathlib.Core.List.{List, [], ◌∷◌, ◌++◌}
use bollywood_hal.Prelude.Tests.{ltb, ◌==◌, if◌then◌else◌}
use bollywood_hal.Prelude.Text.{contains}

-- `a <= b`
unfoldable pub text_leb : String → String → Bool
text_leb String.[] t = true
text_leb (String.◌∷◌ c s) String.[] = false
text_leb (String.◌∷◌ c s) (String.◌∷◌ d t) =
    if ltb (code c) (code d) then true else if code c == code d then text_leb s t else false

unfoldable pub insert_text : String → List String → List String
unfolding text_leb
insert_text x [] = x ∷ []
insert_text x (y ∷ ys) = if text_leb x y then x ∷ y ∷ ys else y ∷ insert_text x ys

unfoldable pub sorted : List String → List String
unfolding insert_text
sorted [] = []
sorted (x ∷ xs) = insert_text x (sorted xs)

-- `if x not in xs: xs.append(x)` and `set.add`
unfoldable pub add_text : String → List String → List String
add_text x xs = if contains x xs then xs else xs ++ x ∷ []

unfoldable pub add_texts : List String → List String → List String
unfolding add_text
add_texts [] ys = ys
add_texts (x ∷ xs) ys = add_texts xs (add_text x ys)

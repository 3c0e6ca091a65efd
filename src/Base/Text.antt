-- ===== src/Base/Text.antt =====
-- The order `<` of Go strings. Go compares the bytes; UTF-8 keeps the order of the code points, by
-- which `str_lt` compares. It is a strict linear order.
use Prim.Native.Char.{code}
use Prim.Native.String.{String, [], ◌∷◌, ◌++◌}
use mathlib.Core.List.{List}
use mathlib.Core.Path.{◌≡◌, refl, ap₂}
use mathlib.Core.Bool.{Bool, true, false}
use native.Mathlib.Omega.{arith}
use text.Mathlib.TextEquality.{Char-path}
use nacos_k8s.Base.Tests.{ltb, eqb, if◌then◌else◌}

unfoldable pub str_lt : String → String → Bool
str_lt [] [] = false
str_lt [] (d ∷ t) = true
str_lt (c ∷ s) [] = false
str_lt (c ∷ s) (d ∷ t) =
    if ltb (code c) (code d) then true else if eqb (code c) (code d) then str_lt s t else false

pub str_lt_irrefl : (s : String) → str_lt s s ≡ false
unfolding str_lt
str_lt_irrefl [] = refl
str_lt_irrefl (c ∷ s) = ground (arith, str_lt_irrefl s)

pub str_lt_trans : (s t u : String) → str_lt s t ≡ true → str_lt t u ≡ true → str_lt s u ≡ true
unfolding str_lt
str_lt_trans [] (d ∷ t) (e ∷ u) h k = refl
str_lt_trans (c ∷ s) (d ∷ t) (e ∷ u) h k = ground (arith, str_lt_trans s t u)
str_lt_trans s t u h k = ground arith

pub str_lt_asymm : (s t : String) → str_lt s t ≡ true → str_lt t s ≡ false
unfolding str_lt
str_lt_asymm [] (d ∷ t) h = refl
str_lt_asymm (c ∷ s) (d ∷ t) h = ground (arith, str_lt_asymm s t)
str_lt_asymm s t h = ground arith

pub str_lt_linear : (s t : String) → str_lt s t ≡ false → str_lt t s ≡ false → s ≡ t
unfolding str_lt
str_lt_linear [] [] h k = refl
str_lt_linear (c ∷ s) (d ∷ t) h k =
    ap₂ ◌∷◌ (Char-path c d (ground arith)) (str_lt_linear s t (ground arith) (ground arith))
str_lt_linear s t h k = ground arith

abbrev pub concat : String → String → String
concat s t = s ++ t

-- `strings.Join(texts, sep)`
unfoldable pub join : String → List String → String
join sep List.[] = ""
join sep (List.◌∷◌ s List.[]) = s
join sep (List.◌∷◌ s (List.◌∷◌ t r)) = s ++ (sep ++ join sep (List.◌∷◌ t r))

-- ===== src/Go/Format.antt =====
-- `strconv.Itoa`, `strconv.FormatBool` and `fmt.Sprintf`. A verb of `Sprintf` (`%v`, `%s`, `%d`) takes
-- the next operand, which is given here as the text that it prints.
pub mod Digits
use Prim.Native.Char.{code}
use Prim.Native.String.{[], ◌∷◌}
use nacos_k8s.Base.{
  ℕ, zero, suc, ◌/◌, ◌≡◌, String, Bool, true, false, eqb, ltb, if◌then◌else◌, concat, refl, ℤ, pos,
  negsuc,
}
use Prim.Native.Nat.{◌%◌}
use mathlib.Core.List.{List}

digit : ℕ → String
digit n =
    if eqb n 0
    then "0"
    else if eqb n 1
    then "1"
    else if eqb n 2
    then "2"
    else if eqb n 3
    then "3"
    else if eqb n 4
    then "4"
    else if eqb n 5
    then "5"
    else if eqb n 6
    then "6"
    else if eqb n 7
    then "7"
    else if eqb n 8
    then "8"
    else "9"

-- A number below the fuel has fewer digits than the fuel.
decimal : ℕ → ℕ → String
unfolding digit
decimal zero n = ""
decimal (suc fuel) n =
    let rest = decimal fuel (n / 10) in if ltb n 10 then digit n else concat rest (digit (n % 10))

unfoldable pub itoa : ℤ → String
unfolding decimal
itoa (pos n) = decimal (suc n) n
itoa (negsuc n) = concat "-" (decimal (suc (suc n)) (suc n))

unfoldable pub format_bool : Bool → String
format_bool true = "true"
format_bool false = "false"

unfoldable pub sprintf : String → List String → String
sprintf [] operands = ""
sprintf (c ∷ []) operands = c ∷ []
sprintf (c ∷ d ∷ s) List.[] = c ∷ sprintf (d ∷ s) List.[]
sprintf (c ∷ d ∷ s) (List.◌∷◌ operand r) =
    let plain = c ∷ sprintf (d ∷ s) (List.◌∷◌ operand r) in
    let verb = concat operand (sprintf s r) in if eqb (code c) b'%' then verb else plain

itoa_example : itoa (pos 18000) ≡ "18000"
unfolding itoa
itoa_example = refl

sprintf_example :
    sprintf "parameter error %v is %v" (List.◌∷◌ "a" (List.◌∷◌ "b" List.[]))
    ≡ "parameter error a is b"
unfolding sprintf
sprintf_example = refl

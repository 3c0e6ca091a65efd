-- ===== src/Go/Format/Digits.antt =====
-- Different numbers print differently: the digits read back as the number.
use Prim.Native.Char.{code}
use Prim.Native.Nat.{◌%◌, ◌-◌}
use nacos_k8s.Base.{
  ℕ, zero, suc, ◌+◌, ◌*◌, ◌/◌, ◌<◌, ◌≡◌, refl, sym, ◌∙◌, ap, String, Bool, true, false, eqb, ltb,
  if◌then◌else◌, concat, pos, arith,
}
use text.Mathlib.TextLemmas.{cons-append, nil-append}
use nacos_k8s.Operator.Servers.{contains_char}
use nacos_k8s.Go.Format.{digit, decimal, itoa}

-- the number that the digits stand for, after those of `acc`
value : ℕ → String → ℕ
value acc String.[] = acc
value acc (String.◌∷◌ c s) = value (acc * 10 + (code c - 48)) s

value-concat : (acc : ℕ) (s t : String) → value acc (concat s t) ≡ value (value acc s) t
unfolding value
value-concat acc String.[] t = rw nil-append refl
value-concat acc (String.◌∷◌ c s) t = rw cons-append (value-concat (acc * 10 + (code c - 48)) s t)

-- one comparison of `digit`
value-if :
    (acc n d : ℕ) (s t : String)
    → value acc s ≡ acc * 10 + d
    → ((n ≡ d → ⊥) → value acc t ≡ acc * 10 + n)
    → value acc (if eqb n d then s else t) ≡ acc * 10 + n
value-if acc n d s t p q = split (eqb n d) refl
  where
    split : (b : Bool) → eqb n d ≡ b → value acc (if b then s else t) ≡ acc * 10 + n
    split true h = p ∙ ap (λ m. acc * 10 + m) (ground (arith, h))
    split false h = q λ e. ground (arith, h, e)

value-digit : (acc n : ℕ) → n < 10 → value acc (digit n) ≡ acc * 10 + n
unfolding value digit
value-digit acc n h = value-if acc n 0 "0" _ refl λ p0. value-if acc n 1 "1" _ refl λ p1.
    value-if acc n 2 "2" _ refl λ p2. value-if acc n 3 "3" _ refl λ p3.
      value-if acc n 4 "4" _ refl λ p4. value-if acc n 5 "5" _ refl λ p5.
        value-if acc n 6 "6" _ refl λ p6. value-if acc n 7 "7" _ refl λ p7.
          value-if acc n 8 "8" _ refl
            λ p8. ap (λ m. acc * 10 + m) (ground (arith, h, p0, p1, p2, p3, p4, p5, p6, p7, p8))

value-decimal : (fuel n : ℕ) → n < fuel → value 0 (decimal fuel n) ≡ n
unfolding decimal
value-decimal zero n h = ground (arith, h)
value-decimal (suc fuel) n h = split (ltb n 10) refl (value-decimal fuel (n / 10))
  where
    split :
        (b : Bool)
        → ltb n 10 ≡ b
        → (n / 10 < fuel → value 0 (decimal fuel (n / 10)) ≡ n / 10)
        → value 0 (if b then digit n else concat (decimal fuel (n / 10)) (digit (n % 10))) ≡ n
    split true p ih = value-digit 0 n (ground (arith, p)) ∙ omega arith
    split false p ih =
        value-concat 0 (decimal fuel (n / 10)) (digit (n % 10))
        ∙ value-digit _ (n % 10) (omega arith)
        ∙ ap (λ m. m * 10 + n % 10) (ih (ground (arith, p, h)))
        ∙ omega arith

pub itoa_injective : (m n : ℕ) → itoa (pos m) ≡ itoa (pos n) → m ≡ n
unfolding itoa
itoa_injective m n h =
    sym (value-decimal (suc m) m (omega arith))
    ∙ ap (value 0) h
    ∙ value-decimal (suc n) n (omega arith)

-- no dot stands in the digits of a number
if-free :
    (c : ℕ) (b : Bool) (s t : String)
    → contains_char c s ≡ false
    → contains_char c t ≡ false
    → contains_char c (if b then s else t) ≡ false
if-free c true s t p q = p
if-free c false s t p q = q

pub concat-free :
    (c : ℕ) (s t : String)
    → contains_char c s ≡ false
    → contains_char c t ≡ false
    → contains_char c (concat s t) ≡ false
unfolding contains_char
concat-free c String.[] t p q = rw nil-append q
concat-free c (String.◌∷◌ d s) t p q = rw cons-append (split (eqb (code d) c) p (concat-free c s t))
  where
    split :
        (b : Bool)
        → (if b then true else contains_char c s) ≡ false
        → (contains_char c s ≡ false
            → contains_char c t ≡ false
            → contains_char c (concat s t) ≡ false)
        → (if b then true else contains_char c (concat s t)) ≡ false
    split true p ih = p
    split false p ih = ih p q

digit-free : (n : ℕ) → contains_char b'.' (digit n) ≡ false
unfolding digit contains_char
digit-free n = if-free b'.' (eqb n 0) "0" _ refl (
    if-free b'.' (eqb n 1) "1" _ refl (
      if-free b'.' (eqb n 2) "2" _ refl (
        if-free b'.' (eqb n 3) "3" _ refl (
          if-free b'.' (eqb n 4) "4" _ refl (
            if-free b'.' (eqb n 5) "5" _ refl (
              if-free b'.' (eqb n 6) "6" _ refl
                (if-free b'.' (eqb n 7) "7" _ refl (if-free b'.' (eqb n 8) "8" "9" refl refl))))))))

decimal-free : (fuel n : ℕ) → contains_char b'.' (decimal fuel n) ≡ false
unfolding decimal contains_char
decimal-free zero n = refl
decimal-free (suc fuel) n =
    if-free b'.' (ltb n 10) (digit n) (concat (decimal fuel (n / 10)) (digit (n % 10)))
      (digit-free n)
      (concat-free b'.' (decimal fuel (n / 10)) (digit (n % 10)) (decimal-free fuel (n / 10))
        (digit-free (n % 10)))

pub itoa-free : (n : ℕ) → contains_char b'.' (itoa (pos n)) ≡ false
unfolding itoa
itoa-free n = decimal-free (suc n) n

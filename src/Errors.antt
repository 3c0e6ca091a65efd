-- ===== src/Errors.antt =====
-- operator/pkg/errors: the operator's error type, and its way to stop a reconciliation: it panics with
-- an error, and the controller recovers. A computation that may panic also hands back the state
-- that it has written until then.
pub mod Laws
use nacos_k8s.Base.{
  String, Option, none, some, List, [], ◌∷◌, ◌==◌, if◌then◌else◌, concat, ℤ, pos, negsuc, int_eq,
}
use nacos_k8s.Go.Format.{itoa, sprintf}

-- an `error` of the Kubernetes client or of another library: `IsNotFound` tells the first apart
pub data Error : Type 0 where
  not_found : String → Error
  failure : String → Error

pub record Err : Type 0 where
  pub code : ℤ
  pub msg : String

-- what the code panics with: an `*Err`, another `error`, or an error of the Go run-time
pub data Fault : Type 0 where
  raised : Err → Fault
  plain : Error → Fault
  runtime : String → Fault

pub data Outcome {ℓ} (A : Type ℓ) : Type ℓ where
  done : A → Outcome A
  panic : Fault → Outcome A

abbrev pub Exec {ℓ κ} : Type ℓ → Type κ → Type (ℓ ⊔ κ)
Exec S A = S → Outcome A × S

module _ {ℓ κ} {S : Type ℓ} {A : Type κ} where
  abbrev pub pure : A → Exec S A
  pure a s = (done a, s)

  abbrev pub throw : Fault → Exec S A
  throw f s = (panic f, s)

module _ {ℓ κ μ} {S : Type ℓ} {A : Type κ} {B : Type μ} where
  abbrev pub continue : Outcome A → (A → Exec S B) → Exec S B
  continue (done a) f s = f a s
  continue (panic e) f s = (panic e, s)

  infixl 5 ◌>>=◌ ◌>>◌
  abbrev pub ◌>>=◌ : Exec S A → (A → Exec S B) → Exec S B
  ◌>>=◌ m f s = let r = m s in continue r.0 f r.1

  abbrev pub ◌>>◌ : Exec S A → Exec S B → Exec S B
  m >> n = m >>= λ _. n

-- type.go
abbrev pub code_normal : ℤ
code_normal = pos 200

abbrev pub code_parameter_error : ℤ
code_parameter_error = pos 301

abbrev pub code_cluster_faile : ℤ
code_cluster_faile = pos 401

abbrev pub code_err_system : ℤ
code_err_system = pos 404

abbrev pub code_err_unknow : ℤ
code_err_unknow = negsuc 0

abbrev pub msg_parameter_errot : String
msg_parameter_errot = "parameter error %v is %v"

-- `err.Error()` of a library's error
abbrev pub error_text : Error → String
error_text (not_found s) = s
error_text (failure s) = s

-- With no operands the code prints the format by `fmt.Sprint(format, a)`, which prints the empty
-- slice too.
unfoldable pub new : ℤ → String → List String → Err
unfolding sprintf
new code format [] = record { code = code; msg = concat format "[]" }
new code format (a ∷ r) = record { code = code; msg = sprintf format (a ∷ r) }

unfoldable pub new_err : Error → Err
new_err e = record { code = code_err_unknow; msg = error_text e }

unfoldable pub new_err_msg : String → Err
new_err_msg e = record { code = code_err_unknow; msg = e }

unfoldable pub new_errf_msgf : String → List String → Err
unfolding sprintf
new_errf_msgf format [] = record { code = code_err_unknow; msg = concat format "[]" }
new_errf_msgf format (a ∷ r) = record { code = code_err_unknow; msg = sprintf format (a ∷ r) }

module _ {ℓ} {S : Type ℓ} where
  -- a nil error is `none`
  unfoldable pub ensure_normal : Option Error → Exec S (Unit {0})
  ensure_normal none = pure tt
  ensure_normal (some e) = throw (plain e)

  unfoldable pub ensure_normal_my_error : Option Error → ℤ → Exec S (Unit {0})
  unfolding new
  ensure_normal_my_error none code = pure tt
  ensure_normal_my_error (some e) code = throw (raised (new code (error_text e) []))

  unfoldable pub ensure_normal_msgf : Option Error → String → List String → Exec S (Unit {0})
  ensure_normal_msgf none format a = pure tt
  ensure_normal_msgf (some e) format a = throw (plain e)

  -- `EnsureEqual` at its two uses, integers and strings; the variadic message prints in brackets
  unfoldable pub ensure_equal_int : ℤ → ℤ → ℤ → String → Exec S (Unit {0})
  unfolding new itoa
  ensure_equal_int i1 i2 code msg =
      if int_eq i1 i2
      then pure tt
      else throw (
          raised (
            new code "msg: %v, %v is not equal %v"
              (concat "[" (concat msg "]") ∷ itoa i1 ∷ itoa i2 ∷ [])))

  unfoldable pub ensure_equal_string : String → String → ℤ → String → Exec S (Unit {0})
  unfolding new
  ensure_equal_string i1 i2 code msg =
      if i1 == i2
      then pure tt
      else throw (
          raised
            (new code "msg: %v, %v is not equal %v" (concat "[" (concat msg "]") ∷ i1 ∷ i2 ∷ [])))

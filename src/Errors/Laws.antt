-- ===== src/Errors/Laws.antt =====
-- What is known of the parts of a computation that did not panic.
use nacos_k8s.Base.{String, ◌≡◌, refl, ap, Option, none, some, pos, negsuc, eq_iff, ℤ, arith}
use nacos_k8s.Environment.{lift, dereference, and_then}
use nacos_k8s.Errors.{
  Error, Outcome, done, panic, Exec, pure, continue, ensure_equal_int, ensure_equal_string,
  ensure_normal_my_error, ensure_normal, ◌>>=◌,
}

module _ {S A : Type 0} where
  pub invert-pure : (a b : A) (s s' : S) → pure a s ≡ (done b, s') → (a ≡ b) × (s ≡ s')
  invert-pure a b s s' h = (injective (ap (λ r. r.0) h), ap (λ r. r.1) h)
    where
      injective : done a ≡ done b → a ≡ b
      injective h = cc

module _ {S A B : Type 0} where
  invert :
      (r : Outcome A) (f : A → Exec S B) (s s' : S) (b : B)
      → continue r f s ≡ (done b, s')
      → (a : A) × (r ≡ done a) × (f a s ≡ (done b, s'))
  invert (done a) f s s' b h = (a, refl, h)
  invert (panic e) f s s' b h = ground (arith, h)

  -- A sequence that returns has two parts that return.
  pub invert->>= :
      (m : Exec S A) (f : A → Exec S B) (s s' : S) (b : B)
      → (m >>= f) s ≡ (done b, s')
      → (a : A) × (t : S) × (m s ≡ (done a, t)) × (f a t ≡ (done b, s'))
  invert->>= m f s s' b h =
      let i = invert (m s).0 f (m s).1 s' b h in (i.0, (m s).1, ap (λ r. (r, (m s).1)) i.1, i.2)

module _ {S : Type 0} where
  pub invert-ensure_equal_string :
      (a b : String) (code : ℤ) (msg : String) (s s' : S)
      → ensure_equal_string a b code msg s ≡ (done tt, s')
      → (a ≡ b) × (s ≡ s')
  unfolding ensure_equal_string
  invert-ensure_equal_string a b code msg s s' h = ground (arith, eq_iff a b, h)

  pub invert-ensure_equal_int :
      (a b : ℤ) (code : ℤ) (msg : String) (s s' : S)
      → ensure_equal_int a b code msg s ≡ (done tt, s')
      → (a ≡ b) × (s ≡ s')
  unfolding ensure_equal_int
  invert-ensure_equal_int (pos a) (pos b) code msg s s' h = ground (arith, h)
  invert-ensure_equal_int (negsuc a) (negsuc b) code msg s s' h = ground (arith, h)
  invert-ensure_equal_int (pos a) (negsuc b) code msg s s' h = ground (arith, h)
  invert-ensure_equal_int (negsuc a) (pos b) code msg s s' h = ground (arith, h)

  pub invert-ensure_normal :
      (err : Option Error) (s s' : S)
      → ensure_normal err s ≡ (done tt, s')
      → (err ≡ none) × (s ≡ s')
  unfolding ensure_normal
  invert-ensure_normal none s s' h = (refl, ap (λ r. r.1) h)
  invert-ensure_normal (some e) s s' h = ground (arith, h)

  pub invert-ensure_normal_my_error :
      (err : Option Error) (code : ℤ) (s s' : S)
      → ensure_normal_my_error err code s ≡ (done tt, s')
      → (err ≡ none) × (s ≡ s')
  unfolding ensure_normal_my_error
  invert-ensure_normal_my_error none code s s' h = (refl, ap (λ r. r.1) h)
  invert-ensure_normal_my_error (some e) code s s' h = ground (arith, h)

-- `*p` as a step
module _ {A S : Type 0} where
  pub invert-dereference :
      (o : Option A) (a : A) (s s' : S) → lift (dereference o) s ≡ (done a, s') → o ≡ some a
  invert-dereference none a s s' h = ground (arith, h)
  invert-dereference (some b) a s s' h = ap some (invert-pure b a s s' h).0

-- the parts of a computation without effects
pub invert-and_then :
    {A B : Type 0} (m : Outcome A) (f : A → Outcome B) (b : B)
    → and_then m f ≡ done b
    → (a : A) × (m ≡ done a) × (f a ≡ done b)
invert-and_then (done a) f b h = (a, refl, h)
invert-and_then (panic e) f b h = cc

pub done_injective : {A : Type 0} (a b : A) → done a ≡ done b → a ≡ b
done_injective a b h = cc

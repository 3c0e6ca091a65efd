-- ===== src/ApiServer/Frame.antt =====
-- Computations that change only some of the objects, also when they panic.
use nacos_k8s.Base.{◌≡◌, refl, sym, ◌∙◌, Option, none, some, Bool, true, false, if◌then◌else◌}
use mathlib.Core.Path.{subst}
use nacos_k8s.Errors.{
  Error, Fault, Exec, Outcome, done, panic, pure, throw, continue, ensure_normal, ◌>>=◌,
}
use nacos_k8s.Environment.{call, lift}
use nacos_k8s.ApiServer.{Key, Cluster, Within, Same}

-- a change of one object is a change within a set that has its key
pub one-Within :
    (Own : Key → Type 0) (key : Key) (c c' : Cluster)
    → Own key
    → Within (λ q. q ≡ key) c c'
    → Within Own c c'
one-Within Own key c c' own h q n = h q (λ e. n (subst Own (sym e) own))

module _ {K A : Type 0} where
  -- the computation changes no object but those with a key in `Own`
  pub record Frames (view : K → Cluster) (Own : Key → Type 0) (m : Exec K A) : Type 0 where
    pub framed : (k : K) → Within Own (view k) (view (m k).1)

module _ {K A B : Type 0} (view : K → Cluster) (Own : Key → Type 0) where
  after :
      (r : Outcome A) (g : A → Exec K B) (k : K)
      → ((a : A) → Frames view Own (g a))
      → Within Own (view k) (view (continue r g k).1)
  after (done a) g k h q n = (h a).framed k q n
  after (panic f) g k h q n = refl

  pub Frames->>= :
      (m : Exec K A) (g : A → Exec K B)
      → Frames view Own m
      → ((a : A) → Frames view Own (g a))
      → Frames view Own (m >>= g)
  Frames->>= m g h n = record { framed = λ k q p. after (m k).0 g (m k).1 n q p ∙ h.framed k q p }

  -- a part that is computed first, and may panic
  pub Frames-lift->>= :
      (r : Outcome A) (g : A → Exec K B)
      → ((a : A) → r ≡ done a → Frames view Own (g a))
      → Frames view Own (lift r >>= g)
  Frames-lift->>= (done a) g h = record { framed = λ k. (h a refl).framed k }
  Frames-lift->>= (panic f) g h = record { framed = λ k q p. refl }

module _ {K : Type 0} (view : K → Cluster) (Own : Key → Type 0) where
  pub pure-Frames : {A : Type 0} (a : A) → Frames {K = K} view Own (pure a)
  pure-Frames a = record { framed = λ k q p. refl }

  pub throw-Frames : {A : Type 0} (f : Fault) → Frames {K = K} {A = A} view Own (throw f)
  throw-Frames f = record { framed = λ k q p. refl }

  pub ensure_normal-Frames : (err : Option Error) → Frames {K = K} view Own (ensure_normal err)
  unfolding ensure_normal
  ensure_normal-Frames none = pure-Frames tt
  ensure_normal-Frames (some f) = throw-Frames _

  pub if-Frames :
      {A : Type 0} (b : Bool) (m n : Exec K A)
      → Frames view Own m
      → Frames view Own n
      → Frames view Own (if b then m else n)
  if-Frames true m n h k = h
  if-Frames false m n h k = k

  -- a call of the environment
  pub call-Frames :
      {A : Type 0} (m : K → A × K)
      → ((k : K) → Within Own (view k) (view (m k).1))
      → Frames view Own (call m)
  call-Frames m h = record { framed = h }

  -- one that changes no object
  pub still-Frames :
      {A : Type 0} (m : K → A × K)
      → ((k : K) → Same (view k) (view (m k).1))
      → Frames view Own (call m)
  still-Frames m h = record { framed = λ k q p. h k q }

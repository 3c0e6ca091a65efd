-- ===== src/ApiServer/Holds.antt =====
-- What the cluster holds after a computation that did not panic.
use nacos_k8s.Base.{◌≡◌, refl, sym, ◌∙◌, ap, Option, none, some, arith}
use nacos_k8s.Errors.{Error, Exec, Outcome, done, panic, ensure_normal, ◌>>=◌}
use nacos_k8s.Errors.Laws.{invert->>=, invert-ensure_normal}
use nacos_k8s.Environment.{lift}
use nacos_k8s.ApiServer.{Key, Held, Cluster}
use nacos_k8s.ApiServer.Frame.{Frames}

-- the cluster holds an object with this key, and it satisfies `P`
abbrev pub Holds : (key : Key) → (Held key → Type 0) → Cluster → Type 0
Holds key P c = (held : Held key) × (c key ≡ some held) × P held

-- it holds some object with this key
abbrev pub Exists : Key → Cluster → Type 0
Exists key = Holds key (λ held. Unit)

module _ {K A : Type 0} where
  -- where the computation returns, the cluster satisfies `P` after it
  pub record Leaves (view : K → Cluster) (P : Cluster → Type 0) (m : Exec K A) : Type 0 where
    pub left : (k k' : K) (a : A) → m k ≡ (done a, k') → P (view k')

module _ {K : Type 0} (view : K → Cluster) where
  -- what a step changes no object of survives it
  pub Holds-Frames :
      {A : Type 0} (key : Key) (P : Held key → Type 0) (m : Exec K A) (k k' : K) (a : A)
      → Frames view (λ q. key ≡ q → ⊥) m
      → Holds key P (view k)
      → m k ≡ (done a, k')
      → Holds key P (view k')
  Holds-Frames key P m k k' a f h p =
      (h.0, ap (λ r. view r.1 key) (sym p) ∙ f.framed k key (λ n. n refl) ∙ h.1, h.2)

module _ {K A B : Type 0} (view : K → Cluster) where
  -- the first part leaves it, and the second part keeps it
  pub Leaves-first :
      (key : Key) (P : Held key → Type 0) (m : Exec K A) (g : A → Exec K B)
      → Leaves view (Holds key P) m
      → ((a : A) → Frames view (λ q. key ≡ q → ⊥) (g a))
      → Leaves view (Holds key P) (m >>= g)
  Leaves-first key P m g h n = record {
    left = λ k k' b p.
        let i = invert->>= m g k k' b p in
        Holds-Frames view key P (g i.0) i.1 k' b (n i.0) (h.left k i.1 i.0 i.2) i.3;
  }

  -- the second part leaves it
  pub Leaves-second :
      (P : Cluster → Type 0) (m : Exec K A) (g : A → Exec K B)
      → ((a : A) → Leaves view P (g a))
      → Leaves view P (m >>= g)
  Leaves-second P m g h = record {
    left = λ k k' b p. let i = invert->>= m g k k' b p in (h i.0).left i.1 k' b i.3;
  }

  -- a part that is computed first
  pub Leaves-lift->>= :
      (P : Cluster → Type 0) (r : Outcome A) (g : A → Exec K B)
      → ((a : A) → r ≡ done a → Leaves view P (g a))
      → Leaves view P (lift r >>= g)
  Leaves-lift->>= P (done a) g h = record { left = λ k k' b p. (h a refl).left k k' b p }
  Leaves-lift->>= P (panic f) g h = record { left = λ k k' b p. ground (arith, p) }

module _ {K : Type 0} (view : K → Cluster) where
  -- a write whose error is raised
  pub raising-Leaves :
      (P : Cluster → Type 0) (m : Exec K (Option Error))
      → ((k k' : K) → m k ≡ (done none, k') → P (view k'))
      → Leaves view P (m >>= ensure_normal)
  raising-Leaves P m h = record {
    left = λ k k' u p.
        let i = invert->>= m ensure_normal k k' tt p in
        let n = invert-ensure_normal i.0 i.1 k' i.3 in h k k' (i.2 ∙ λ j. (done (n.0 j), n.1 j));
  }

  pub weaken-Leaves :
      {A : Type 0} (P Q : Cluster → Type 0) (m : Exec K A)
      → ((c : Cluster) → P c → Q c)
      → Leaves view P m
      → Leaves view Q m
  weaken-Leaves P Q m f h = record { left = λ k k' a p. f (view k') (h.left k k' a p) }

-- ===== src/Services/StatefulSets/Selection.antt =====
-- The text by which `GetStatefulSetPods` selects pods.
use mathlib.Core.List.{Memᴰ}
use nacos_k8s.Base.{
  ℕ, String, ◌≡◌, refl, sym, ap, ◌∙◌, Bool, true, false, none, some, List, [], ◌∷◌, All, concat,
  join, ◌==◌, eq_iff, eq_refl, if◌then◌else◌,
}
use nacos_k8s.Go.Maps.{Map, IsMap, get, RangeOrder}
use nacos_k8s.Services.StatefulSets.{label_terms}

abbrev pub term : String → String → String
term k v = concat k (concat "=" v)

-- The text that selects by labels: terms `k=v` with commas between them, one for each of the labels
-- and for nothing else.
pub record Asks (labels : String) (m : Map String) : Type 0 where
  pub terms : List String
  pub joined : labels ≡ join "," terms
  pub each : (k v : String) → get k m ≡ some v → Memᴰ (term k v) terms
  pub only : All (λ t. (k : String) × (v : String) × (get k m ≡ some v) × (t ≡ term k v)) terms

some_injective : (a b : String) → some a ≡ some b → a ≡ b
some_injective a b h = cc

each-label_terms :
    (m : Map String) (k v : String) → get k m ≡ some v → Memᴰ (term k v) (label_terms m)
unfolding label_terms get
each-label_terms [] k v h = absurd (cc h)
each-label_terms ((j, u) ∷ r) k v h = split (j == k) refl (each-label_terms r k v) h
  where
    split :
        (b : Bool)
        → (j == k) ≡ b
        → (get k r ≡ some v → Memᴰ (term k v) (label_terms r))
        → (if b then some u else get k r) ≡ some v
        → Memᴰ (term k v) (term j u ∷ label_terms r)
    split true p ih q =
        Memᴰ.head (λ i. term (sym ((eq_iff j k).0 p) i) (sym (some_injective u v q) i))
    split false p ih q = Memᴰ.tail (ih q)

-- a label of the rest is a label of the whole
get-tail :
    (j u k v : String) (r : Map String)
    → get j r ≡ none
    → get k r ≡ some v
    → get k ((j, u) ∷ r) ≡ some v
unfolding get
get-tail j u k v r h p = split (j == k) refl
  where
    split : (b : Bool) → (j == k) ≡ b → (if b then some u else get k r) ≡ some v
    split true q = absurd (cc (sym h ∙ ap (λ t. get t r) ((eq_iff j k).0 q) ∙ p))
    split false q = p

IsLabel : Map String → String → Type 0
IsLabel m t = (k : String) × (v : String) × (get k m ≡ some v) × (t ≡ term k v)

map-All :
    (P Q : String → Type 0) (ts : List String) → ((t : String) → P t → Q t) → All P ts → All Q ts
map-All P Q [] f h = tt
map-All P Q (t ∷ ts) f (h, r) = (f t h, map-All P Q ts f r)

get-head : (j u : String) (r : Map String) → get j ((j, u) ∷ r) ≡ some u
unfolding get
get-head j u r = rw (eq_refl j) refl

only-label_terms : (m : Map String) → IsMap m → All (IsLabel m) (label_terms m)
unfolding label_terms IsLabel
only-label_terms [] h = tt
only-label_terms ((j, u) ∷ r) (h, n) = (
  (j, u, get-head j u r, refl),
  map-All (IsLabel r) (IsLabel ((j, u) ∷ r)) (label_terms r)
      (λ t l. (l.0, l.1, get-tail j u l.0 l.1 r h l.2, l.3)) (only-label_terms r n),
)

pub label_terms-Asks :
    (o : RangeOrder) (n : ℕ) (m : Map String)
    → IsMap m
    → Asks (join "," (label_terms (o.range n String m))) m
unfolding IsLabel
label_terms-Asks o n m h = record {
  terms = label_terms (o.range n String m);
  joined = refl;
  each = λ k v p. each-label_terms (o.range n String m) k v (o.get-range n String m k h ∙ p);
  only =
      map-All (IsLabel (o.range n String m)) (IsLabel m) (label_terms (o.range n String m))
        (λ t l. (l.0, l.1, sym (o.get-range n String m l.0 h) ∙ l.2, l.3))
        (only-label_terms (o.range n String m) (o.range-IsMap n String m h));
}

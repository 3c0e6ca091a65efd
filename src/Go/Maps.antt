-- ===== src/Go/Maps.antt =====
-- Go maps with string keys. A map is an association list that holds each key once; the order in
-- which `for k, v := range m` visits the entries is not the list's, but the choice of a `RangeOrder`.
use nacos_k8s.Base.{
  ℕ, String, ◌≡◌, refl, Option, none, some, List, [], ◌∷◌, arith, ◌==◌, eq_iff, if◌then◌else◌,
}

abbrev pub Map {ℓ} : Type ℓ → Type ℓ
Map V = List (String × V)

module _ {ℓ} {V : Type ℓ} where
  -- `v, ok := m[k]`
  unfoldable pub get : String → Map V → Option V
  get k [] = none
  get k ((j, v) ∷ m) = if j == k then some v else get k m

  -- `m[k] = v`
  unfoldable pub put : String → V → Map V → Map V
  put k v [] = (k, v) ∷ []
  put k v ((j, w) ∷ m) = if j == k then (k, v) ∷ m else (j, w) ∷ put k v m

  -- `for _, v := range m { s = append(s, v) }`, once the entries are in the order of the visits
  unfoldable pub values : Map V → List V
  values [] = []
  values ((k, v) ∷ m) = v ∷ values m

  -- no key is held twice
  abbrev pub IsMap : Map V → Type ℓ
  IsMap [] = Unit
  IsMap ((k, v) ∷ m) = (get k m ≡ none) × IsMap m

  pub get-put :
      (k j : String) (v : V) (m : Map V) → get j (put k v m) ≡ (if k == j then some v else get j m)
  unfolding get put
  get-put k j v [] = refl
  get-put k j v ((i, w) ∷ m) = ground (arith, eq_iff i k, eq_iff i j, eq_iff k j, get-put k j v m)

  pub put-IsMap : (k : String) (v : V) (m : Map V) → IsMap m → IsMap (put k v m)
  unfolding get put
  put-IsMap k v [] h = (refl, tt)
  put-IsMap k v ((i, w) ∷ m) h =
      ground (arith, eq_iff i k, get-put k i v m, eq_iff k i, put-IsMap k v m)

-- One loop of the source is one number; at each, the run-time chooses an order. Go's language
-- specification promises that a `range` loop visits every entry of the map exactly once, and
-- nothing about the order. A `RangeOrder` is one execution that gives equal maps the same order
-- whenever it comes to the same loop again; executions that do not are not covered.
pub record RangeOrder : Type 1 where
  pub range : ℕ → (V : Type 0) → Map V → Map V
  pub range-IsMap : (n : ℕ) (V : Type 0) (m : Map V) → IsMap m → IsMap (range n V m)
  pub get-range :
      (n : ℕ) (V : Type 0) (m : Map V) (k : String) → IsMap m → get k (range n V m) ≡ get k m

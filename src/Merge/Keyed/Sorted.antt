-- ===== src/Merge/Keyed/Sorted.antt =====
-- The slice that a keyed merge of operator/pkg/util/merge returns: sorted, one element for each
-- key.
use nacos_k8s.Base.{
  ap, ℕ, ◌+◌, String, ◌≡◌, refl, sym, ◌∙◌, Option, none, some, List, [], ◌∷◌, arith, eq_iff,
  eq_refl, ap₂,
}
use nacos_k8s.Go.Maps.{Map, IsMap, get, values, RangeOrder}
use nacos_k8s.Go.Sort.{
  find_by, HasDistinctKeys, IsAscending, slice_stable, by_key, find_by-slice_stable,
  slice_stable-IsAscending, IsAscending-eq,
}
use nacos_k8s.Merge.Keyed.{create_map, merge_maps, collect, merge_by}
use nacos_k8s.Merge.Keyed.Lookup.{
  combine, last_by, last_by-key, get-create_map, create_map-IsMap, merge_maps-IsMap, get-merge_maps,
}

module _ {ℓ} {A : Type ℓ} (key : A → String) where
  -- every value is stored under its own key
  abbrev pub IsKeyed : Map A → Type ℓ
  IsKeyed m = (k : String) (v : A) → get k m ≡ some v → key v ≡ k

  IsKeyed-tail :
      (j : String) (v : A) (m : Map A) → get j m ≡ none → IsKeyed ((j, v) ∷ m) → IsKeyed m
  unfolding get
  IsKeyed-tail j v m h d k w e = d k w (ground (arith, eq_iff j k))

  IsKeyed-head : (j : String) (v : A) (m : Map A) → IsKeyed ((j, v) ∷ m) → key v ≡ j
  unfolding get
  IsKeyed-head j v m d = d j v (ground (arith, eq_refl j))

  pub find_by-values :
      (k : String) (m : Map A) → IsMap m → IsKeyed m → find_by key k (values m) ≡ get k m
  unfolding find_by values get
  find_by-values k [] h d = refl
  find_by-values k ((j, v) ∷ m) h d =
      ground (arith, IsKeyed-head j v m d, find_by-values k m h.1 (IsKeyed-tail j v m h.0 d))

  pub values-HasDistinctKeys : (m : Map A) → IsMap m → IsKeyed m → HasDistinctKeys key (values m)
  unfolding values
  values-HasDistinctKeys [] h d = tt
  values-HasDistinctKeys ((j, v) ∷ m) h d =
      let rest = IsKeyed-tail j v m h.0 d in
      (
        rw (IsKeyed-head j v m d) (find_by-values j m h.1 rest ∙ h.0),
        values-HasDistinctKeys m h.1 rest,
      )

module _ (o : RangeOrder) {A : Type 0} (n : ℕ) (key : A → String) (m : Map A) (h : IsMap m)
    (d : IsKeyed key m) where
  range-IsKeyed : IsKeyed key (o.range n A m)
  range-IsKeyed k v e = d k v (sym (o.get-range n A m k h) ∙ e)

module _ (o : RangeOrder) {A : Type 0} (n : ℕ) (key : A → String) (m : Map A) (h : IsMap m)
    (d : IsKeyed key m) where
  -- Collecting the values of a map and sorting them by key loses nothing and adds nothing.
  pub find_by-sorted :
      (k : String) → find_by key k (slice_stable (by_key key) (collect o n m)) ≡ get k m
  unfolding collect
  find_by-sorted k =
      find_by-slice_stable key k (values (o.range (n + 2) A m))
      ∙ find_by-values key k (o.range (n + 2) A m) (o.range-IsMap (n + 2) A m h)
          (range-IsKeyed o (n + 2) key m h d)
      ∙ o.get-range (n + 2) A m k h

  pub sorted-IsAscending : IsAscending key (slice_stable (by_key key) (collect o n m))
  unfolding collect
  sorted-IsAscending = slice_stable-IsAscending key (values (o.range (n + 2) A m)) (
      values-HasDistinctKeys key (o.range (n + 2) A m) (o.range-IsMap (n + 2) A m h)
        (range-IsKeyed o (n + 2) key m h d))

-- a merge of two elements with one key keeps that key
abbrev pub KeepsKey {ℓ} : {A : Type ℓ} → (A → String) → (A → A → A) → Type ℓ
KeepsKey {A} key f = (a b : A) → key a ≡ key b → key (f a b) ≡ key b

module _ {A : Type 0} (key : A → String) (original override : List A) where
  -- `f` keeps the key of those pairs that the merge of the two slices joins
  abbrev pub KeepsKeyOn : (A → A → A) → Type 0
  KeepsKeyOn f =
      (k : String) (a b : A)
      → last_by key k original ≡ some a
      → last_by key k override ≡ some b
      → key (f a b) ≡ k

  -- two functions join those pairs alike
  abbrev pub AgreeOn : (A → A → A) → (A → A → A) → Type 0
  AgreeOn f g =
      (k : String) (a b : A)
      → last_by key k original ≡ some a
      → last_by key k override ≡ some b
      → f a b ≡ g a b

  pub KeepsKey→KeepsKeyOn : (f : A → A → A) → KeepsKey key f → KeepsKeyOn f
  KeepsKey→KeepsKeyOn f keeps k a b ha hb =
      let ka = last_by-key key k original a ha in
      let kb = last_by-key key k override b hb in keeps a b (ka ∙ sym kb) ∙ kb

combine-key {ℓ} :
    {A : Type ℓ} (key : A → String) (f : A → A → A) (k : String) (x y : Option A) (v : A)
    → ((a : A) → x ≡ some a → key a ≡ k)
    → ((b : A) → y ≡ some b → key b ≡ k)
    → ((a b : A) → x ≡ some a → y ≡ some b → key (f a b) ≡ k)
    → combine f x y ≡ some v
    → key v ≡ k
combine-key key f k none none v hx hy hf e = cc
combine-key key f k none (some b) v hx hy hf e = hy v e
combine-key key f k (some a) none v hx hy hf e = hx v e
combine-key key f k (some a) (some b) v hx hy hf e = ground (arith, hf a b refl refl)

combine-agree {ℓ} :
    {A : Type ℓ} (f g : A → A → A) (x y : Option A)
    → ((a b : A) → x ≡ some a → y ≡ some b → f a b ≡ g a b)
    → combine f x y ≡ combine g x y
combine-agree f g none y h = refl
combine-agree f g (some a) none h = refl
combine-agree f g (some a) (some b) h = ap some (h a b refl refl)

module _ (o : RangeOrder) (n : ℕ) {A : Type 0} (key : A → String) (f : A → A → A)
    (original override : List A) (keeps : KeepsKeyOn key original override f) where
  merged_at :
      (k : String)
      → get k (merge_maps o n f (create_map key original) (create_map key override))
        ≡ combine f (last_by key k original) (last_by key k override)
  merged_at k =
      get-merge_maps o n f (create_map key original) (create_map key override) k
        (create_map-IsMap key original) (create_map-IsMap key override)
      ∙ ap₂ (combine f) (get-create_map key k original) (get-create_map key k override)

  merged-IsMap : IsMap (merge_maps o n f (create_map key original) (create_map key override))
  merged-IsMap = merge_maps-IsMap o n f (create_map key original) (create_map key override)

  merged-IsKeyed :
      IsKeyed key (merge_maps o n f (create_map key original) (create_map key override))
  merged-IsKeyed k v e =
      combine-key key f k (last_by key k original) (last_by key k override) v
        (last_by-key key k original) (last_by-key key k override) (keeps k) (sym (merged_at k) ∙ e)

  -- At each key the result holds the last element of either side with that key, combined.
  pub find_by-merge_by :
      (k : String)
      → find_by key k (merge_by o n key f original override)
        ≡ combine f (last_by key k original) (last_by key k override)
  unfolding merge_by
  find_by-merge_by k =
      find_by-sorted o n key (merge_maps o n f (create_map key original) (create_map key override))
        merged-IsMap merged-IsKeyed k
      ∙ merged_at k

  pub merge_by-IsAscending : IsAscending key (merge_by o n key f original override)
  unfolding merge_by
  merge_by-IsAscending =
      sorted-IsAscending o n key
        (merge_maps o n f (create_map key original) (create_map key override)) merged-IsMap
        merged-IsKeyed

-- The result does not depend on the orders in which the maps are visited.
pub merge_by_deterministic :
    (o p : RangeOrder) (n : ℕ) {A : Type 0} (key : A → String) (f g : A → A → A)
    (original override : List A)
    → KeepsKeyOn key original override f
    → AgreeOn key original override f g
    → merge_by o n key f original override ≡ merge_by p n key g original override
merge_by_deterministic o p n key f g original override keeps agree =
    IsAscending-eq key _ _ (merge_by-IsAscending o n key f original override keeps)
      (merge_by-IsAscending p n key g original override keeps')
      (λ k.
        find_by-merge_by o n key f original override keeps k
        ∙ combine-agree f g _ _ (agree k)
        ∙ sym (find_by-merge_by p n key g original override keeps' k))
  where
    keeps' : KeepsKeyOn key original override g
    keeps' k a b ha hb = ap key (sym (agree k a b ha hb)) ∙ keeps k a b ha hb

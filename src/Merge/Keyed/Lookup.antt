-- ===== src/Merge/Keyed/Lookup.antt =====
-- What the merged map of operator/pkg/util/merge holds for each key.
use nacos_k8s.Base.{
  ℕ, ◌+◌, String, ◌≡◌, refl, Option, none, some, List, [], ◌∷◌, arith, ◌==◌, eq_iff, if◌then◌else◌,
  or_else, option_map,
}
use nacos_k8s.Go.Maps.{Map, IsMap, get, put, get-put, put-IsMap, RangeOrder}
use nacos_k8s.Merge.Keyed.{fill, create_map, copy_entries, merge_entry, merge_entries, merge_maps}

module _ {ℓ} {A : Type ℓ} where
  -- The specification of a merge at one key: `f` joins what both sides hold.
  abbrev pub combine : (A → A → A) → Option A → Option A → Option A
  combine f none y = y
  combine f (some a) none = some a
  combine f (some a) (some b) = some (f a b)

  -- the last element with the key
  unfoldable pub last_by : (A → String) → String → List A → Option A
  last_by key k [] = none
  last_by key k (v ∷ vs) = or_else (last_by key k vs) (if key v == k then some v else none)

  pub last_by-key :
      (key : A → String) (k : String) (vs : List A) (v : A) → last_by key k vs ≡ some v → key v ≡ k
  unfolding last_by
  last_by-key key k [] v h = absurd (ground arith)
  last_by-key key k (w ∷ vs) v h = ground (arith, eq_iff (key w) k, last_by-key key k vs v)

  pub get-fill :
      (key : A → String) (k : String) (m : Map A) (vs : List A)
      → get k (fill key m vs) ≡ or_else (last_by key k vs) (get k m)
  unfolding fill last_by
  get-fill key k m [] = refl
  get-fill key k m (v ∷ vs) =
      ground (arith, get-fill key k (put (key v) v m) vs, get-put (key v) k v m)

  pub fill-IsMap : (key : A → String) (m : Map A) (vs : List A) → IsMap m → IsMap (fill key m vs)
  unfolding fill
  fill-IsMap key m [] h = h
  fill-IsMap key m (v ∷ vs) h = fill-IsMap key (put (key v) v m) vs (put-IsMap (key v) v m h)

  pub get-create_map :
      (key : A → String) (k : String) (vs : List A) → get k (create_map key vs) ≡ last_by key k vs
  unfolding create_map get
  get-create_map key k vs = ground (arith, get-fill key k [] vs)

  pub create_map-IsMap : (key : A → String) (vs : List A) → IsMap (create_map key vs)
  unfolding create_map
  create_map-IsMap key vs = fill-IsMap key [] vs tt

  pub get-copy_entries :
      (j : String) (m r : Map A) → IsMap r → get j (copy_entries m r) ≡ or_else (get j r) (get j m)
  unfolding copy_entries get
  get-copy_entries j m [] h = refl
  get-copy_entries j m ((k, v) ∷ r) h =
      ground (arith, get-copy_entries j (put k v m) r, get-put k j v m, eq_iff k j)

  pub copy_entries-IsMap : (m r : Map A) → IsMap m → IsMap (copy_entries m r)
  unfolding copy_entries
  copy_entries-IsMap m [] h = h
  copy_entries-IsMap m ((k, v) ∷ r) h = copy_entries-IsMap (put k v m) r (put-IsMap k v m h)

  pub get-merge_entries :
      (f : A → A → A) (j : String) (o m r : Map A)
      → IsMap r
      → get j (merge_entries f o m r)
        ≡ or_else (option_map (merge_entry f (get j o)) (get j r)) (get j m)
  unfolding merge_entries get
  get-merge_entries f j o m [] h = refl
  get-merge_entries f j o m ((k, v) ∷ r) h =
      let w = merge_entry f (get k o) v in
      ground (arith, get-merge_entries f j o (put k w m) r, get-put k j w m, eq_iff k j)

  pub merge_entries-IsMap :
      (f : A → A → A) (o m r : Map A) → IsMap m → IsMap (merge_entries f o m r)
  unfolding merge_entries
  merge_entries-IsMap f o m [] h = h
  merge_entries-IsMap f o m ((k, v) ∷ r) h =
      let w = merge_entry f (get k o) v in merge_entries-IsMap f o (put k w m) r (put-IsMap k w m h)

module _ (o : RangeOrder) {A : Type 0} (n : ℕ) (f : A → A → A) (original override : Map A) where
  pub merge_maps-IsMap : IsMap (merge_maps o n f original override)
  unfolding merge_maps
  merge_maps-IsMap =
      merge_entries-IsMap f original _ (o.range (n + 1) A override)
        (copy_entries-IsMap [] (o.range n A original) tt)

  -- Whatever the iteration orders, the merged map holds at each key what both maps hold, combined.
  pub get-merge_maps :
      (k : String)
      → IsMap original
      → IsMap override
      → get k (merge_maps o n f original override) ≡ combine f (get k original) (get k override)
  unfolding merge_maps merge_entry get
  get-merge_maps k h g = ground (
    arith,
    get-merge_entries f k original (copy_entries [] (o.range n A original))
        (o.range (n + 1) A override),
    get-copy_entries k [] (o.range n A original),
    o.range-IsMap n A original h,
    o.range-IsMap (n + 1) A override g,
    o.get-range n A original k h,
    o.get-range (n + 1) A override k g,
  )

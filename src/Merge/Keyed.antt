-- ===== src/Merge/Keyed.antt =====
-- operator/pkg/util/merge: the loops that most functions of the package share. Two slices are
-- turned into maps by a key of their elements, the maps are merged, and the values of the result
-- are collected into a slice.
pub mod Lookup
pub mod Sorted
use nacos_k8s.Base.{ℕ, ◌+◌, String, Option, none, some, List, [], ◌∷◌}
use nacos_k8s.Go.Maps.{Map, get, put, values, RangeOrder}
use nacos_k8s.Go.Sort.{slice_stable, by_key}

module _ {ℓ} {A : Type ℓ} where
  -- `for _, v := range vs { m[key(v)] = v }`
  unfoldable pub fill : (A → String) → Map A → List A → Map A
  fill key m [] = m
  fill key m (v ∷ vs) = fill key (put (key v) v m) vs

  unfoldable pub create_map : (A → String) → List A → Map A
  unfolding fill
  create_map key vs = fill key [] vs

  -- `for k, v := range original { merged[k] = v }`, over the entries in the order of the visits
  unfoldable pub copy_entries : Map A → Map A → Map A
  copy_entries merged [] = merged
  copy_entries merged ((k, v) ∷ r) = copy_entries (put k v merged) r

  -- `if orig, ok := original[k]; ok { f(orig, v) } else { v }`
  unfoldable pub merge_entry : (A → A → A) → Option A → A → A
  merge_entry f none v = v
  merge_entry f (some orig) v = f orig v

  -- `for k, v := range override { merged[k] = ... }`
  unfoldable pub merge_entries : (A → A → A) → Map A → Map A → Map A → Map A
  unfolding merge_entry
  merge_entries f original merged [] = merged
  merge_entries f original merged ((k, v) ∷ r) =
      merge_entries f original (put k (merge_entry f (get k original) v) merged) r

module _ (o : RangeOrder) {A : Type 0} where
  -- the two loops that fill the merged map; they are the loops `n` and `n + 1` of the program
  unfoldable pub merge_maps : ℕ → (A → A → A) → Map A → Map A → Map A
  unfolding copy_entries merge_entries
  merge_maps n f original override =
      merge_entries f original (copy_entries [] (o.range n A original)) (o.range (n + 1) A override)

  -- the loop `n + 2`, which collects the values
  unfoldable pub collect : ℕ → Map A → List A
  collect n m = values (o.range (n + 2) A m)

  -- the body of `Containers`, `VolumeDevices`, `Envs` and others
  unfoldable pub merge_by : ℕ → (A → String) → (A → A → A) → List A → List A → List A
  unfolding create_map merge_maps collect
  merge_by n key f original override =
      slice_stable (by_key key)
        (collect n (merge_maps n f (create_map key original) (create_map key override)))

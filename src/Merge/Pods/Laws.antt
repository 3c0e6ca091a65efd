-- ===== src/Merge/Pods/Laws.antt =====
-- The tolerations that a merge of two pods returns.
use nacos_k8s.Base.{String, ◌≡◌, sym, ap, ◌∙◌, Option, none, some, List, or_else}
use nacos_k8s.Go.Maps.{Map, IsMap, get, RangeOrder}
use nacos_k8s.Go.Sort.{find_by, IsAscending}
use nacos_k8s.Kube.{Toleration}
use nacos_k8s.Merge.Keyed.{fill, create_map}
use nacos_k8s.Merge.Keyed.Lookup.{
  last_by, last_by-key, get-fill, fill-IsMap, get-create_map, create_map-IsMap,
}
use nacos_k8s.Merge.Keyed.Sorted.{IsKeyed, find_by-sorted, sorted-IsAscending}
use nacos_k8s.Merge.Pods.{tolerations}

or_else-key {ℓ} :
    {A : Type ℓ} (key : A → String) (k : String) (x y : Option A) (v : A)
    → ((a : A) → x ≡ some a → key a ≡ k)
    → ((b : A) → y ≡ some b → key b ≡ k)
    → or_else x y ≡ some v
    → key v ≡ k
or_else-key key k none y v p q h = q v h
or_else-key key k (some a) y v p q h = p v h

module _ (default over : List Toleration) where
  abbrev merged : Map Toleration
  merged = fill (λ t. t.key) (create_map (λ t. t.key) default) over

  get-merged :
      (k : String)
      → get k merged ≡ or_else (last_by (λ t. t.key) k over) (last_by (λ t. t.key) k default)
  get-merged k =
      get-fill (λ t. t.key) k (create_map (λ t. t.key) default) over
      ∙ ap (or_else (last_by (λ t. t.key) k over)) (get-create_map (λ t. t.key) k default)

  merged-IsMap : IsMap merged
  merged-IsMap =
      fill-IsMap (λ t. t.key) (create_map (λ t. t.key) default) over
        (create_map-IsMap (λ t. t.key) default)

  merged-IsKeyed : IsKeyed (λ t. t.key) merged
  merged-IsKeyed k v e =
      or_else-key (λ t. t.key) k (last_by (λ t. t.key) k over) (last_by (λ t. t.key) k default) v
        (last_by-key (λ t. t.key) k over) (last_by-key (λ t. t.key) k default)
        (sym (get-merged k) ∙ e)

-- `Tolerations` returns one toleration for each key, in ascending order: the override's last one with
-- the key, and where it has none, the default's last one.
pub tolerations_lookup :
    (o : RangeOrder) (default over : List Toleration)
    → IsAscending (λ t. t.key) (tolerations o default over)
      × ((k : String)
          → find_by (λ t. t.key) k (tolerations o default over)
            ≡ or_else (last_by (λ t. t.key) k over) (last_by (λ t. t.key) k default))
unfolding tolerations
tolerations_lookup o default over = (
  sorted-IsAscending o 110 (λ t. t.key) (merged default over) (merged-IsMap default over)
      (merged-IsKeyed default over),
  λ k.
      find_by-sorted o 110 (λ t. t.key) (merged default over) (merged-IsMap default over)
        (merged-IsKeyed default over) k
      ∙ get-merged default over k,
)

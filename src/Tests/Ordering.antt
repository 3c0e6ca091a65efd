-- ===== src/Tests/Ordering.antt =====
-- Two executions that visit the maps in opposite orders merge the containers alike.
use mathlib.Core.Path.{subst}
use nacos_k8s.Base.{
  String, ◌≡◌, refl, sym, ◌∙◌, ap, true, false, Bool, none, some, List, [], ◌∷◌, ◌++◌, ◌==◌, eq_iff,
  or_else, if◌then◌else◌, arith,
}
use nacos_k8s.Go.Maps.{Map, IsMap, get, RangeOrder}
use nacos_k8s.Kube.{Container, VolumeMount}
use nacos_k8s.Merge.Keyed.Lookup.{last_by}
use nacos_k8s.Merge.Containers.{volume_mount, volume_mount_to_string, containers}
use nacos_k8s.Merge.Containers.Orders.{MountsKeepKey, containers_deterministic}
use nacos_k8s.Tests.{in_order, a_container}
use nacos_k8s.Tests.Merging.{a_sidecar}

abbrev backwards : {V : Type 0} → Map V → Map V
backwards [] = []
backwards (p ∷ m) = backwards m ++ (p ∷ [])

module _ {V : Type 0} where
  get-snoc :
      (k j : String) (v : V) (m : Map V)
      → get k (m ++ ((j, v) ∷ [])) ≡ or_else (get k m) (if j == k then some v else none)
  unfolding get
  get-snoc k j v [] = refl
  get-snoc k j v ((i, w) ∷ m) = ground (arith, get-snoc k j v m)

  snoc-IsMap :
      (j : String) (v : V) (m : Map V) → IsMap m → get j m ≡ none → IsMap (m ++ ((j, v) ∷ []))
  unfolding get
  snoc-IsMap j v [] h n = (refl, tt)
  snoc-IsMap j v ((i, w) ∷ m) h n =
      ground (arith, eq_iff i j, eq_iff j i, get-snoc i j v m, snoc-IsMap j v m)

  get-backwards : (k : String) (m : Map V) → IsMap m → get k (backwards m) ≡ get k m
  unfolding get
  get-backwards k [] h = refl
  get-backwards k ((j, v) ∷ m) (n, h) =
      get-snoc k j v (backwards m) ∙ ground (arith, eq_iff j k, get-backwards k m h, n)

  backwards-IsMap : (m : Map V) → IsMap m → IsMap (backwards m)
  backwards-IsMap [] h = tt
  backwards-IsMap ((j, v) ∷ m) (n, h) =
      snoc-IsMap j v (backwards m) (backwards-IsMap m h) (get-backwards j m h ∙ n)

-- every loop visits its map from the end
abbrev reversed : RangeOrder
reversed = record {
  range = λ n V m. backwards m;
  range-IsMap = λ n V m h. backwards-IsMap m h;
  get-range = λ n V m k h. get-backwards k m h;
}

abbrev a_mount : Bool → VolumeMount
a_mount read_only = record {
  name = "data";
  read_only = read_only;
  mount_path = "/home/nacos/data";
  sub_path = "";
  mount_propagation = none;
  sub_path_expr = "";
}

abbrev mounting : Bool → Container
mounting read_only = record a_container { volume_mounts = a_mount read_only ∷ [] }

abbrev given : List Container
given = mounting false ∷ a_sidecar ∷ []

abbrev overriding : List Container
overriding = mounting true ∷ []

only :
    {A : Type 0} (key : A → String) (c a : A) (k : String)
    → last_by key k (c ∷ []) ≡ some a
    → (a ≡ c) × (key c ≡ k)
unfolding last_by
only key c a k h = ground (arith, eq_iff (key c) k)

first_given : (a : Container) → last_by (λ c. c.name) "nacos" given ≡ some a → a ≡ mounting false
unfolding last_by
first_given a h = cc

mounts_keep : MountsKeepKey (a_mount false ∷ []) (a_mount true ∷ [])
unfolding volume_mount volume_mount_to_string
mounts_keep k a b ha hb =
    let x = only volume_mount_to_string (a_mount false) a k ha in
    let y = only volume_mount_to_string (a_mount true) b k hb in
    ap (λ m. volume_mount_to_string (volume_mount m b)) x.0
    ∙ ap (λ m. volume_mount_to_string (volume_mount (a_mount false) m)) y.0
    ∙ x.1

merged_mounts_keep :
    (k : String) (a b : Container)
    → last_by (λ c. c.name) k given ≡ some a
    → last_by (λ c. c.name) k overriding ≡ some b
    → MountsKeepKey a.volume_mounts b.volume_mounts
merged_mounts_keep k a b ha hb =
    let y = only (λ c. c.name) (mounting true) b k hb in
    let x = first_given a (subst (λ n. last_by (λ c. c.name) n given ≡ some a) (sym y.1) ha) in
    subst (λ c. MountsKeepKey c.volume_mounts b.volume_mounts) (sym x)
      (subst (λ c. MountsKeepKey (a_mount false ∷ []) c.volume_mounts) (sym y.0) mounts_keep)

containers_deterministic_example :
    containers in_order given overriding ≡ containers reversed given overriding
containers_deterministic_example =
    containers_deterministic in_order reversed given overriding merged_mounts_keep

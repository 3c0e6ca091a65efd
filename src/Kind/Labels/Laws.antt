-- ===== src/Kind/Labels/Laws.antt =====
-- The labels that the operator puts on every object.
use nacos_k8s.Base.{String, ◌≡◌, refl, [], arith, or_else}
use nacos_k8s.Go.Maps.{Map, IsMap, get, RangeOrder}
use nacos_k8s.Api.{Nacos}
use nacos_k8s.Merge.Fields.{put_all}
use nacos_k8s.Merge.Fields.Laws.{get-put_all}
use nacos_k8s.Kind.Labels.{generate_labels, nacos_name, merge_labels, nacos_labels}

generate_labels-IsMap : (name component : String) → IsMap (generate_labels name component)
unfolding generate_labels get
generate_labels-IsMap name component = (refl, (refl, (refl, tt)))

-- The operator's own labels `app`, `middleware` and `component` win over labels of the resource with
-- those names; every other label of the resource is kept, and there are no more.
pub get-nacos_labels :
    (o : RangeOrder) (n : Nacos) (k : String)
    → IsMap n.meta.labels
    → get k (nacos_labels o n)
      ≡ or_else (get k (generate_labels n.meta.name nacos_name)) (get k n.meta.labels)
unfolding nacos_labels merge_labels get
get-nacos_labels o n k h =
    let own = generate_labels n.meta.name nacos_name in
    let own-IsMap = generate_labels-IsMap n.meta.name nacos_name in
    let first : Map String = put_all [] (o.range 10 String n.meta.labels) in
    ground (
      arith,
      get-put_all k first (o.range 10 String own) (o.range-IsMap 10 String own own-IsMap),
      get-put_all k [] (o.range 10 String n.meta.labels) (o.range-IsMap 10 String n.meta.labels h),
      o.get-range 10 String own k own-IsMap,
      o.get-range 10 String n.meta.labels k h,
    )

-- ===== src/Kind/Labels.antt =====
-- Kind.go: names, labels and annotations.
pub mod Laws
use nacos_k8s.Base.{String, List, [], ◌∷◌, concat}
use nacos_k8s.Go.Maps.{Map, RangeOrder}
use nacos_k8s.Api.{Nacos}
use nacos_k8s.Merge.Fields.{put_all}

abbrev pub nacos_name : String
nacos_name = "nacos"

unfoldable pub generate_labels : String → String → Map String
generate_labels name component =
    ("app", name) ∷ ("middleware", nacos_name) ∷ ("component", component) ∷ []

unfoldable pub generate_annoation : Map String
generate_annoation = []

module _ (o : RangeOrder) where
  -- the two nested loops; the inner one is loop 10
  merge_labels_into : Map String → List (Map String) → Map String
  merge_labels_into res [] = res
  merge_labels_into res (labels ∷ r) = merge_labels_into (put_all res (o.range 10 String labels)) r

  unfoldable pub merge_labels : List (Map String) → Map String
  unfolding merge_labels_into put_all
  merge_labels all_labels = merge_labels_into [] all_labels

  -- `labels := generateLabels(nacos.Name, NACOS); MergeLabels(nacos.Labels, labels)`
  unfoldable pub nacos_labels : Nacos → Map String
  unfolding merge_labels generate_labels
  nacos_labels nacos =
      merge_labels (nacos.meta.labels ∷ generate_labels nacos.meta.name nacos_name ∷ [])

  -- `MergeLabels(generateAnnoation(), nacos.Annotations)`
  unfoldable pub nacos_annotations : Nacos → Map String
  unfolding merge_labels generate_annoation
  nacos_annotations nacos = merge_labels (generate_annoation ∷ nacos.meta.annotations ∷ [])

unfoldable pub generate_name : Nacos → String
generate_name nacos = nacos.meta.name

unfoldable pub generate_headless_svc_name : Nacos → String
generate_headless_svc_name nacos = concat nacos.meta.name "-headless"

unfoldable pub generate_client_svc_name : Nacos → String
generate_client_svc_name nacos = concat nacos.meta.name "-client"

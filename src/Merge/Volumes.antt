-- ===== src/Merge/Volumes.antt =====
-- operator/pkg/util/merge/merge.go and merge_statefulset.go: volumes and volume claims.
use nacos_k8s.Base.{String, Option, none, some, List, [], ◌∷◌, ◌++◌, ◌==◌, if◌then◌else◌}
use nacos_k8s.Go.Maps.{Map, get, put, RangeOrder}
use nacos_k8s.Go.Sort.{slice_stable, by_key}
use nacos_k8s.Contains
use nacos_k8s.Kube.{
  KeyToPath, VolumeSource, Volume, PersistentVolumeClaim, PersistentVolumeClaimSpec,
  EmptyDirVolumeSource, SecretVolumeSource, ConfigMapVolumeSource,
}
use nacos_k8s.Merge.Fields.{or_string, or_nil}
use nacos_k8s.Merge.Keyed.{create_map, collect}

unfoldable pub merge_key_to_path : KeyToPath → KeyToPath → KeyToPath
merge_key_to_path default over =
    if default.key == over.key
    then record default {
      path = or_string over.path default.path;
      mode = or_nil over.mode default.mode;
    }
    else default

-- the loop over the default items
unfoldable pub merged_items : Map KeyToPath → List KeyToPath → Map KeyToPath → List KeyToPath
merged_items overrides items [] = items
merged_items overrides items ((k, default) ∷ r) =
    merged_items overrides
      (items
        ++ (elim (get default.key overrides) [
          | some over ↦ merge_key_to_path default over
          | none ↦ default
        ])
          ∷ [])
      r

-- the loop over the override items
unfoldable pub added_items : Map KeyToPath → List KeyToPath → Map KeyToPath → List KeyToPath
added_items defaults items [] = items
added_items defaults items ((k, over) ∷ r) =
    added_items defaults
      (elim (get over.key defaults) [ some d ↦ items | none ↦ items ++ over ∷ [] ]) r

-- loops 90 and 91; the result is not sorted
unfoldable pub merge_key_to_path_items :
    RangeOrder → List KeyToPath → List KeyToPath → List KeyToPath
unfolding merged_items added_items create_map merge_key_to_path
merge_key_to_path_items o default_items override_items =
    let defaults = create_map (λ i. i.key) default_items in
    let overrides = create_map (λ i. i.key) override_items in
    added_items defaults (merged_items overrides [] (o.range 90 KeyToPath defaults))
      (o.range 91 KeyToPath overrides)

merge_empty_dir : EmptyDirVolumeSource → EmptyDirVolumeSource → EmptyDirVolumeSource
merge_empty_dir default over = record {
  medium = or_string over.medium default.medium;
  size_limit = or_nil over.size_limit default.size_limit;
}

merge_secret : RangeOrder → SecretVolumeSource → SecretVolumeSource → SecretVolumeSource
unfolding merge_key_to_path_items
merge_secret o default over = record default {
  secret_name = or_string over.secret_name default.secret_name;
  items = merge_key_to_path_items o default.items over.items;
  default_mode = or_nil over.default_mode default.default_mode;
}

merge_config_map :
    RangeOrder → ConfigMapVolumeSource → ConfigMapVolumeSource → ConfigMapVolumeSource
unfolding merge_key_to_path_items
merge_config_map o default over = record {
  name = or_string over.name default.name;
  items = merge_key_to_path_items o default.items over.items;
  default_mode = or_nil over.default_mode default.default_mode;
  optional = or_nil over.optional default.optional;
}

-- the tests that both sides have a source of one kind, in the order of the code; the arguments are
-- the override's and the default's pointers of the kind
if_both {ℓ κ} : {A : Type ℓ} {B : Type κ} → Option A → Option A → (A → A → B) → B → B
if_both (some over) (some default) f otherwise = f over default
if_both none _ f otherwise = otherwise
if_both (some _) none f otherwise = otherwise

-- The source writes through the pointers of the default volume, which is the operator's own.
unfoldable pub volume : RangeOrder → Volume → Volume → Volume
unfolding if_both merge_empty_dir merge_secret merge_config_map
volume o default_volume override_volume =
    let over : VolumeSource = override_volume.volume_source in
    let default : VolumeSource = default_volume.volume_source in
    if_both over.empty_dir default.empty_dir
      (λ x d. record default_volume {
        volume_source = record default { empty_dir = some (merge_empty_dir d x) };
      })
      (if_both over.secret default.secret
        (λ x d. record default_volume {
          volume_source = record default { secret = some (merge_secret o d x) };
        })
        (if_both over.config_map default.config_map
          (λ x d. record default_volume {
            volume_source = record default { config_map = some (merge_config_map o d x) };
          })
          (record default_volume { volume_source = over })))

-- the loop over the default volumes
merged_volumes : RangeOrder → Map Volume → List Volume → List Volume → List Volume
unfolding volume
merged_volumes o overrides acc [] = acc
merged_volumes o overrides acc (default ∷ r) =
    merged_volumes o overrides
      (acc
        ++ (elim (get default.name overrides) [
          | some over ↦ volume o default over
          | none ↦ default
        ])
          ∷ [])
      r

-- the loop over the override volumes
added_volumes : Map Volume → List Volume → List Volume → List Volume
added_volumes defaults acc [] = acc
added_volumes defaults acc (over ∷ r) =
    added_volumes defaults
      (elim (get over.name defaults) [ some d ↦ acc | none ↦ acc ++ over ∷ [] ]) r

unfoldable pub volumes : RangeOrder → List Volume → List Volume → List Volume
unfolding merged_volumes added_volumes create_map
volumes o default_volumes override_volumes = slice_stable (by_key (λ v. v.name)) (
    added_volumes (create_map (λ v. v.name) default_volumes)
      (merged_volumes o (create_map (λ v. v.name) override_volumes) [] default_volumes)
      override_volumes)

-- the loop of `PersistentVolumeClaim` over the override's access modes
unfoldable pub append_modes : List String → List String → List String
append_modes modes [] = modes
append_modes modes (mode ∷ r) =
    append_modes (if Contains.access_mode modes mode then modes else modes ++ mode ∷ []) r

unfoldable pub persistent_volume_claim :
    PersistentVolumeClaim → PersistentVolumeClaim → PersistentVolumeClaim
unfolding append_modes
persistent_volume_claim default over =
    let d : PersistentVolumeClaimSpec = default.spec in
    let x : PersistentVolumeClaimSpec = over.spec in
    record default {
      meta = record (default.meta) {
        namespace = or_string over.meta.namespace default.meta.namespace;
      };
      spec = record d {
        volume_mode = or_nil x.volume_mode d.volume_mode;
        storage_class_name = or_nil x.storage_class_name d.storage_class_name;
        access_modes = append_modes d.access_modes x.access_modes;
        selector = or_nil x.selector d.selector;
        resources = record {
          limits = or_nil x.resources.limits d.resources.limits;
          requests = or_nil x.resources.requests d.resources.requests;
        };
        data_source = or_nil x.data_source d.data_source;
      };
    }

-- `mergedMap[vct.Name] = vct` for the values of the default map
unfoldable pub copy_claims :
    Map PersistentVolumeClaim → Map PersistentVolumeClaim → Map PersistentVolumeClaim
copy_claims merged [] = merged
copy_claims merged ((k, vct) ∷ r) = copy_claims (put vct.meta.name vct merged) r

-- the loop over the values of the override map
unfoldable pub merge_claims :
    Map PersistentVolumeClaim
    → Map PersistentVolumeClaim
    → Map PersistentVolumeClaim
    → Map PersistentVolumeClaim
merge_claims defaults merged [] = merged
merge_claims defaults merged ((k, over) ∷ r) =
    merge_claims defaults
      (put over.meta.name
        (elim (get over.meta.name defaults) [
          | some default ↦ persistent_volume_claim default over
          | none ↦ over
        ])
        merged)
      r

-- loops 100 to 102
unfoldable pub volume_claim_templates :
    RangeOrder
    → List PersistentVolumeClaim
    → List PersistentVolumeClaim
    → List PersistentVolumeClaim
unfolding create_map copy_claims merge_claims collect persistent_volume_claim
volume_claim_templates o default_templates override_templates =
    let defaults = create_map (λ c. c.meta.name) default_templates in
    let overrides = create_map (λ c. c.meta.name) override_templates in
    slice_stable (by_key (λ c. c.meta.name)) (
      collect o 100 (
        merge_claims defaults (copy_claims [] (o.range 100 PersistentVolumeClaim defaults))
          (o.range 101 PersistentVolumeClaim overrides)))

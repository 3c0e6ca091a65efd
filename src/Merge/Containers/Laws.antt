-- ===== src/Merge/Containers/Laws.antt =====
-- The slices that the merges of merge.go return: one element for each name, merged where both
-- sides have it, in ascending order.
use nacos_k8s.Base.{String, ◌≡◌, refl, List, arith}
use nacos_k8s.Go.Maps.{RangeOrder}
use nacos_k8s.Go.Sort.{find_by, IsAscending}
use nacos_k8s.Kube.{EnvVar, VolumeDevice, Container}
use nacos_k8s.Merge.Fields.{or_string}
use nacos_k8s.Merge.Keyed.Lookup.{combine, last_by}
use nacos_k8s.Merge.Keyed.Sorted.{
  KeepsKey, KeepsKey→KeepsKeyOn, find_by-merge_by, merge_by-IsAscending, merge_by_deterministic,
}
use nacos_k8s.Merge.Containers.{
  merge_volume_device, volume_devices, merge_single_env, envs, container, containers,
}

or_string_same : (a b : String) → a ≡ b → or_string b a ≡ b
or_string_same a b e = ground (arith, e)

merge_volume_device-KeepsKey : KeepsKey (λ d. d.name) merge_volume_device
unfolding merge_volume_device
merge_volume_device-KeepsKey a b e = or_string_same a.name b.name e

merge_single_env-KeepsKey : KeepsKey (λ v. v.name) merge_single_env
unfolding merge_single_env
merge_single_env-KeepsKey a b e = ground (arith, e)

pub container-KeepsKey : (o : RangeOrder) → KeepsKey (λ c. c.name) (container o)
unfolding container
container-KeepsKey o a b e = or_string_same a.name b.name e

-- `Envs` returns one variable for each name, in ascending order: the last one of either side with
-- the name, the two merged by `mergeSingleEnv` where both sides have it.
pub envs_lookup :
    (o : RangeOrder) (original over : List EnvVar)
    → IsAscending (λ v. v.name) (envs o original over)
      × ((k : String)
          → find_by (λ v. v.name) k (envs o original over)
            ≡ combine merge_single_env
                (last_by (λ v. v.name) k original)
                (last_by (λ v. v.name) k over))
unfolding envs
envs_lookup o original over =
    let keeps =
      KeepsKey→KeepsKeyOn (λ v. v.name) original over merge_single_env merge_single_env-KeepsKey in
    (
      merge_by-IsAscending o 40 (λ v. v.name) merge_single_env original over keeps,
      find_by-merge_by o 40 (λ v. v.name) merge_single_env original over keeps,
    )

-- `Containers` returns one container for each name, in ascending order: the last one of either
-- side with the name, the two merged by `Container` where both sides have it.
pub containers_lookup :
    (o : RangeOrder) (original over : List Container)
    → IsAscending (λ c. c.name) (containers o original over)
      × ((k : String)
          → find_by (λ c. c.name) k (containers o original over)
            ≡ combine
                (container o)
                (last_by (λ c. c.name) k original)
                (last_by (λ c. c.name) k over))
unfolding containers
containers_lookup o original over =
    let keeps =
      KeepsKey→KeepsKeyOn (λ c. c.name) original over (container o) (container-KeepsKey o) in
    (
      merge_by-IsAscending o 70 (λ c. c.name) (container o) original over keeps,
      find_by-merge_by o 70 (λ c. c.name) (container o) original over keeps,
    )

pub envs_deterministic :
    (o p : RangeOrder) (original over : List EnvVar) → envs o original over ≡ envs p original over
unfolding envs
envs_deterministic o p original over =
    merge_by_deterministic o p 40 (λ v. v.name) merge_single_env merge_single_env original over
      (KeepsKey→KeepsKeyOn (λ v. v.name) original over merge_single_env merge_single_env-KeepsKey)
      (λ k a b ha hb. refl)

pub volume_devices_deterministic :
    (o p : RangeOrder) (original over : List VolumeDevice)
    → volume_devices o original over ≡ volume_devices p original over
unfolding volume_devices
volume_devices_deterministic o p original over =
    merge_by_deterministic o p 30 (λ d. d.name) merge_volume_device merge_volume_device original
      over
      (KeepsKey→KeepsKeyOn (λ d. d.name) original over merge_volume_device
        merge_volume_device-KeepsKey)
      (λ k a b ha hb. refl)

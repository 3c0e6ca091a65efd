-- ===== src/Merge/Containers/Orders.antt =====
-- Two executions of the merge of containers, which visit its maps in different orders.
use nacos_k8s.Base.{String, ◌≡◌, refl, some, List}
use nacos_k8s.Go.Maps.{RangeOrder}
use nacos_k8s.Kube.{VolumeMount, Container}
use nacos_k8s.Merge.Keyed.Lookup.{last_by}
use nacos_k8s.Merge.Keyed.Sorted.{KeepsKeyOn, KeepsKey→KeepsKeyOn, merge_by_deterministic}
use nacos_k8s.Merge.Containers.{
  volume_mount, volume_mount_to_string, volume_mounts, container, containers,
}
use nacos_k8s.Merge.Containers.Laws.{
  container-KeepsKey, envs_deterministic, volume_devices_deterministic,
}
use nacos_k8s.Merge.Containers.Ports.{ports_deterministic}

-- Merging two mounts with one key gives a mount with that key. It may fail where a `_` in a name or
-- a path makes the keys of different mounts equal.
abbrev pub MountsKeepKey : List VolumeMount → List VolumeMount → Type 0
MountsKeepKey original over = KeepsKeyOn volume_mount_to_string original over volume_mount

volume_mounts_deterministic :
    (o p : RangeOrder) (original over : List VolumeMount)
    → MountsKeepKey original over
    → volume_mounts o original over ≡ volume_mounts p original over
unfolding volume_mounts
volume_mounts_deterministic o p original over keeps =
    merge_by_deterministic o p 60 volume_mount_to_string volume_mount volume_mount original over
      keeps (λ k a b ha hb. refl)

container_deterministic :
    (o p : RangeOrder) (default over : Container)
    → MountsKeepKey default.volume_mounts over.volume_mounts
    → container o default over ≡ container p default over
unfolding container
container_deterministic o p default over keeps = λ i. record (container p default over) {
  ports = ports_deterministic o p default.ports over.ports i;
  env = envs_deterministic o p default.env over.env i;
  volume_mounts = volume_mounts_deterministic o p default.volume_mounts over.volume_mounts keeps i;
  volume_devices = volume_devices_deterministic o p default.volume_devices over.volume_devices i;
}

-- Two executions of the merge on the same containers give the same result, where within each of them a
-- loop visits equal maps in the same order and between them the orders may differ, provided that
-- wherever two containers are merged their volume mounts with equal keys keep that key.
pub containers_deterministic :
    (o p : RangeOrder) (original over : List Container)
    → ((k : String) (a b : Container)
        → last_by (λ c. c.name) k original ≡ some a
        → last_by (λ c. c.name) k over ≡ some b
        → MountsKeepKey a.volume_mounts b.volume_mounts)
    → containers o original over ≡ containers p original over
unfolding containers
containers_deterministic o p original over keeps =
    merge_by_deterministic o p 70 (λ c. c.name) (container o) (container p) original over
      (KeepsKey→KeepsKeyOn (λ c. c.name) original over (container o) (container-KeepsKey o))
      (λ k a b ha hb. container_deterministic o p a b (keeps k a b ha hb))

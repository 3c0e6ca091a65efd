-- ===== src/Services/ConfigMaps.antt =====
-- operator/pkg/service/k8s/configmap.go
use nacos_k8s.Base.{String, Option, none, some, List}
use nacos_k8s.Errors.{Error, not_found, failure, Exec, pure, ◌>>=◌}
use nacos_k8s.Kube.{ConfigMap}
use nacos_k8s.Environment.{Reply, got, refused, Api, call}

module _ {K : Type 0} (api : Api K ConfigMap) where
  unfoldable pub get_config_map : String → String → Exec K (Reply ConfigMap)
  get_config_map namespace name = call (api.get namespace name)

  unfoldable pub create_config_map : String → ConfigMap → Exec K (Option Error)
  create_config_map namespace config_map = call (api.create namespace config_map)

  unfoldable pub update_config_map : String → ConfigMap → Exec K (Option Error)
  update_config_map namespace config_map = call (api.update namespace config_map)

  -- what `CreateIfNotExistsConfigMap` does with the error of its update
  unfoldable pub create_missing_config_map :
      String → ConfigMap → Option Error → Exec K (Option Error)
  unfolding create_config_map
  create_missing_config_map namespace config_map none = pure none
  create_missing_config_map namespace config_map (some (not_found s)) =
      create_config_map namespace config_map
  create_missing_config_map namespace config_map (some (failure s)) = pure (some (failure s))

  -- updates first, and creates if there is nothing to update
  unfoldable pub create_if_not_exists_config_map : String → ConfigMap → Exec K (Option Error)
  unfolding create_missing_config_map
  create_if_not_exists_config_map namespace config_map = do
    err ← call (api.update namespace config_map)
    create_missing_config_map namespace config_map err

  unfoldable pub create_or_update_config_map : String → ConfigMap → Exec K (Option Error)
  unfolding get_config_map create_config_map update_config_map
  create_or_update_config_map namespace config_map = do
    stored ← get_config_map namespace config_map.meta.name
    elim stored [
      | refused (not_found s) ↦ create_config_map namespace config_map
      | refused (failure s) ↦ pure (some (failure s))
      | got found ↦ update_config_map namespace (record config_map {
        meta = record (config_map.meta) { resource_version = found.meta.resource_version };
      })
    ]

  unfoldable pub delete_config_map : String → String → Exec K (Option Error)
  delete_config_map namespace name = call (api.delete namespace name)

  unfoldable pub list_config_maps : String → Exec K (Reply (List ConfigMap))
  list_config_maps namespace = call (api.list namespace)

-- ===== src/Services/Jobs.antt =====
-- operator/pkg/service/k8s/job.go
use nacos_k8s.Base.{String, Option, none, some}
use nacos_k8s.Errors.{Error, not_found, failure, Exec, pure, ◌>>=◌}
use nacos_k8s.Kube.{Job}
use nacos_k8s.Environment.{Reply, got, refused, Api, call}

module _ {K : Type 0} (api : Api K Job) where
  unfoldable pub get_job : String → String → Exec K (Reply Job)
  get_job namespace name = call (api.get namespace name)

  unfoldable pub create_job : String → Job → Exec K (Option Error)
  create_job namespace job = call (api.create namespace job)

  -- what `CreateIfNotExistsJob` does with the answer to its request
  unfoldable pub create_missing_job : String → Job → Reply Job → Exec K (Option Error)
  unfolding create_job
  create_missing_job namespace job (refused (not_found s)) = create_job namespace job
  create_missing_job namespace job (refused (failure s)) = pure (some (failure s))
  create_missing_job namespace job (got found) = pure none

  unfoldable pub create_if_not_exists_job : String → Job → Exec K (Option Error)
  unfolding get_job create_missing_job
  create_if_not_exists_job namespace job = do
    stored ← get_job namespace job.meta.name
    create_missing_job namespace job stored

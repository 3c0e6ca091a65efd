-- ===== src/Services.antt =====
-- operator/pkg/service/k8s: the layer over the Kubernetes client. Each method takes one typed client.
-- The log lines are left out.
pub mod ConfigMaps
pub mod NetServices
pub mod Jobs
pub mod StatefulSets

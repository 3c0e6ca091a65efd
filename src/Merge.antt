-- ===== src/Merge.antt =====
-- operator/pkg/util/merge: how the pod template that a user wraps around the operator's own is
-- merged into it.
pub mod Keyed
pub mod Fields
pub mod Containers
pub mod Volumes
pub mod Pods
pub mod Workloads

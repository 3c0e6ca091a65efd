-- ===== src/Kube.antt =====
-- The Kubernetes API objects, as far as the operator reads or writes their fields. A value that
-- the operator only copies, and at most compares with nil, is a `Blob`; a pointer is an `Option`,
-- and so is a slice or map that the code compares with nil; any other slice is a list.
-- The fields that no line of the operator names are left out.
mod Meta
mod Containers
mod Volumes
mod Pods
mod Workloads
pub use Meta.*
pub use Containers.*
pub use Volumes.*
pub use Pods.*
pub use Workloads.*

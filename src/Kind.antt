-- ===== src/Kind.antt =====
-- operator/pkg/service/operator/Kind.go: the defaults of the custom resource, and the objects that the
-- operator builds from it.
pub mod Defaults
pub mod Labels
pub mod Env
pub mod StatefulSet
pub mod Cluster
pub mod Objects
pub mod Ensure

-- ===== src/Operator.antt =====
-- operator/pkg/service/operator and operator/pkg/service/nacos: what one reconciliation does with a
-- resource, step by step. The steps mutate the resource, which is part of the state.
pub mod World
pub mod Status
pub mod Servers
pub mod Check
pub mod Stages
pub mod Keeps
pub mod Quiet
pub mod Calm
pub mod Confined
pub mod Provided
pub mod Creates

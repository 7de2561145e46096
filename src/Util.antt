-- ===== src/Util.antt =====
-- internal/pkg/util
pub mod Sources
pub mod Names
pub mod Strategies
pub mod Keys
pub mod CommaLists
pub mod EnvNames
pub mod Hash
pub mod Conditions
pub mod PodReferences
pub mod Workloads
pub mod Durations

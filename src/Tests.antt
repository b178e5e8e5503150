-- ===== src/Tests.antt =====
-- Concrete inputs for the library's definitions, and the theorems at them.
pub mod Inputs
pub mod HostsFile
pub mod Matching
pub mod Outbound
pub mod Resolving
pub mod Queries
pub mod Proxies
pub mod Interfaces
pub mod Dialing
pub mod Configs
pub mod Enhancing
pub mod Engines
pub mod Controlling
pub mod Proxying

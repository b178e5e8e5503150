-- ===== src/Engine.antt =====
-- internal/engine/engine.go: starting and stopping the parts of the program.
pub mod DnsMode
pub mod Types
pub mod Planning
pub mod PreparingHosts
pub mod Starting
pub mod Running
pub mod Stopping
pub mod Reporting
pub mod Modes
pub mod Lifecycle
pub mod Refining
pub mod Undoing
pub mod WindowsProxy
pub mod SystemDnsMode

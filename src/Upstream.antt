-- ===== src/Upstream.antt =====
-- internal/upstream: outbound profiles, the direct dialer, and the messages of the SOCKS5 upstream.
pub mod Profile
pub mod Matching
pub mod Socks
pub mod Requests
pub mod Dialing
pub mod Fallback
pub mod Starting

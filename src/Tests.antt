-- ===== src/Tests.antt =====
-- The development on concrete inputs: the parameters, and what the theorems say there.
pub mod Codec
pub mod Values
pub mod Access
pub mod Accounts
pub mod Tenants
pub mod Login
pub mod Pool
pub mod Proxy
pub mod Chat
pub mod Manage

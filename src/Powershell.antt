-- ===== src/Powershell.antt =====
-- The package powershell: the bridge between the WSMan client and the PSRP core library.
pub mod Remote
pub mod Transport
pub mod Adapter
pub mod Backend
mod Examples

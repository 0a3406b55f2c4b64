-- ===== src/Sdk.antt =====
-- cafe-sdk: how a service waits for the bus and comes back to it.
pub mod Reconnect
pub mod Wait
pub mod Negotiation

-- ===== src/Handlers.antt =====
-- The handlers of `client_loop` in cafe-bus/src/client.rs, one for each kind of client message, and
-- the clean-up of a connection. A handler that may panic gives an `Option`.
pub mod Notices
pub mod Sessions
pub mod Publish
pub mod Subscribe
pub mod Disconnect
pub mod SubscribeAll

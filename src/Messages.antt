-- ===== src/Messages.antt =====
-- The package messages, as far as it is modelled: messages/params.go.
pub mod Errors
pub mod Params
pub mod Notification
pub mod Answer
pub mod Handlers

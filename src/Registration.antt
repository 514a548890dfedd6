-- ===== src/Registration.antt =====
-- The pairing handlers of elab_server/socket_handlers/auth_handlers.py. A handler is one step on
-- the state; what it takes from outside stands in `Request.Env`.
pub mod Attempt
pub mod Request
pub mod Activate
pub mod Operator
pub mod Disconnect
pub mod Gate
pub mod Keeps
pub mod Entry
pub mod Admission
pub mod Approval
pub mod Farewell
pub mod Revocation

-- ===== src/Flow.antt =====
-- src/flow.rs: the flow of an inbound message, from the parameters of a request on.
pub mod Params
pub mod Octets
pub mod Detached
pub mod Options
pub mod Decode
pub mod Audience
pub mod Confirmation
pub mod Context
pub mod Prepare
pub mod Run

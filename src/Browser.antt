-- ===== src/Browser.antt =====
-- src/browser: bindings, endpoints and pending requests of the browser flows.
pub mod Bindings
pub mod Endpoints
pub mod Pending
pub mod Input

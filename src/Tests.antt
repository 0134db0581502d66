-- ===== src/Tests.antt =====
-- The theorems applied to concrete sessions, requests and encodings, and runs of the handlers.
pub mod Sessions
pub mod Encodings
pub mod Base64
pub mod Requests
pub mod Service
pub mod Vendor
pub mod Status
pub mod Libraries
pub mod Logging

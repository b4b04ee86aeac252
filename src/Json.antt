-- ===== src/Json.antt =====
-- src/blogin/json.cpp: reading and writing JSON.
pub mod Parser
pub mod Writer
pub mod RoundTrip

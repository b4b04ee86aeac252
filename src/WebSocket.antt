-- ===== src/WebSocket.antt =====
-- src/blogin/websocket.cpp: the handshake's digest, and frames.
pub mod Sha1
pub mod Base64
pub mod Frame
pub mod Handshake

-- ===== src/WebSocket/Handshake.antt =====
-- src/blogin/websocket.cpp: `accept_key` and `is_upgrade`.
use blogin.Common.{Bool, ◌&&◌, ◌++◌, Bytes, codes, none, some, true, false, same_bytes, find_bytes}
use blogin.Text.{to_lower_ascii}
use blogin.WebSocket.Sha1.{sha1}
use blogin.WebSocket.Base64.{base64}

abbrev pub websocket_guid : Bytes
websocket_guid = codes "258EAFA5-E914-47DA-95CA-C5AB0DC85B11"

unfoldable pub accept_key : Bytes → Bytes
unfolding sha1 base64
accept_key client_key = base64 (sha1 (client_key ++ websocket_guid))

-- `text.contains(wanted)`
abbrev contains : Bytes → Bytes → Bool
contains text wanted = elim (find_bytes text wanted) [ none ↦ false | some i ↦ true ]

unfoldable pub is_upgrade : Bytes → Bytes → Bool
unfolding find_bytes same_bytes to_lower_ascii
is_upgrade connection upgrade =
    contains (to_lower_ascii connection) (codes "upgrade")
    && same_bytes (to_lower_ascii upgrade) (codes "websocket")

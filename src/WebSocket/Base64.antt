-- ===== src/WebSocket/Base64.antt =====
-- src/blogin/websocket.cpp: `base64`.
pub mod RoundTrip
use Prim.Native.Nat.{bit_and, bit_or}
use blogin.Common.{ℕ, ◌*◌, ◌/◌, ◌^◌, List, [], ◌∷◌, ◌++◌, get_or, Bytes, codes}

abbrev pub base64_alphabet : Bytes
base64_alphabet = codes "ABCDEFGHIJKLMNOPQRSTUVWXYZabcdefghijklmnopqrstuvwxyz0123456789+/"

-- `base64_alphabet[(chunk >> shift) & 0x3f]`
unfoldable pub sextet : ℕ → ℕ → ℕ
sextet chunk shift = get_or base64_alphabet (bit_and (chunk / 2 ^ shift) 0x3f) 0

-- The loop reads three bytes while there are three, and what remains is one byte or two. The
-- argument is the data from `index` on.
unfoldable pub base64 : Bytes → Bytes
unfolding sextet
base64 [] = []
base64 (x ∷ []) = let chunk = x * 2 ^ 16 in sextet chunk 18 ∷ sextet chunk 12 ∷ b'=' ∷ b'=' ∷ []
base64 (x ∷ y ∷ []) =
    let chunk = bit_or (x * 2 ^ 16) (y * 2 ^ 8) in
    sextet chunk 18 ∷ sextet chunk 12 ∷ sextet chunk 6 ∷ b'=' ∷ []
base64 (x ∷ y ∷ z ∷ rest) =
    let chunk = bit_or (bit_or (x * 2 ^ 16) (y * 2 ^ 8)) z in
    sextet chunk 18 ∷ sextet chunk 12 ∷ sextet chunk 6 ∷ sextet chunk 0 ∷ base64 rest

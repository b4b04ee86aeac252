-- ===== src/WebSocket/Frame.antt =====
-- src/blogin/websocket.cpp and include/websocket.h: `encode_frame` and `decode_frame`.
pub mod Stable
pub mod Masked
pub mod RoundTrip
use Prim.Native.Nat.{bit_and, bit_or, bit_xor}
use blogin.Common.{
  ℕ, zero, suc, ◌+◌, ◌-◌, ◌*◌, ◌/◌, ◌%◌, ◌^◌, Bool, true, false, not, Option, none, some, List, [],
  ◌∷◌, ◌++◌, ◌==◌, ltb, leb, if◌then◌else◌, length, get_or, Bytes, byte_at,
}
use blogin.WebSocket.Sha1.{u64_mod, big_endian}

-- `enum class Opcode : std::uint8_t`; such a value may be a number without a name.
pub data Opcode : Type 0 where
  continuation text binary close ping pong : Opcode
  unnamed : ℕ → Opcode

unfoldable pub opcode_number : Opcode → ℕ
opcode_number continuation = 0x0
opcode_number text = 0x1
opcode_number binary = 0x2
opcode_number close = 0x8
opcode_number ping = 0x9
opcode_number pong = 0xa
opcode_number (unnamed n) = n

-- `static_cast<Opcode>(n)`
unfoldable pub opcode_of : ℕ → Opcode
opcode_of n =
    if n == 0x0
    then continuation
    else if n == 0x1
    then text
    else if n == 0x2
    then binary
    else if n == 0x8
    then close
    else if n == 0x9
    then ping
    else if n == 0xa
    then pong
    else unnamed n

pub data FrameState : Type 0 where
  incomplete ready malformed : FrameState

pub record Frame : Type 0 where
  pub state : FrameState
  pub opcode : Opcode
  pub final : Bool
  pub payload : Bytes
  pub size : ℕ

-- `Frame frame;`
abbrev pub new_frame : Frame
new_frame = record { state = incomplete; opcode = text; final = true; payload = []; size = 0 }

-- The bytes in front of the payload.
unfoldable pub frame_header : Opcode → ℕ → Bytes
unfolding opcode_number big_endian
frame_header opcode size =
    bit_or 0x80 (opcode_number opcode)
    ∷ (if ltb size 126
        then size ∷ []
        else if leb size 0xffff
        then 126 ∷ bit_and (size / 2 ^ 8) 0xff ∷ bit_and size 0xff ∷ []
        else 127 ∷ big_endian 8 size)

unfoldable pub encode_frame : Opcode → Bytes → Bytes
unfolding frame_header
encode_frame opcode payload = frame_header opcode (length payload) ++ payload

-- `for (index < 8) length = (length << 8) | byte(cursor + index);`
unfoldable pub read_size : ℕ → Bytes → ℕ → ℕ → ℕ
read_size zero buffer cursor size = size
read_size (suc rounds) buffer cursor size =
    read_size rounds buffer (cursor + 1) (bit_or (size * 2 ^ 8 % u64_mod) (byte_at buffer cursor))

-- The payload's length and the cursor behind it; `none` if the buffer ends before.
unfoldable pub payload_size : Bytes → Option (ℕ × ℕ)
payload_size buffer =
    let short = bit_and (byte_at buffer 1) 0x7f in
    if short == 126
    then (if ltb (length buffer) (2 + 2)
        then none
        else some (bit_or (byte_at buffer 2 * 2 ^ 8) (byte_at buffer 3), 4))
    else if short == 127
    then (if ltb (length buffer) (2 + 8) then none else some (read_size 8 buffer 2 0, 10))
    else some (short, 2)

-- `for (index < length) payload += byte(cursor + index) ^ mask[index % 4];`
unfoldable pub unmask : ℕ → ℕ → Bytes → ℕ → Bytes → Bytes
unmask zero index buffer cursor mask = []
unmask (suc rounds) index buffer cursor mask =
    bit_xor (byte_at buffer (cursor + index)) (get_or mask (index % 4) 0)
    ∷ unmask rounds (index + 1) buffer cursor mask

-- From the test of the mask bit on. The last sum stays within the buffer's size, so it does not
-- wrap.
unfoldable pub decode_payload : Frame → Bool → Bytes → ℕ → ℕ → Frame
decode_payload frame masked buffer size cursor =
    let mask =
      byte_at buffer cursor
      ∷ byte_at buffer (cursor + 1)
      ∷ byte_at buffer (cursor + 2)
      ∷ byte_at buffer (cursor + 3)
      ∷ [] in
    let start = cursor + 4 in
    if not masked
    then record frame { state = malformed }
    else if ltb (length buffer) (cursor + 4)
    then frame
    else if ltb (length buffer - start) size
    then frame
    else record frame {
      payload = unmask size 0 buffer start mask;
      state = ready;
      size = start + size;
    }

unfoldable pub decode_rest : Frame → Bool → Bytes → Option (ℕ × ℕ) → Frame
decode_rest frame masked buffer none = frame
decode_rest frame masked buffer (some (size, cursor)) =
    decode_payload frame masked buffer size cursor

unfoldable pub decode_frame : Bytes → Frame
decode_frame buffer =
    let frame = record new_frame {
      final = not (bit_and (byte_at buffer 0) 0x80 == 0);
      opcode = opcode_of (bit_and (byte_at buffer 0) 0x0f);
    } in
    let masked = not (bit_and (byte_at buffer 1) 0x80 == 0) in
    if ltb (length buffer) 2
    then new_frame
    else decode_rest frame masked buffer (payload_size buffer)

-- ===== src/WebSocket/Frame/Stable.antt =====
-- src/blogin/websocket.cpp: `decode_frame` on a buffer that grows.
use Prim.Native.Nat.{bit_xor}
use blogin.Common.{
  ℕ, zero, suc, ◌+◌, ◌%◌, ◌≤◌, Bool, false, some, [], ◌∷◌, ◌++◌, ltb, length, get_or, Bytes,
  byte_at, ◌≡◌, ◌≢◌, refl, ap, arith, Bool-cases, Option-cases, inl, inr, length-append,
  get_or-append_left,
}
use blogin.WebSocket.Frame.{
  incomplete, Frame, read_size, payload_size, unmask, decode_payload, decode_rest, decode_frame,
}

read_size-append :
    (rounds : ℕ) (buffer more : Bytes) (cursor size : ℕ)
    → cursor + rounds ≤ length buffer
    → read_size rounds (buffer ++ more) cursor size ≡ read_size rounds buffer cursor size
unfolding read_size
read_size-append zero buffer more cursor size h = refl
read_size-append (suc rounds) buffer more cursor size h =
    rw (get_or-append_left cursor buffer more 0 (omega arith))
      (read_size-append rounds buffer more (cursor + 1) _ (omega arith))

unmask-append :
    (rounds index : ℕ) (buffer more : Bytes) (cursor : ℕ) (mask : Bytes)
    → cursor + (index + rounds) ≤ length buffer
    → unmask rounds index (buffer ++ more) cursor mask ≡ unmask rounds index buffer cursor mask
unfolding unmask
unmask-append zero index buffer more cursor mask h = refl
unmask-append (suc rounds) index buffer more cursor mask h =
    rw (get_or-append_left (cursor + index) buffer more 0 (omega arith)) (
      ap (λ t. bit_xor (byte_at buffer (cursor + index)) (get_or mask (index % 4) 0) ∷ t)
        (unmask-append rounds (index + 1) buffer more cursor mask (omega arith)))

payload_size-append :
    (buffer more : Bytes) (r : ℕ × ℕ)
    → 2 ≤ length buffer
    → payload_size buffer ≡ some r
    → payload_size (buffer ++ more) ≡ some r
unfolding payload_size
payload_size-append buffer more r h e =
    let second = get_or-append_left 1 buffer more 0 (omega arith) in
    ground (
      arith,
      second,
      length-append buffer more,
      get_or-append_left 2 buffer more 0,
      get_or-append_left 3 buffer more 0,
      read_size-append 8 buffer more 2 0,
    )

decode_payload-append :
    (frame : Frame) (masked : Bool) (buffer more : Bytes) (size cursor : ℕ)
    → frame.state ≡ incomplete
    → (decode_payload frame masked buffer size cursor).state ≢ incomplete
    → decode_payload frame masked (buffer ++ more) size cursor
      ≡ decode_payload frame masked buffer size cursor
unfolding decode_payload
decode_payload-append frame masked buffer more size cursor e h = ground (
  arith,
  length-append buffer more,
  get_or-append_left cursor buffer more 0,
  get_or-append_left (cursor + 1) buffer more 0,
  get_or-append_left (cursor + 2) buffer more 0,
  get_or-append_left (cursor + 3) buffer more 0,
  unmask-append size 0 buffer more (cursor + 4) (
      byte_at buffer cursor
      ∷ byte_at buffer (cursor + 1)
      ∷ byte_at buffer (cursor + 2)
      ∷ byte_at buffer (cursor + 3)
      ∷ []),
)

decode_rest-append :
    (frame : Frame) (masked : Bool) (buffer more : Bytes)
    → 2 ≤ length buffer
    → frame.state ≡ incomplete
    → (decode_rest frame masked buffer (payload_size buffer)).state ≢ incomplete
    → decode_rest frame masked (buffer ++ more) (payload_size (buffer ++ more))
      ≡ decode_rest frame masked buffer (payload_size buffer)
unfolding decode_rest
decode_rest-append frame masked buffer more l e h = elim (Option-cases (payload_size buffer)) [
  | inl n ↦ absurd (h (rw n e))
  | inr ((size, cursor), s) ↦
      rw (payload_size-append buffer more (size, cursor) l s, s)
        (decode_payload-append frame masked buffer more size cursor e (rw s at h))
]

-- A decision stands: what is ready or malformed stays so, with the same result, whatever bytes
-- arrive behind it.
pub decode_frame-append :
    (buffer more : Bytes)
    → (decode_frame buffer).state ≢ incomplete
    → decode_frame (buffer ++ more) ≡ decode_frame buffer
unfolding decode_frame
decode_frame-append buffer more h = elim (Bool-cases (ltb (length buffer) 2)) [
  | inl few ↦ absurd (h (rw few))
  | inr enough ↦
      let many : ltb (length (buffer ++ more)) 2 ≡ false =
        ground (arith, length-append buffer more) in
      let first = get_or-append_left 0 buffer more 0 (ground arith) in
      let second = get_or-append_left 1 buffer more 0 (ground arith) in
      rw (many, enough, first, second)
        (decode_rest-append _ _ buffer more (ground arith) refl (rw enough at h))
]

-- ===== src/WebSocket/Frame/RoundTrip.antt =====
-- src/blogin/websocket.cpp: `decode_frame` on what a client sends.
use Prim.Native.Nat.{bit_and, bit_or}
use native.Mathlib.Nat.{div-div-eq-div-mul, div-le_self}
use native.Mathlib.Numerals.{towards_suc}
use blogin.Common.{
  AllBytes, ℕ, zero, suc, ◌+◌, ◌*◌, ◌/◌, ◌%◌, ◌^◌, ◌≤◌, ◌<◌, true, false, some, [], ◌∷◌, ◌++◌, ◌==◌,
  ltb, leb, length, drop, Bytes, ◌≡◌, refl, ap, ◌∙◌, sym, arith, Bool-cases, inl, inr,
  length-append,
}
use blogin.Common.Bits.{agree_below, agree_below→eq}
use blogin.Common.Words.{and_low, or_shifted}
use blogin.WebSocket.Sha1.{big_endian, u64_mod}
use blogin.WebSocket.Sha1.Digest.{length-big_endian}
use blogin.WebSocket.Frame.Masked.{
  masked_from, length-masked_from, decode_payload-masked, first_of_drop,
}
use blogin.WebSocket.Frame.{
  Opcode, continuation, text, binary, close, ping, pong, unnamed, opcode_of, opcode_number, ready,
  Frame, new_frame, frame_header, read_size, payload_size, decode_payload, decode_rest,
  decode_frame,
}

-- A frame as a client sends it: the header with the mask bit set, the mask, and the payload under
-- the mask.
abbrev with_mask_bit : Bytes → Bytes
with_mask_bit (first ∷ second ∷ rest) = first ∷ bit_or second 0x80 ∷ rest
with_mask_bit header = header

pub client_frame : Opcode → Bytes → Bytes → Bytes
client_frame opcode mask payload =
    with_mask_bit (frame_header opcode (length payload)) ++ (mask ++ masked_from 0 mask payload)

abbrev pub IsNamed : Opcode → Type 0
IsNamed (unnamed n) = ⊥
IsNamed _ = Unit {0}

first_byte :
    (opcode : Opcode)
    → IsNamed opcode
    → (opcode_of (bit_and (bit_or 0x80 (opcode_number opcode)) 0x0f) ≡ opcode)
      × ((bit_and (bit_or 0x80 (opcode_number opcode)) 0x80 == 0) ≡ false)
unfolding opcode_of opcode_number
first_byte (unnamed n) h = absurd h
first_byte continuation h = (refl, refl)
first_byte text h = (refl, refl)
first_byte binary h = (refl, refl)
first_byte close h = (refl, refl)
first_byte ping h = (refl, refl)
first_byte pong h = (refl, refl)

-- The second byte with its mask bit: the bit is read back, and so is the length.
second_byte :
    (size : ℕ)
    → size < 128
    → (bit_and (bit_or size 0x80) 0x80 ≡ 128) × (bit_and (bit_or size 0x80) 0x7f ≡ size)
unfolding agree_below
second_byte size h = (
  agree_below→eq (λ n. bit_and (bit_or n 0x80) 0x80) (λ n. 128) 128 refl size h,
  agree_below→eq (λ n. bit_and (bit_or n 0x80) 0x7f) (λ n. n) 128 refl size h,
)

pow_byte : (count : ℕ) → 2 ^ (suc count * 8) ≡ 2 ^ (count * 8) * 256
pow_byte count =
    ap (λ n. 2 ^ n) {x = suc count * 8} {y = count * 8 + 8} (omega arith)
    ∙ simp towards_suc (omega arith)

-- One byte more of a number: what has been read is the number without its lower bytes.
read_byte :
    (count value : ℕ)
    → value < 2 ^ 64
    → bit_or
        (value / 2 ^ (suc count * 8) * 2 ^ 8 % u64_mod)
        (bit_and (value / 2 ^ (count * 8)) 0xff)
      ≡ value / 2 ^ (count * 8)
read_byte count value h =
    let v = value / 2 ^ (count * 8) in
    let le = div-le_self value (2 ^ (count * 8)) in
    let higher : value / 2 ^ (suc count * 8) ≡ v / 256 =
      ap (λ n. value / n) (pow_byte count) ∙ sym (div-div-eq-div-mul value (2 ^ (count * 8)) 256) in
    rw (higher, and_low 8 v)
      (ap (λ t. bit_or t (v % 256)) {x = v / 256 * 256 % 2 ^ 64} {y = v / 256 * 2 ^ 8} (omega arith)
        ∙ or_shifted 8 (v / 256) (v % 256) (omega arith)
        ∙ omega arith)

read_size-big_endian :
    (count : ℕ) (buffer : Bytes) (cursor value : ℕ) (rest : Bytes)
    → value < 2 ^ 64
    → drop cursor buffer ≡ big_endian count value ++ rest
    → read_size count buffer cursor (value / 2 ^ (count * 8)) ≡ value
unfolding read_size big_endian
read_size-big_endian zero buffer cursor value rest h e = omega arith
read_size-big_endian (suc count) buffer cursor value rest h e =
    let (head, next) = first_of_drop buffer cursor _ _ e in
    ap (λ t. read_size count buffer (cursor + 1) t)
      (ap (λ c. bit_or (value / 2 ^ (suc count * 8) * 2 ^ 8 % u64_mod) c) head
        ∙ read_byte count value h)
    ∙ read_size-big_endian count buffer (cursor + 1) value rest h next

-- The header's two first bytes, where the length has been read.
decode_frame-header :
    (opcode : Opcode) (second : ℕ) (tail : Bytes) (size cursor : ℕ)
    → let buffer : Bytes = bit_or 0x80 (opcode_number opcode) ∷ second ∷ tail in
      IsNamed opcode
      → (bit_and second 0x80 == 0) ≡ false
      → payload_size buffer ≡ some (size, cursor)
      → decode_frame buffer
        ≡ decode_payload
            (record new_frame { opcode = opcode; final = true })
            true
            buffer
            size
            cursor
unfolding decode_frame decode_rest
decode_frame-header opcode second tail size cursor named masked e =
    let (kind, last) = first_byte opcode named in rw (e, kind, last, masked) (ground arith)

size_short :
    (first size : ℕ) (tail : Bytes)
    → size < 126
    → payload_size (first ∷ bit_or size 0x80 ∷ tail) ≡ some (size, 2)
unfolding payload_size
size_short first size tail h = ground (arith, (second_byte size (omega arith)).1)

size_medium :
    (first size : ℕ) (tail : Bytes)
    → size ≤ 0xffff
    → payload_size (first ∷ 254 ∷ bit_and (size / 2 ^ 8) 0xff ∷ bit_and size 0xff ∷ tail)
      ≡ some (size, 4)
unfolding payload_size
size_medium first size tail h =
    let whole : bit_or (bit_and (size / 2 ^ 8) 0xff * 2 ^ 8) (bit_and size 0xff) ≡ size =
      rw (and_low 8 (size / 2 ^ 8), and_low 8 size)
        (or_shifted 8 (size / 2 ^ 8 % 2 ^ 8) (size % 2 ^ 8) (omega arith) ∙ omega arith) in
    ground (arith, whole)

size_long :
    (first size : ℕ) (tail : Bytes)
    → size < 2 ^ 64
    → payload_size (first ∷ 255 ∷ (big_endian 8 size ++ tail)) ≡ some (size, 10)
unfolding payload_size
size_long first size tail h =
    let buffer : Bytes = first ∷ 255 ∷ (big_endian 8 size ++ tail) in
    let none_yet : size / 2 ^ (8 * 8) ≡ 0 = omega arith in
    let whole : read_size 8 buffer 2 0 ≡ size =
      ap (read_size 8 buffer 2) (sym none_yet) ∙ read_size-big_endian 8 buffer 2 size tail h refl in
    ground (arith, whole, length-append (big_endian 8 size) tail, length-big_endian 8 size)

module _ (opcode : Opcode) (k0 k1 k2 k3 : ℕ) (payload rest : Bytes) where
  abbrev mask4 : Bytes
  mask4 = k0 ∷ k1 ∷ k2 ∷ k3 ∷ []

  abbrev decoded : ℕ → Frame
  decoded size = record {
    state = ready;
    opcode = opcode;
    final = true;
    payload = payload;
    size = size;
  }

  -- From the header to the result, for each of its three forms.
  decode_masked :
      (second cursor size : ℕ) (tail : Bytes)
      → let buffer : Bytes = bit_or 0x80 (opcode_number opcode) ∷ second ∷ tail in
        IsNamed opcode
        → AllBytes mask4
        → AllBytes payload
        → (bit_and second 0x80 == 0) ≡ false
        → payload_size buffer ≡ some (length payload, cursor)
        → drop cursor buffer ≡ mask4 ++ (masked_from 0 mask4 payload ++ rest)
        → cursor + 4 + length (masked_from 0 mask4 payload) ≡ size
        → decode_frame buffer ≡ decoded size
  decode_masked second cursor size tail named m p masked e at_mask total =
      decode_frame-header opcode second tail (length payload) cursor named masked e
      ∙ decode_payload-masked _ _ payload rest cursor k0 k1 k2 k3 at_mask p m
      ∙ ap decoded (omega (arith, length-masked_from 0 mask4 payload))

-- A frame that a client sends is read back, whatever follows it in the buffer: the opcode, the
-- payload without the mask, and how many bytes the frame took. The opcode is one that the protocol
-- names, the mask and the payload are bytes, and the payload is shorter than 2 ^ 64.
pub decode_frame-client_frame :
    (opcode : Opcode) (k0 k1 k2 k3 : ℕ) (payload rest : Bytes)
    → let mask : Bytes = k0 ∷ k1 ∷ k2 ∷ k3 ∷ [] in
      IsNamed opcode
      → AllBytes mask
      → AllBytes payload
      → length payload < 2 ^ 64
      → decode_frame (client_frame opcode mask payload ++ rest) ≡ record {
        state = ready;
        opcode = opcode;
        final = true;
        payload = payload;
        size = length (client_frame opcode mask payload);
      }
unfolding client_frame frame_header
decode_frame-client_frame opcode k0 k1 k2 k3 payload rest named m p h =
    let n = length payload in
    let build = decode_masked opcode k0 k1 k2 k3 payload rest in
    elim (Bool-cases (ltb n 126)) [
      | inl short ↦ rw short (
          build (bit_or n 0x80) 2 _ _ named m p (ground (arith, (second_byte n (ground arith)).0))
            (size_short _ n _ (ground arith)) refl (omega arith))
      | inr not_short ↦ elim (Bool-cases (leb n 0xffff)) [
        | inl medium ↦
            rw (not_short, medium)
              (build 254 4 _ _ named m p refl (size_medium _ n _ (ground arith)) refl (omega arith))
        | inr long ↦
            rw (not_short, long)
              (build 255 10 _ _ named m p refl (size_long _ n _ h) refl (omega arith))
      ]
    ]

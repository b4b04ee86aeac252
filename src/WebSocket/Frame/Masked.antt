-- ===== src/WebSocket/Frame/Masked.antt =====
-- src/blogin/websocket.cpp: the mask, and the payload under it.
use Prim.Native.Nat.{bit_xor}
use blogin.Common.{
  AllBytes, ℕ, zero, suc, ◌+◌, ◌%◌, ◌≤◌, ◌<◌, true, [], ◌∷◌, ◌++◌, length, get_or, drop, Bytes,
  byte_at, ◌≡◌, refl, ap, ap₂, ◌∙◌, sym, arith, length-append, length-drop, drop-drop, get_or-drop,
}
use blogin.Common.Words.{xor_twice}
use blogin.WebSocket.Frame.{ready, Frame, unmask, decode_payload}

-- The payload under a mask, from a place in the mask on.
pub masked_from : ℕ → Bytes → Bytes → Bytes
masked_from index mask [] = []
masked_from index mask (c ∷ cs) =
    bit_xor c (get_or mask (index % 4) 0) ∷ masked_from (index + 1) mask cs

get_or-lt : (bytes : Bytes) (i : ℕ) → AllBytes bytes → get_or bytes i 0 < 256
get_or-lt [] i h = omega arith
get_or-lt (c ∷ cs) zero (h, t) = h
get_or-lt (c ∷ cs) (suc i) (h, t) = get_or-lt cs i t

pub length-masked_from :
    (index : ℕ) (mask payload : Bytes) → length (masked_from index mask payload) ≡ length payload
unfolding masked_from
length-masked_from index mask [] = refl
length-masked_from index mask (c ∷ cs) = ap suc (length-masked_from (index + 1) mask cs)

pub first_of_drop :
    (buffer : Bytes) (position c : ℕ) (cs : Bytes)
    → drop position buffer ≡ c ∷ cs
    → (byte_at buffer position ≡ c) × (drop (position + 1) buffer ≡ cs)
first_of_drop buffer position c cs e = (
  ap (byte_at buffer) {x = position} {y = position + 0} (omega arith)
      ∙ sym (get_or-drop position 0 buffer 0)
      ∙ ap (λ t. byte_at t 0) e,
  sym (drop-drop 1 position buffer) ∙ ap (drop 1) e,
)

unmask-masked_from :
    (payload rest buffer mask : Bytes) (cursor index : ℕ)
    → AllBytes payload
    → AllBytes mask
    → drop (cursor + index) buffer ≡ masked_from index mask payload ++ rest
    → unmask (length payload) index buffer cursor mask ≡ payload
unfolding unmask masked_from
unmask-masked_from [] rest buffer mask cursor index p m e = refl
unmask-masked_from (c ∷ cs) rest buffer mask cursor index (pc, p) m e =
    let (head, next) = first_of_drop buffer (cursor + index) _ _ e in
    ap₂ ◌∷◌
      (ap (λ t. bit_xor t (get_or mask (index % 4) 0)) head
        ∙ xor_twice 8 c (get_or mask (index % 4) 0) pc (get_or-lt mask (index % 4) m))
      (unmask-masked_from cs rest buffer mask cursor (index + 1) p m (
        ap (λ n. drop n buffer) {x = cursor + (index + 1)} {y = cursor + index + 1} (omega arith)
        ∙ next))

byte_of_drop :
    (buffer : Bytes) (cursor i : ℕ) (cs : Bytes)
    → drop cursor buffer ≡ cs
    → byte_at buffer (cursor + i) ≡ byte_at cs i
byte_of_drop buffer cursor i cs e = sym (get_or-drop cursor i buffer 0) ∙ ap (λ t. byte_at t i) e

-- The four bytes behind the cursor are the mask, and the payload under it follows.
module _ (frame : Frame) (buffer payload rest : Bytes) (cursor k0 k1 k2 k3 : ℕ) where
  abbrev pub the_mask : Bytes
  the_mask = k0 ∷ k1 ∷ k2 ∷ k3 ∷ []

  abbrev pub behind : Bytes
  behind = the_mask ++ (masked_from 0 the_mask payload ++ rest)

  module _ (e : drop cursor buffer ≡ behind) where
    mask_bytes :
        byte_at buffer cursor
          ∷ byte_at buffer (cursor + 1)
          ∷ byte_at buffer (cursor + 2)
          ∷ byte_at buffer (cursor + 3)
          ∷ []
        ≡ the_mask
    mask_bytes = rw (
      ap (byte_at buffer) {x = cursor} {y = cursor + 0} (omega arith)
          ∙ byte_of_drop buffer cursor 0 behind e,
      byte_of_drop buffer cursor 1 behind e,
      byte_of_drop buffer cursor 2 behind e,
      byte_of_drop buffer cursor 3 behind e,
    )

    room : cursor + 4 + length payload ≤ length buffer
    room = omega (
      arith,
      length-drop cursor buffer,
      ap length e,
      length-append (masked_from 0 the_mask payload) rest,
      length-masked_from 0 the_mask payload,
    )

    payload_at : drop (cursor + 4 + 0) buffer ≡ masked_from 0 the_mask payload ++ rest
    payload_at =
        ap (λ n. drop n buffer) {x = cursor + 4 + 0} {y = cursor + 4} (omega arith)
        ∙ sym (drop-drop 4 cursor buffer)
        ∙ ap (drop 4) e

    pub decode_payload-masked :
        AllBytes payload
        → AllBytes the_mask
        → decode_payload frame true buffer (length payload) cursor
          ≡ record frame { payload = payload; state = ready; size = cursor + 4 + length payload }
    unfolding decode_payload
    decode_payload-masked p m = rw mask_bytes (
        ground (
          arith,
          room,
          unmask-masked_from payload rest buffer the_mask (cursor + 4) 0 p m payload_at,
        ))

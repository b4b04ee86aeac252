-- ===== src/WebSocket/Sha1/Digest.antt =====
-- src/blogin/websocket.cpp: the sizes that `sha1` works with.
use blogin.Common.{
  ℕ, zero, suc, ◌+◌, ◌-◌, ◌%◌, ◌<◌, [], ◌∷◌, ◌++◌, ◌≡◌, refl, arith, length, length-append, Bytes,
  Bool-cases, inl, inr, ◌==◌,
}
use blogin.WebSocket.Sha1.{big_endian, pad_zeros, padded}

pub length-big_endian : (count value : ℕ) → length (big_endian count value) ≡ count
unfolding big_endian
length-big_endian zero value = refl
length-big_endian (suc count) value = omega (arith, length-big_endian count value)

pad_zeros-length :
    (fuel : ℕ) (message : Bytes)
    → (56 + 64 - length message % 64) % 64 < fuel
    → length (pad_zeros fuel message) % 64 ≡ 56
unfolding pad_zeros
pad_zeros-length zero message h = absurd (omega arith)
pad_zeros-length (suc fuel) message h = elim (Bool-cases (length message % 64 == 56)) [
  | inl done ↦ rw done (ground arith)
  | inr more ↦
      rw more (pad_zeros-length fuel (message ++ (0 ∷ [])) (rw length-append (ground arith)))
]

-- The padded message is a whole number of blocks of 64 bytes long.
pub length-padded : (message : Bytes) → length (padded message) % 64 ≡ 0
unfolding padded
length-padded message =
    rw (length-append, length-big_endian)
      (omega (arith, pad_zeros-length 64 (message ++ (0x80 ∷ [])) (omega arith)))

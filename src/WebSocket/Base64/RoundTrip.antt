-- ===== src/WebSocket/Base64/RoundTrip.antt =====
-- src/blogin/websocket.cpp: a reader of what `base64` writes.
use Prim.Native.Nat.{bit_or}
use blogin.Common.{
  AllBytes, ℕ, suc, ◌+◌, ◌*◌, ◌/◌, ◌%◌, ◌^◌, ◌<◌, false, [], ◌∷◌, ◌==◌, if◌then◌else◌, get_or,
  Bytes, arith, ◌≡◌, refl, length, ◌∙◌, ap, ==_iff, Bool-cases, inl, inr,
}
use blogin.Common.Words.{and_low, or_shifted}
use blogin.Common.Bits.{agree_below, agree_below→eq}
use blogin.WebSocket.Base64.{base64_alphabet, sextet, base64}

-- Where a character stands in the alphabet.
position_in : Bytes → ℕ → ℕ
position_in [] c = 0
position_in (x ∷ xs) c = if c == x then 0 else suc (position_in xs c)

value_of : ℕ → ℕ
unfolding position_in
value_of c = position_in base64_alphabet c

-- The number that four characters spell.
abbrev quantum : ℕ → ℕ → ℕ → ℕ → ℕ
quantum p q r s = ((value_of p * 64 + value_of q) * 64 + value_of r) * 64 + value_of s

-- A reader of base64: four characters make up to three bytes, as many as `=` leaves.
pub base64_decode : Bytes → Bytes
base64_decode (p ∷ q ∷ r ∷ s ∷ rest) =
    let more = base64_decode rest in
    let first = quantum p q r s / 2 ^ 16 in
    let second = quantum p q r s / 2 ^ 8 % 256 in
    if r == b'='
    then quantum p q b'A' b'A' / 2 ^ 16 ∷ more
    else if s == b'='
    then quantum p q r b'A' / 2 ^ 16 ∷ quantum p q r b'A' / 2 ^ 8 % 256 ∷ more
    else first ∷ second ∷ quantum p q r s % 256 ∷ more
base64_decode _ = []

abbrev letter : ℕ → ℕ
letter n = get_or base64_alphabet n 0

value_of-letter : (n : ℕ) → n < 64 → value_of (letter n) ≡ n
unfolding value_of agree_below
value_of-letter n h = agree_below→eq (λ n. value_of (letter n)) (λ n. n) 64 refl n h

value_of_pad : value_of b'=' ≡ 64
unfolding value_of
value_of_pad = refl

letter-ne-pad : (n : ℕ) → n < 64 → (letter n == b'=') ≡ false
letter-ne-pad n h = elim (Bool-cases (letter n == b'=')) [
  | inr e ↦ e
  | inl e ↦
      absurd (
        omega
          (arith, ap value_of ((==_iff (letter n) b'=').0 e), value_of-letter n h, value_of_pad))
]

sextet-letter : (chunk shift : ℕ) → sextet chunk shift ≡ letter (chunk / 2 ^ shift % 64)
unfolding sextet
sextet-letter chunk shift = ap letter (and_low 6 (chunk / 2 ^ shift))

sextet-value : (chunk shift : ℕ) → value_of (sextet chunk shift) ≡ chunk / 2 ^ shift % 64
sextet-value chunk shift = rw sextet-letter (value_of-letter _ (omega arith))

sextet-ne-pad : (chunk shift : ℕ) → (sextet chunk shift == b'=') ≡ false
sextet-ne-pad chunk shift = rw sextet-letter (letter-ne-pad (chunk / 2 ^ shift % 64) (omega arith))

value_of_A : value_of b'A' ≡ 0
unfolding value_of
value_of_A = refl

chunk_two : (x y : ℕ) → y < 256 → bit_or (x * 2 ^ 16) (y * 2 ^ 8) ≡ x * 65536 + y * 256
chunk_two x y h = or_shifted 16 x (y * 2 ^ 8) (omega arith)

chunk_three :
    (x y z : ℕ)
    → y < 256
    → z < 256
    → bit_or (bit_or (x * 2 ^ 16) (y * 2 ^ 8)) z ≡ x * 65536 + y * 256 + z
chunk_three x y z h k =
    ap (λ t. bit_or t z) (chunk_two x y h ∙ regroup x y)
    ∙ or_shifted 8 (x * 256 + y) z k
    ∙ omega arith
  where
    regroup : (x y : ℕ) → x * 65536 + y * 256 ≡ (x * 256 + y) * 2 ^ 8
    regroup x y = omega arith

quantum_three :
    (chunk : ℕ)
    → chunk < 2 ^ 24
    → quantum (sextet chunk 18) (sextet chunk 12) (sextet chunk 6) (sextet chunk 0) ≡ chunk
quantum_three chunk h = rw (sextet-value, sextet-value, sextet-value, sextet-value) (omega arith)

quantum_two :
    (chunk : ℕ)
    → chunk < 2 ^ 24
    → chunk % 256 ≡ 0
    → quantum (sextet chunk 18) (sextet chunk 12) (sextet chunk 6) b'A' ≡ chunk
quantum_two chunk h k = rw (sextet-value, sextet-value, sextet-value, value_of_A) (omega arith)

quantum_one :
    (x : ℕ)
    → x < 256
    → quantum (sextet (x * 2 ^ 16) 18) (sextet (x * 2 ^ 16) 12) b'A' b'A' ≡ x * 2 ^ 16
quantum_one x h = rw (sextet-value, sextet-value, value_of_A) (omega arith)

-- The reader `base64_decode` gets a list of bytes back from the text of `base64`.
pub base64_decode-base64 :
    (data_bytes : Bytes) → AllBytes data_bytes → base64_decode (base64 data_bytes) ≡ data_bytes
unfolding base64 base64_decode
base64_decode-base64 [] h = refl
base64_decode-base64 (x ∷ []) (hx, h) =
    ap (λ t. t / 2 ^ 16 ∷ []) (quantum_one x hx) ∙ ap (λ t. t ∷ []) (omega arith)
base64_decode-base64 (x ∷ y ∷ []) (hx, (hy, h)) =
    let chunk = bit_or (x * 2 ^ 16) (y * 2 ^ 8) in
    let value = chunk_two x y hy in
    rw (sextet-ne-pad chunk 6, quantum_two chunk (omega arith) (omega arith), value) (ground arith)
base64_decode-base64 (x ∷ y ∷ z ∷ rest) (hx, (hy, (hz, h))) =
    let chunk = bit_or (bit_or (x * 2 ^ 16) (y * 2 ^ 8)) z in
    let value = chunk_three x y z hy hz in
    rw
      (
        sextet-ne-pad chunk 6,
        sextet-ne-pad chunk 0,
        quantum_three chunk (omega arith),
        value,
        base64_decode-base64 rest h,
      )
      (ground arith)

-- The text of `base64` has four characters for each three bytes begun.
pub length-base64 :
    (data_bytes : Bytes) → length (base64 data_bytes) ≡ (length data_bytes + 2) / 3 * 4
unfolding base64
length-base64 [] = refl
length-base64 (x ∷ []) = refl
length-base64 (x ∷ y ∷ []) = refl
length-base64 (x ∷ y ∷ z ∷ rest) = omega (arith, length-base64 rest)

-- ===== src/WebSocket/Sha1.antt =====
-- src/blogin/websocket.cpp: `sha1`. A `std::uint32_t` is a number below 2 ^ 32, and what the
-- program lets wrap is reduced by `% 2 ^ 32`.
pub mod Digest
use Prim.Native.Nat.{bit_and, bit_or, bit_xor}
use blogin.Common.{
  ℕ, zero, suc, ◌+◌, ◌-◌, ◌*◌, ◌/◌, ◌%◌, ◌^◌, Bool, true, false, not, ◌&&◌, List, [], ◌∷◌, ◌++◌,
  ◌==◌, ltb, leb, if◌then◌else◌, length, get_or, Bytes, byte_at,
}

abbrev pub u32_mod : ℕ
u32_mod = 2 ^ 32

abbrev pub u64_mod : ℕ
u64_mod = 2 ^ 64

unfoldable pub rotate_left : ℕ → ℕ → ℕ
rotate_left value amount = bit_or (value * 2 ^ amount % u32_mod) (value / 2 ^ (32 - amount))

-- `~value`
abbrev complement32 : ℕ → ℕ
complement32 value = u32_mod - 1 - value

-- `for (int index = count - 1; index >= 0; --index) out += (value >> (index * 8)) & 0xff;`
unfoldable pub big_endian : ℕ → ℕ → Bytes
big_endian zero value = []
big_endian (suc index) value = bit_and (value / 2 ^ (index * 8)) 0xff ∷ big_endian index value

-- `while (message.size() % 64 != 56) message += '\0';`, which takes at most 63 rounds.
unfoldable pub pad_zeros : ℕ → Bytes → Bytes
pad_zeros zero message = message
pad_zeros (suc fuel) message =
    let more = pad_zeros fuel (message ++ (0 ∷ [])) in
    if not (length message % 64 == 56) then more else message

-- The message, a 0x80 byte, zeroes, then the original length in bits.
unfoldable pub padded : Bytes → Bytes
unfolding pad_zeros big_endian
padded message =
    pad_zeros 64 (message ++ (0x80 ∷ [])) ++ big_endian 8 (length message * 8 % u64_mod)

-- The four bytes of a word, most significant first.
unfoldable pub word_at : Bytes → ℕ → ℕ
word_at message start =
    bit_or
      (bit_or (bit_or (byte_at message start * 2 ^ 24) (byte_at message (start + 1) * 2 ^ 16))
        (byte_at message (start + 2) * 2 ^ 8))
      (byte_at message (start + 3))

-- The first loop over `words`, for as many words as there are rounds.
unfoldable pub block_words : ℕ → Bytes → ℕ → List ℕ
unfolding word_at
block_words zero message start = []
block_words (suc rounds) message start =
    word_at message start ∷ block_words rounds message (start + 4)

-- The second loop, from the index `length words`.
unfoldable pub extend_words : ℕ → List ℕ → List ℕ
unfolding rotate_left
extend_words zero words = words
extend_words (suc rounds) words =
    let index = length words in
    let mixed =
      bit_xor
        (bit_xor (bit_xor (get_or words (index - 3) 0) (get_or words (index - 8) 0))
          (get_or words (index - 14) 0))
        (get_or words (index - 16) 0) in
    extend_words rounds (words ++ (rotate_left mixed 1 ∷ []))

-- The five words `a` to `e`, and `state`.
pub record Registers : Type 0 where
  pub a : ℕ
  pub b : ℕ
  pub c : ℕ
  pub d : ℕ
  pub e : ℕ

abbrev pub initial_state : Registers
initial_state = record {
  a = 0x67452301;
  b = 0xefcdab89;
  c = 0x98badcfe;
  d = 0x10325476;
  e = 0xc3d2e1f0;
}

unfoldable pub mixed_at : ℕ → Registers → ℕ
mixed_at index r =
    if ltb index 20
    then bit_or (bit_and r.b r.c) (bit_and (complement32 r.b) r.d)
    else if ltb index 40
    then bit_xor (bit_xor r.b r.c) r.d
    else if ltb index 60
    then bit_or (bit_or (bit_and r.b r.c) (bit_and r.b r.d)) (bit_and r.c r.d)
    else bit_xor (bit_xor r.b r.c) r.d

unfoldable pub constant_at : ℕ → ℕ
constant_at index =
    if ltb index 20
    then 0x5a827999
    else if ltb index 40
    then 0x6ed9eba1
    else if ltb index 60
    then 0x8f1bbcdc
    else 0xca62c1d6

unfoldable pub sha1_round : ℕ → ℕ → Registers → Registers
unfolding mixed_at constant_at rotate_left
sha1_round index word r = record {
  a = (rotate_left r.a 5 + mixed_at index r + r.e + constant_at index + word) % u32_mod;
  b = r.a;
  c = rotate_left r.b 30;
  d = r.c;
  e = r.d;
}

-- The 80 rounds over the words.
unfoldable pub sha1_rounds : ℕ → List ℕ → Registers → Registers
unfolding sha1_round
sha1_rounds index [] r = r
sha1_rounds index (word ∷ words) r = sha1_rounds (index + 1) words (sha1_round index word r)

unfoldable pub add_state : Registers → Registers → Registers
add_state state r = record {
  a = (state.a + r.a) % u32_mod;
  b = (state.b + r.b) % u32_mod;
  c = (state.c + r.c) % u32_mod;
  d = (state.d + r.d) % u32_mod;
  e = (state.e + r.e) % u32_mod;
}

unfoldable pub sha1_block : Bytes → ℕ → Registers → Registers
unfolding add_state sha1_rounds extend_words block_words
sha1_block message offset state =
    add_state state (sha1_rounds 0 (extend_words 64 (block_words 16 message offset)) state)

-- The loop over the blocks; a block for each unit of fuel.
unfoldable pub sha1_blocks : ℕ → Bytes → ℕ → Registers → Registers
unfolding sha1_block
sha1_blocks zero message offset state = state
sha1_blocks (suc fuel) message offset state =
    let rest = sha1_blocks fuel message (offset + 64) (sha1_block message offset state) in
    if ltb offset (length message) then rest else state

unfoldable pub digest_bytes : Registers → Bytes
unfolding big_endian
digest_bytes state =
    big_endian 4 state.a
    ++ (big_endian 4 state.b
        ++ (big_endian 4 state.c ++ (big_endian 4 state.d ++ big_endian 4 state.e)))

unfoldable pub sha1 : Bytes → Bytes
unfolding digest_bytes sha1_blocks padded
sha1 data_bytes =
    let message = padded data_bytes in
    digest_bytes (sha1_blocks (length message / 64) message 0 initial_state)

-- ===== src/Json/Parser.antt =====
-- src/blogin/json.cpp: the state of `Parser` and its methods up to a string. The text from
-- `position_` on is `rest`; a method that can fail is a function from the state.
pub mod Values
pub mod Ends
pub mod Total
pub mod Rounds
pub mod Strings
pub mod Numbers
pub mod Depths
pub mod Steps
use Prim.Native.Nat.{bit_and, bit_or}
use Prim.Native.String.{String}
use blogin.Common.{
  ℕ, zero, suc, ◌+◌, ◌-◌, ◌*◌, ◌/◌, ◌^◌, Bool, true, false, not, ◌&&◌, ◌||◌, Option, none, some,
  List, [], ◌∷◌, ◌++◌, ◌==◌, ltb, leb, if◌then◌else◌, is_empty, within, length, Bytes, codes,
  byte_at, starts_with,
}

pub record ParseError : Type 0 where
  pub message : String
  pub line : ℕ
  pub column : ℕ

pub record Parser : Type 0 where
  pub rest : Bytes
  pub line : ℕ
  pub column : ℕ
  pub depth : ℕ

-- `std::expected` with the state behind it. `stuck` is no value of the program: fuel ran out.
pub data Outcome {ℓ} (A : Type ℓ) : Type ℓ where
  ok : A → Parser → Outcome A
  err : ParseError → Outcome A
  stuck : Outcome A

abbrev pub M : Type 0 → Type 0
M A = Parser → Outcome A

abbrev pub bind : {A B : Type 0} → Outcome A → (A → M B) → Outcome B
bind (ok a p) f = f a p
bind (err e) f = err e
bind stuck f = stuck

infixl 5 ◌>>=◌ ◌>>◌
abbrev pub ◌>>=◌ : {A B : Type 0} → M A → (A → M B) → M B
◌>>=◌ m f p = bind (m p) f

abbrev pub ◌>>◌ : {A B : Type 0} → M A → M B → M B
m >> k = m >>= λ _. k

abbrev pub return : {A : Type 0} → A → M A
return a p = ok a p

abbrev pub fail : {A : Type 0} → String → M A
fail message p = err (record { message = message; line = p.line; column = p.column })

abbrev pub finished : Parser → Bool
finished p = is_empty p.rest

abbrev pub peek : Parser → ℕ
peek p = byte_at p.rest 0

-- The state behind the byte `character`, with `cs` unread.
unfoldable pub past : ℕ → Bytes → Parser → Parser
past character cs p =
    if character == b'\n'
    then record p { rest = cs; line = p.line + 1; column = 1 }
    else record p { rest = cs; column = p.column + 1 }

advance_over : Bytes → M ℕ
advance_over [] p = ok 0 p
advance_over (c ∷ cs) p = ok c (past c cs p)

-- Only called where a byte is left.
unfoldable pub advance : M ℕ
unfolding advance_over
advance p = advance_over p.rest p

unfoldable pub is_blank : ℕ → Bool
is_blank c = c == b' ' || c == b'\t' || c == b'\n' || c == b'\r'

unfoldable pub skip_over : Bytes → Parser → Parser
skip_over [] p = p
skip_over (c ∷ cs) p = let rest = skip_over cs (past c cs p) in if is_blank c then rest else p

unfoldable pub skip_whitespace : M (Unit {0})
unfolding skip_over
skip_whitespace p = ok tt (skip_over p.rest p)

unfoldable pub consume : ℕ → M Bool
unfolding advance
consume expected p =
    if finished p || not (peek p == expected) then ok false p else (do advance; return true) p

advance_by : ℕ → M (Unit {0})
advance_by zero = return tt
advance_by (suc rounds) = do advance; advance_by rounds

unfoldable pub consume_word : Bytes → M Bool
unfolding advance_by advance starts_with
consume_word word p =
    if not (starts_with p.rest word)
    then ok false p
    else (do advance_by (length word); return true) p

unfoldable pub append_utf8 : Bytes → ℕ → Bytes
append_utf8 out code_point =
    if ltb code_point 0x80
    then out ++ (code_point ∷ [])
    else if ltb code_point 0x800
    then out ++ (bit_or 0xC0 (code_point / 2 ^ 6) ∷ bit_or 0x80 (bit_and code_point 0x3F) ∷ [])
    else if ltb code_point 0x10000
    then out
      ++ (bit_or 0xE0 (code_point / 2 ^ 12)
          ∷ bit_or 0x80 (bit_and (code_point / 2 ^ 6) 0x3F)
          ∷ bit_or 0x80 (bit_and code_point 0x3F)
          ∷ [])
    else out
      ++ (bit_or 0xF0 (code_point / 2 ^ 18)
          ∷ bit_or 0x80 (bit_and (code_point / 2 ^ 12) 0x3F)
          ∷ bit_or 0x80 (bit_and (code_point / 2 ^ 6) 0x3F)
          ∷ bit_or 0x80 (bit_and code_point 0x3F)
          ∷ [])

unfoldable pub hex_digit : ℕ → Option ℕ
hex_digit character =
    if within b'0' b'9' character
    then some (character - b'0')
    else if within b'a' b'f' character
    then some (character - b'a' + 10)
    else if within b'A' b'F' character
    then some (character - b'A' + 10)
    else none

-- Four rounds, so that `value` stays below 2 ^ 16.
hex4_loop : ℕ → ℕ → M ℕ
hex4_loop zero value = return value
hex4_loop (suc rounds) value = do
  character ← advance
  elim (hex_digit character) [
    | none ↦ fail "invalid hex digit in a \\u escape"
    | some digit ↦ hex4_loop rounds (bit_or (value * 2 ^ 4) digit)
  ]

unfoldable pub parse_hex4 : M ℕ
unfolding hex4_loop hex_digit advance
parse_hex4 p = if ltb (length p.rest) 4 then fail "incomplete \\u escape" p else hex4_loop 4 0 p

-- `\u` follows: a second escape of a pair.
abbrev pair_follows : Parser → Bool
pair_follows p = ltb 1 (length p.rest) && byte_at p.rest 0 == b'\\' && byte_at p.rest 1 == b'u'

append_pair : Bytes → ℕ → M Bytes
unfolding parse_hex4
append_pair out value = do
  advance
  advance
  low ← parse_hex4
  (if within 0xDC00 0xDFFF low
      then return (append_utf8 out (0x10000 + (value - 0xD800) * 2 ^ 10 + (low - 0xDC00)))
      else return (append_utf8 (append_utf8 out value) low))

unfoldable pub append_escaped_code_point : Bytes → M Bytes
unfolding append_pair parse_hex4
append_escaped_code_point out = do
  value ← parse_hex4
  λ p.
      if within 0xD800 0xDBFF value && pair_follows p
      then append_pair out value p
      else ok (append_utf8 out value) p

-- The byte that a short escape stands for.
unfoldable pub short_escape : ℕ → Option ℕ
short_escape escape =
    if escape == b'"'
    then some b'"'
    else if escape == b'\\'
    then some b'\\'
    else if escape == b'/'
    then some b'/'
    else if escape == b'b'
    then some 8
    else if escape == b'f'
    then some 12
    else if escape == b'n'
    then some b'\n'
    else if escape == b'r'
    then some b'\r'
    else if escape == b't'
    then some b'\t'
    else none

-- The escape behind a backslash, appended.
unfoldable pub parse_escape : Bytes → M Bytes
unfolding append_escaped_code_point short_escape
parse_escape out p =
    if finished p
    then fail "unterminated escape" p
    else (do
      escape ← advance
      elim (short_escape escape) [
        | some c ↦ return (out ++ (c ∷ []))
        | none ↦ if escape == b'u' then append_escaped_code_point out else fail "unknown escape"
      ])
        p

-- The loop of `parse_string`; each round takes a byte at least.
unfoldable pub string_loop : ℕ → Bytes → M Bytes
string_loop zero out p = stuck
string_loop (suc fuel) out p =
    let body : Outcome Bytes =
      (do
        character ← advance
        let plain = string_loop fuel (out ++ (character ∷ []))
        let escaped = parse_escape out >>= λ out'. string_loop fuel out'
        (if character == b'"'
            then return out
            else if not (character == b'\\')
            then (if ltb character 0x20
                then fail "unescaped control character in a string"
                else plain)
            else escaped))
        p in
    if finished p then fail "unterminated string" p else body

-- Called at the opening quote.
unfoldable pub parse_string : M Bytes
unfolding advance
parse_string = do advance; λ p. string_loop (length p.rest + 1) [] p

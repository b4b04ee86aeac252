-- ===== src/Text.antt =====
-- src/blogin/text.cpp: UTF-8 aware string handling. A string is the list of its bytes, and a loop
-- over a position takes the size of the text as fuel, since each round moves forward.
pub mod Trim
pub mod Split
pub mod Lines
pub mod Words
pub mod Chars
pub mod Case
use Prim.Native.Nat.{bit_and}
use blogin.Common.{
  ℕ, zero, suc, ◌+◌, ◌-◌, Bool, true, false, not, ◌&&◌, Option, none, some, List, [], ◌∷◌, ltb, leb,
  ◌==◌, if◌then◌else◌, within, length, is_empty, take, drop, map, Bytes, byte_at, slice, find_if,
  find_byte, find_last_if, has_byte,
}

abbrev pub whitespace : Bytes
whitespace = b' ' ∷ b'\t' ∷ b'\r' ∷ b'\n' ∷ 12 ∷ 11 ∷ []

unfoldable pub sequence_length : ℕ → ℕ
sequence_length lead =
    if ltb lead 0x80
    then 1
    else if bit_and lead 0xE0 == 0xC0
    then 2
    else if bit_and lead 0xF0 == 0xE0
    then 3
    else if bit_and lead 0xF8 == 0xF0
    then 4
    else 1

char_length_loop : ℕ → Bytes → ℕ → ℕ → ℕ
char_length_loop zero text characters position = characters
char_length_loop (suc fuel) text characters position =
    let rest =
      char_length_loop fuel text (characters + 1)
        (position + sequence_length (byte_at text position)) in
    if ltb position (length text) then rest else characters

unfoldable pub char_length : Bytes → ℕ
unfolding char_length_loop sequence_length
char_length text = char_length_loop (length text) text 0 0

byte_offset_loop : ℕ → Bytes → ℕ → ℕ → ℕ → ℕ
byte_offset_loop zero text char_index characters position = position
byte_offset_loop (suc fuel) text char_index characters position =
    let rest =
      byte_offset_loop fuel text char_index (characters + 1)
        (position + sequence_length (byte_at text position)) in
    if ltb position (length text) && ltb characters char_index then rest else position

unfoldable pub byte_offset : Bytes → ℕ → ℕ
unfolding byte_offset_loop sequence_length
byte_offset text char_index =
    let position = byte_offset_loop (length text) text char_index 0 0 in
    if ltb (length text) position then length text else position

-- A count of `none` is `npos`.
unfoldable pub substr : Bytes → ℕ → Option ℕ → Bytes
unfolding byte_offset
substr text char_start none = drop (byte_offset text char_start) text
substr text char_start (some char_count) =
    let start = byte_offset text char_start in
    let finish = byte_offset text (char_start + char_count) in slice text start (finish - start)

unfoldable pub is_space : ℕ → Bool
is_space character = has_byte whitespace character

unfoldable pub trim_start : Bytes → Bytes
unfolding find_if
trim_start text = elim (find_if (λ c. not (is_space c)) text) [
  | none ↦ []
  | some first ↦ drop first text
]

unfoldable pub trim_end : Bytes → Bytes
unfolding find_last_if
trim_end text = elim (find_last_if (λ c. not (is_space c)) text) [
  | none ↦ []
  | some last ↦ slice text 0 (last + 1)
]

unfoldable pub trim : Bytes → Bytes
unfolding trim_start trim_end
trim text = trim_end (trim_start text)

split_loop : ℕ → Bytes → ℕ → ℕ → List Bytes
split_loop zero text separator start = []
split_loop (suc fuel) text separator start = elim (find_byte text separator start) [
  | none ↦ drop start text ∷ []
  | some found ↦ slice text start (found - start) ∷ split_loop fuel text separator (found + 1)
]

unfoldable pub split : Bytes → ℕ → List Bytes
unfolding split_loop find_byte find_if
split text separator = split_loop (length text + 1) text separator 0

-- `if (!line.empty() && line.back() == '\r') line.remove_suffix(1)`
unfoldable pub drop_return : Bytes → Bytes
drop_return [] = []
drop_return (c ∷ []) = if c == b'\r' then [] else c ∷ []
drop_return (c ∷ d ∷ cs) = c ∷ drop_return (d ∷ cs)

split_lines_loop : ℕ → Bytes → ℕ → List Bytes
split_lines_loop zero text start = []
split_lines_loop (suc fuel) text start =
    let found : List Bytes = elim (find_byte text b'\n' start) [
      | none ↦ if ltb start (length text) then drop start text ∷ [] else []
      | some newline ↦
          drop_return (slice text start (newline - start))
          ∷ split_lines_loop fuel text (newline + 1)
    ] in
    if leb start (length text) then found else []

unfoldable pub split_lines : Bytes → List Bytes
unfolding split_lines_loop find_byte find_if drop_return
split_lines text = split_lines_loop (length text + 1) text 0

-- `while (position < text.size() && test(text[position])) ++position;`
pub scan_while : ℕ → (ℕ → Bool) → Bytes → ℕ → ℕ
scan_while zero test text position = position
scan_while (suc fuel) test text position =
    let rest = scan_while fuel test text (position + 1) in
    if ltb position (length text) && test (byte_at text position) then rest else position

-- One round of the outer loop of `words`: the word after the spaces at `position`.
words_loop : ℕ → Bytes → ℕ → List Bytes
words_loop zero text position = []
words_loop (suc fuel) text position =
    let start = scan_while (length text) is_space text position in
    let finish = scan_while (length text) (λ c. not (is_space c)) text start in
    let found = slice text start (finish - start) ∷ words_loop fuel text finish in
    if ltb position (length text) then (if leb (length text) start then [] else found) else []

unfoldable pub words : Bytes → List Bytes
unfolding words_loop scan_while
words text = words_loop (length text) text 0

unfoldable pub word_count : Bytes → ℕ
unfolding words
word_count text = length (words text)

unfoldable pub lower_byte : ℕ → ℕ
lower_byte character = if within b'A' b'Z' character then character - b'A' + b'a' else character

unfoldable pub to_lower_ascii : Bytes → Bytes
unfolding lower_byte
to_lower_ascii text = map lower_byte text

unfoldable pub upper_byte : ℕ → ℕ
upper_byte character = if within b'a' b'z' character then character - b'a' + b'A' else character

unfoldable pub to_upper_ascii : Bytes → Bytes
unfolding upper_byte
to_upper_ascii text = map upper_byte text

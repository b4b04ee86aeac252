-- ===== src/Yaml/Scalars.antt =====
-- src/blogin/yaml.cpp: `scalar_from`, `unquote`, `parse_flow_sequence` and `parse_scalar`.
use Prim.Native.String.{String}
use blogin.Common.{
  ℕ, ◌+◌, ◌-◌, Bool, true, false, not, ◌||◌, ◌&&◌, Option, none, some, List, [], ◌∷◌, ◌++◌, ◌==◌,
  leb, if◌then◌else◌, is_empty, length, take, drop, all, within, Bytes, codes, byte_at, slice,
  find_byte, same_bytes, starts_with,
}
use blogin.Text.{trim}
use blogin.Value.{Value, null, boolean, integer, number, string, array, nil, push}
use blogin.Json.Parser.{ParseError}
use blogin.Json.Parser.Values.{from_chars}
use blogin.Yaml.Lines.{next_quote}

-- `std::expected<A, ParseError>`
pub data Result (A : Type 0) : Type 0 where
  ok : A → Result A
  err : ParseError → Result A

abbrev pub error_at : String → ℕ → ParseError
error_at message line_number = record { message = message; line = line_number; column = 1 }

unfoldable pub all_digits : Bytes → Bool
all_digits text = not (is_empty text) && all (λ c. within b'0' b'9' c) text

abbrev pub is_negative : Bytes → Bool
is_negative token = starts_with token (codes "-")

-- `digits`: the token without its sign.
unfoldable pub digits_of : Bytes → Bytes
digits_of token = if is_negative token then drop 1 token else token

unfoldable pub is_decimal : Bytes → Bool
is_decimal digits = elim (find_byte digits b'.' 0) [
  | none ↦ false
  | some dot ↦ all_digits (take dot digits) && all_digits (drop (dot + 1) digits)
]

-- The byte that an escape in double quotes stands for.
unfoldable pub unescaped : ℕ → Option ℕ
unescaped escape =
    if escape == b'n'
    then some b'\n'
    else if escape == b't'
    then some b'\t'
    else if escape == b'r'
    then some b'\r'
    else if escape == b'"'
    then some b'"'
    else if escape == b'\\'
    then some b'\\'
    else none

-- Whether a token stands between two such bytes.
abbrev pub is_quoted : ℕ → Bytes → Bool
is_quoted quote token =
    leb 2 (length token) && (byte_at token 0 == quote && byte_at token (length token - 1) == quote)

-- `token.substr(1, token.size() - 2)`
abbrev pub inside : Bytes → Bytes
inside token = slice token 1 (length token - 2)

abbrev is_block_scalar : Bytes → Bool
is_block_scalar trimmed =
    same_bytes trimmed (codes "|")
    || (same_bytes trimmed (codes ">")
        || (starts_with trimmed (codes "|-") || starts_with trimmed (codes ">-")))

-- The loop of `unquote`.
unfoldable pub unescape : ℕ → Bytes → Bytes → Result Bytes
unescape line_number out [] = ok out
unescape line_number out (c ∷ []) = ok (out ++ (c ∷ []))
unescape line_number out (c ∷ escape ∷ cs) =
    let plain = unescape line_number (out ++ (c ∷ [])) (escape ∷ cs) in
    let escaped : Result Bytes = elim (unescaped escape) [
      | none ↦ err (error_at "unknown escape in a double-quoted scalar" line_number)
      | some x ↦ unescape line_number (out ++ (x ∷ [])) cs
    ] in
    if not (c == b'\\') then plain else escaped

-- The pieces of a flow sequence between its commas; `piece` is the piece so far.
unfoldable pub flow_pieces : ℕ → Bytes → Bytes → List Bytes
flow_pieces quote piece [] = trim piece ∷ []
flow_pieces quote piece (c ∷ cs) =
    let go_on = flow_pieces (next_quote quote c) (piece ++ (c ∷ [])) cs in
    let cut = trim piece ∷ flow_pieces 0 [] cs in if quote == 0 && c == b',' then cut else go_on

module _ {D : Type 0} (to_double : Bytes → Option D) where
  -- What is neither null, nor a Boolean, nor an integer in range.
  unfoldable pub decimal_from : Bytes → Value D
  decimal_from token =
      let read : Value D = elim (to_double token) [ some x ↦ number x | none ↦ string token ] in
      if is_decimal (digits_of token) then read else string token

  unfoldable pub scalar_from : Bytes → Value D
  scalar_from token =
      let read : Value D = elim (from_chars token) [
        | some n ↦ integer n
        | none ↦ decimal_from token
      ] in
      if is_empty token || (same_bytes token (codes "~") || same_bytes token (codes "null"))
      then null
      else if same_bytes token (codes "true")
      then boolean true
      else if same_bytes token (codes "false")
      then boolean false
      else if all_digits (digits_of token)
      then read
      else decimal_from token

  unfoldable pub unquote : Bytes → ℕ → Result (Value D)
  unquote token line_number =
      let unescaped_text : Result (Value D) = elim (unescape line_number [] (inside token)) [
        | ok text ↦ ok (string text)
        | err e ↦ err e
      ] in
      if is_quoted b'"' token
      then unescaped_text
      else if is_quoted b'\'' token
      then ok (string (inside token))
      else ok (scalar_from token)

  -- The loop of `parse_flow_sequence` over its pieces.
  unfoldable pub flow_items : List Bytes → ℕ → Value D → Result (Value D)
  flow_items [] line_number list = ok list
  flow_items (piece ∷ pieces) line_number list =
      let skipped = flow_items pieces line_number list in
      let read : Result (Value D) = elim (unquote piece line_number) [
        | ok item ↦ flow_items pieces line_number (push list item)
        | err e ↦ err e
      ] in
      if is_empty piece then skipped else read

  unfoldable pub parse_flow_sequence : Bytes → ℕ → Result (Value D)
  parse_flow_sequence token line_number =
      let inner = trim (inside token) in
      if is_empty inner
      then ok (array nil)
      else flow_items (flow_pieces 0 [] inner) line_number (array nil)

  unfoldable pub parse_scalar : Bytes → ℕ → Result (Value D)
  parse_scalar token line_number =
      let trimmed = trim token in
      if leb 2 (length trimmed)
        && (byte_at trimmed 0 == b'[' && byte_at trimmed (length trimmed - 1) == b']')
      then parse_flow_sequence trimmed line_number
      else if starts_with trimmed (codes "{")
      then err (error_at "flow mappings are not supported" line_number)
      else if starts_with trimmed (codes "&") || starts_with trimmed (codes "*")
      then err (error_at "anchors and aliases are not supported" line_number)
      else if is_block_scalar trimmed
      then err (error_at "block scalars are not supported" line_number)
      else unquote trimmed line_number

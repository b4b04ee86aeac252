-- ===== src/Expression/Parser.antt =====
-- src/blogin/expression.cpp: the state of `Parser` and its methods that build no tree out of others.
-- The text from `position_` on is `rest`, and `column` is `base_column_ + position_`.
use blogin.Common.{
  ℕ, suc, ◌+◌, ◌-◌, Bool, true, false, not, ◌&&◌, ◌||◌, Option, none, some, List, [], ◌∷◌, ◌++◌,
  ◌==◌, ltb, if◌then◌else◌, is_empty, within, length, take, drop, Bytes, codes, byte_at,
  starts_with,
}
use blogin.Common.Steps.{Step, done, failed, leaving}
use blogin.Expression.{Node, Shape, node, tallest_child, literal_string}

-- The text of a message is `Bytes` here, since some quote the source.
pub record ParseError : Type 0 where
  pub message : Bytes
  pub line : ℕ
  pub column : ℕ

pub record Parser : Type 0 where
  pub rest : Bytes
  pub line : ℕ
  pub column : ℕ
  pub depth : ℕ

abbrev pub M : Type 0 → Type 0
M A = Parser → Step Parser ParseError A

abbrev pub max_depth : ℕ
max_depth = 64

unfoldable pub is_name_start : ℕ → Bool
is_name_start character =
    within b'a' b'z' character || (within b'A' b'Z' character || character == b'_')

unfoldable pub is_digit : ℕ → Bool
is_digit character = within b'0' b'9' character

unfoldable pub is_name_character : ℕ → Bool
is_name_character character = is_name_start character || (is_digit character || character == b'-')

abbrev pub is_gap : ℕ → Bool
is_gap character = character == b' ' || character == b'\t'

abbrev pub fail : {A : Type 0} → Bytes → M A
fail message p = failed (record { message = message; line = p.line; column = p.column })

abbrev pub fail_too_deep : {A : Type 0} → M A
fail_too_deep = fail (codes "nested too deeply, past 64 levels")

-- `unexpected '{}'` with the next byte
abbrev pub fail_unexpected : {A : Type 0} → M A
fail_unexpected p = fail (codes "unexpected '" ++ (take 1 p.rest ++ codes "'")) p

-- How many bytes at the front pass the test.
unfoldable pub run_length : (ℕ → Bool) → Bytes → ℕ
run_length test [] = 0
run_length test (c ∷ cs) = let later = run_length test cs in if test c then suc later else 0

-- `position_ += count`
abbrev pub advance : ℕ → Parser → Parser
advance count p = record p { rest = drop count p.rest; column = p.column + count }

unfoldable pub skip_spaces : Parser → Parser
skip_spaces p = advance (run_length is_gap p.rest) p

abbrev pub peek : Parser → ℕ
peek p = byte_at p.rest 0

-- Whether what follows the token goes on with the word.
unfoldable pub word_goes_on : Bytes → Bytes → Bool
word_goes_on token after =
    is_name_start (byte_at token 0) && (not (is_empty after) && is_name_character (byte_at after 0))

unfoldable pub consume : Bytes → Parser → Bool × Parser
consume token p =
    let s = skip_spaces p in
    if not (starts_with s.rest token)
    then (false, s)
    else if word_goes_on token (drop (length token) s.rest)
    then (false, s)
    else (true, advance (length token) s)

-- A chain of `if (consume(...))`: the first token that is there, for what it stands.
unfoldable pub first_token : {A : Type 0} → List (Bytes × A) → Parser → Option A × Parser
first_token [] p = (none, p)
first_token ((token, a) ∷ tokens) p =
    let tried = consume token p in
    let later = first_token tokens tried.1 in if tried.0 then (some a, tried.1) else later

unfoldable pub read_name : Parser → Bytes × Parser
read_name p =
    let count = run_length is_name_character p.rest in (take count p.rest, advance count p)

module _ {D : Type 0} where
  -- `make`, for a node without children
  abbrev pub leaf : Shape D → M (Node D)
  leaf shape p = done (node shape 1 p.line p.column) p

  -- A node made where the column was `column`, `too_tall` and its error.
  unfoldable pub grown_at : ℕ → Shape D → M (Node D)
  grown_at column shape p =
      let height = tallest_child shape + 1 in
      if ltb max_depth height then fail_too_deep p else done (node shape height p.line column) p

  abbrev pub grown : Shape D → M (Node D)
  grown shape p = grown_at p.column shape p

-- `Depth`, with the test that follows it.
unfoldable pub nested : {A : Type 0} → M A → M A
nested method p =
    let deeper = record p { depth = p.depth + 1 } in
    if ltb max_depth deeper.depth
    then fail_too_deep deeper
    else leaving (λ q. record q { depth = q.depth - 1 }) (method deeper)

-- The loop of `parse_string`, from behind the quote: the value, and what follows the closing quote.
unfoldable pub string_from : ℕ → Bytes → Option (Bytes × Bytes)
string_from quote [] = none
string_from quote (c ∷ []) = if c == quote then some ([], []) else none
string_from quote (c ∷ d ∷ cs) =
    let escaped = string_from quote cs in
    let plain = string_from quote (d ∷ cs) in
    if c == quote
    then some ([], d ∷ cs)
    else if c == b'\\'
    then elim escaped [ none ↦ none | some (value, rest) ↦ some (d ∷ value, rest) ]
    else elim plain [ none ↦ none | some (value, rest) ↦ some (c ∷ value, rest) ]

module _ {D : Type 0} where
  unfoldable pub parse_string : ℕ → M (Node D)
  parse_string quote p = elim (string_from quote (drop 1 p.rest)) [
    | none ↦ fail (codes "unterminated string") (advance (length p.rest) p)
    | some (value, rest) ↦ leaf (literal_string value) (advance (length p.rest - length rest) p)
  ]

-- The length of the number at the front, and whether it has a fraction.
unfoldable pub number_length : Bytes → ℕ × Bool
number_length text =
    let whole = run_length is_digit text in
    let fraction = run_length is_digit (drop (whole + 1) text) in
    if byte_at text whole == b'.' && not (fraction == 0)
    then (whole + 1 + fraction, true)
    else (whole, false)

-- A name and a colon behind the brace, or nothing in the braces.
unfoldable pub looks_like_map : Bytes → Bool
looks_like_map text =
    let inner = drop (run_length is_gap text) text in
    let after = drop (run_length is_name_character inner) inner in
    if not (is_empty inner) && byte_at inner 0 == b'}'
    then true
    else if is_empty inner || not (is_name_start (byte_at inner 0))
    then false
    else (let rest = drop (run_length is_gap after) after in
        not (is_empty rest) && byte_at rest 0 == b':')

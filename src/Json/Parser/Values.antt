-- ===== src/Json/Parser/Values.antt =====
-- src/blogin/json.cpp: the methods of `Parser` from a number on, and `parse_json`.
use Prim.Native.String.{String}
use blogin.Common.{
  ℕ, zero, suc, ◌+◌, ◌-◌, ◌*◌, ◌^◌, Bool, true, false, not, ◌&&◌, ◌||◌, Option, none, some, [], ◌∷◌,
  ◌==◌, ltb, leb, if◌then◌else◌, within, length, Bytes, codes, take,
}
use blogin.Value.{
  ℤ, pos, negsuc, Value, null, boolean, integer, number, string, array, object, nil, end, push, set,
}
use blogin.Json.Parser.{
  Parser, Outcome, ok, stuck, M, ◌>>=◌, ◌>>◌, return, fail, finished, peek, past, advance,
  skip_whitespace, consume, consume_word, parse_string,
}

abbrev pub is_digit : ℕ → Bool
is_digit c = within b'0' b'9' c

-- `while (!done() && peek() is a digit) advance();` The result is whether there was one.
unfoldable pub digits_over : Bytes → Parser → Bool → Outcome Bool
digits_over [] p seen = ok seen p
digits_over (c ∷ cs) p seen =
    let rest = digits_over cs (past c cs p) true in if is_digit c then rest else ok seen p

unfoldable pub skip_digits : M Bool
unfolding digits_over
skip_digits p = digits_over p.rest p false

-- The optional fraction; the result is whether it was there.
unfoldable pub parse_fraction : M Bool
unfolding skip_digits advance
parse_fraction p =
    if not (finished p) && peek p == b'.'
    then (do
      advance
      seen ← skip_digits
      (if not seen then fail "expected a digit after '.'" else return true))
        p
    else ok false p

-- `if (peek() == '+' || peek() == '-') advance();`
unfoldable pub skip_sign : M (Unit {0})
unfolding advance
skip_sign p =
    if not (finished p) && (peek p == b'+' || peek p == b'-')
    then (do advance; return tt) p
    else ok tt p

unfoldable pub parse_exponent : M Bool
unfolding skip_digits skip_sign advance
parse_exponent p =
    if not (finished p) && (peek p == b'e' || peek p == b'E')
    then (do
      advance
      skip_sign
      seen ← skip_digits
      (if not seen then fail "expected a digit in the exponent" else return true))
        p
    else ok false p

-- The number that a run of digits spells.
unfoldable pub digits_value : ℕ → Bytes → ℕ
digits_value value [] = value
digits_value value (c ∷ cs) = digits_value (value * 10 + (c - b'0')) cs

-- `std::from_chars` for an `std::int64_t`; `none` is an error, here a number out of range. An
-- integer is made of its sign and its digits.
unfoldable pub signed : Bool → ℕ → ℤ
signed negative zero = pos 0
signed negative (suc n) = if negative then negsuc n else pos (suc n)

unfoldable pub int64_of : Bool → ℕ → Option ℤ
unfolding signed
int64_of negative n =
    if negative
    then (if leb n (2 ^ 63) then some (signed true n) else none)
    else (if ltb n (2 ^ 63) then some (signed false n) else none)

unfoldable pub from_chars : Bytes → Option ℤ
unfolding int64_of digits_value
from_chars [] = int64_of false 0
from_chars (c ∷ cs) =
    if c == b'-'
    then int64_of true (digits_value 0 cs)
    else int64_of false (digits_value 0 (c ∷ cs))

module _ {D : Type 0} (to_double : Bytes → Option D) where
  -- From the token on; the number that is no `int64_t` is left to `text::to_double`.
  unfoldable pub number_value : Bool → Bytes → M (Value D)
  unfolding from_chars
  number_value floating token p =
      let as_double : Outcome (Value D) = elim (to_double token) [
        | none ↦ fail "number out of range" p
        | some x ↦ ok (number x) p
      ] in
      if floating
      then as_double
      else elim (from_chars token) [ some n ↦ ok (integer n) p | none ↦ as_double ]

  unfoldable pub parse_number : M (Value D)
  unfolding number_value parse_exponent parse_fraction skip_digits advance
  parse_number start =
      (do
        (λ p. if not (finished p) && peek p == b'-' then (do advance; return tt) p else ok tt p)
        any_digits ← skip_digits
        (if not any_digits then fail "expected a value" else (do
          fraction ← parse_fraction
          exponent ← parse_exponent
          λ p.
              number_value (fraction || exponent)
                (take (length start.rest - length p.rest) start.rest) p)))
        start

abbrev pub max_depth : ℕ
max_depth = 64

module _ {D : Type 0} where
  unfoldable pub parse_string_value : M (Value D)
  unfolding parse_string
  parse_string_value = do text ← parse_string; return (string text)

  unfoldable pub parse_word : Bytes → Value D → String → M (Value D)
  unfolding consume_word
  parse_word word value message = do
    found ← consume_word word
    (if found then return value else fail message)

-- `consume(',')` and what follows it in the loops of `parse_object` and `parse_array`: whether the
-- loop goes on.
unfoldable pub separator : ℕ → String → String → M Bool
unfolding consume skip_whitespace
separator close trailing expected = do
  comma ← consume b','
  (if comma
      then (do
        skip_whitespace
        λ p. if not (finished p) && peek p == close then fail trailing p else ok true p)
      else (do closed ← consume close; (if closed then return false else fail expected)))

-- A key with the colon behind it, from the key's first byte on.
unfoldable pub key_at : M Bytes
key_at p =
    if finished p
    then fail "unexpected end of input inside an object" p
    else if not (peek p == b'"')
    then fail "expected a key in double quotes" p
    else (do
      key ← parse_string
      skip_whitespace
      colon ← consume b':'
      (if not colon then fail "expected ':' after a key" else (do skip_whitespace; return key)))
        p

unfoldable pub parse_key : M Bytes
unfolding key_at
parse_key = do skip_whitespace; key_at

abbrev pub opens : Parser → Bool
opens p = peek p == b'{' || peek p == b'['

-- `--depth_` behind an object or an array.
abbrev pub leave : {D : Type 0} → Value D → M (Value D)
leave value p = ok value (record p { depth = p.depth - 1 })

-- The recursion takes one unit of fuel for a value and one for each round of a loop.
unfoldable mutual
  pub parse_value : {D : Type 0} → (Bytes → Option D) → ℕ → M (Value D)
  parse_value to_double zero p = stuck
  parse_value to_double (suc fuel) p =
      let members = members_loop to_double fuel (object end) in
      let elements = items_loop to_double fuel (array nil) in
      let parse_object = do
        advance
        skip_whitespace
        closed ← consume b'}'
        (if closed then return (object end) else members)
      in let parse_array = do
        advance
        skip_whitespace
        closed ← consume b']'
        (if closed then return (array nil) else elements)
        in if finished p
          then fail "unexpected end of input" p
          else if opens p
          then (if ltb max_depth (p.depth + 1)
              then fail "nested too deeply" p
              else (do value ← if peek p == b'{' then parse_object else parse_array; leave value)
                  (record p { depth = p.depth + 1 }))
          else if peek p == b'"'
          then parse_string_value p
          else if peek p == b't'
          then parse_word (codes "true") (boolean true) "expected true" p
          else if peek p == b'f'
          then parse_word (codes "false") (boolean false) "expected false" p
          else if peek p == b'n'
          then parse_word (codes "null") null "expected null" p
          else parse_number to_double p

  pub members_loop : {D : Type 0} → (Bytes → Option D) → ℕ → Value D → M (Value D)
  members_loop to_double zero found p = stuck
  members_loop to_double (suc fuel) found p =
      (do
        key ← parse_key
        item ← parse_value to_double fuel
        skip_whitespace
        more ← separator b'}' "trailing comma before '}'" "expected ',' or '}' in an object"
        let again = members_loop to_double fuel (set found key item)
        (if more then again else return (set found key item)))
        p

  pub items_loop : {D : Type 0} → (Bytes → Option D) → ℕ → Value D → M (Value D)
  items_loop to_double zero found p = stuck
  items_loop to_double (suc fuel) found p =
      (do
        skip_whitespace
        item ← parse_value to_double fuel
        skip_whitespace
        more ← separator b']' "trailing comma before ']'" "expected ',' or ']' in an array"
        let again = items_loop to_double fuel (push found item)
        (if more then again else return (push found item)))
        p

abbrev pub parser_of : Bytes → Parser
parser_of text = record { rest = text; line = 1; column = 1; depth = 0 }

-- The fuel is two units for each byte, and one.
unfoldable pub parse_json : {D : Type 0} → (Bytes → Option D) → Bytes → Outcome (Value D)
unfolding parse_value
parse_json to_double text =
    (do
      skip_whitespace
      result ← parse_value to_double (2 * length text + 1)
      skip_whitespace
      λ p. if not (finished p) then fail "unexpected trailing content" p else ok result p)
      (parser_of text)

-- ===== src/Json/Writer.antt =====
-- src/blogin/json.cpp: `append_json_string`, `write` and `to_json`. What is appended to `out` is
-- returned. What `std::format` makes of a `double` is a parameter.
pub mod Numbers
use blogin.Common.{
  ℕ, zero, suc, ◌+◌, ◌-◌, ◌*◌, ◌/◌, ◌%◌, Bool, true, false, not, List, [], ◌∷◌, ◌++◌, ◌==◌, ltb,
  if◌then◌else◌, Bytes, codes, replicate,
}
use blogin.Value.{
  ℤ, pos, negsuc, Value, Items, Members, null, boolean, integer, number, string, array, object, nil,
  cons, end, member,
}

pub data JsonStyle : Type 0 where
  compact pretty : JsonStyle

-- The digits of `{:x}`.
unfoldable pub hex_char : ℕ → ℕ
hex_char n = if ltb n 10 then n + b'0' else n - 10 + b'a'

-- `std::format("\\u{:04x}", c)`
unfoldable pub unicode_escape : ℕ → Bytes
unfolding hex_char
unicode_escape c =
    b'\\'
    ∷ b'u'
    ∷ hex_char (c / 4096 % 16)
    ∷ hex_char (c / 256 % 16)
    ∷ hex_char (c / 16 % 16)
    ∷ hex_char (c % 16)
    ∷ []

unfoldable pub escape_byte : ℕ → Bytes
escape_byte character =
    if character == b'"'
    then b'\\' ∷ b'"' ∷ []
    else if character == b'\\'
    then b'\\' ∷ b'\\' ∷ []
    else if character == 8
    then b'\\' ∷ b'b' ∷ []
    else if character == 12
    then b'\\' ∷ b'f' ∷ []
    else if character == b'\n'
    then b'\\' ∷ b'n' ∷ []
    else if character == b'\r'
    then b'\\' ∷ b'r' ∷ []
    else if character == b'\t'
    then b'\\' ∷ b't' ∷ []
    else if ltb character 0x20
    then unicode_escape character
    else character ∷ []

unfoldable pub escape_bytes : Bytes → Bytes
unfolding escape_byte unicode_escape
escape_bytes [] = []
escape_bytes (c ∷ cs) = escape_byte c ++ escape_bytes cs

unfoldable pub append_json_string : Bytes → Bytes
unfolding escape_bytes
append_json_string text = b'"' ∷ (escape_bytes text ++ (b'"' ∷ []))

-- `std::format("{}", n)`, the digits in front of `later`; a number has at most `n + 1` digits.
unfoldable pub decimal_onto : ℕ → ℕ → Bytes → Bytes
decimal_onto zero n later = later
decimal_onto (suc fuel) n later =
    let rest = decimal_onto fuel (n / 10) ((n % 10 + b'0') ∷ later) in
    if ltb n 10 then (n % 10 + b'0') ∷ later else rest

unfoldable pub decimal : ℕ → Bytes
unfolding decimal_onto
decimal n = decimal_onto (n + 1) n []

unfoldable pub format_int : ℤ → Bytes
unfolding decimal
format_int (pos n) = decimal n
format_int (negsuc n) = b'-' ∷ decimal (n + 1)

-- What the writer needs to know of a `double`.
pub record Doubles (D : Type 0) : Type 0 where
  pub is_finite : D → Bool
  pub is_zero : D → Bool
  pub positive_zero : D
  pub format_double : D → Bytes

-- The line break and the indent of the pretty style.
unfoldable pub line_break : JsonStyle → ℕ → Bytes
line_break compact depth = []
line_break pretty depth = b'\n' ∷ replicate (depth * 2) b' '

unfoldable pub colon : JsonStyle → Bytes
colon compact = b':' ∷ []
colon pretty = b':' ∷ b' ' ∷ []

-- `left.first < right.first`, byte by byte
unfoldable pub less_bytes : Bytes → Bytes → Bool
less_bytes [] [] = false
less_bytes [] (y ∷ ys) = true
less_bytes (x ∷ xs) [] = false
less_bytes (x ∷ xs) (y ∷ ys) =
    let rest = less_bytes xs ys in if ltb x y then true else if ltb y x then false else rest

-- A key with the text of its value. The members are sorted with their texts, which do not depend
-- on the order.
abbrev pub Entry : Type 0
Entry = Bytes × Bytes

insert_entry : Entry → List Entry → List Entry
insert_entry e [] = e ∷ []
insert_entry e (f ∷ fs) = if less_bytes f.0 e.0 then f ∷ insert_entry e fs else e ∷ f ∷ fs

unfoldable pub sort_entries : List Entry → List Entry
unfolding insert_entry less_bytes
sort_entries [] = []
sort_entries (e ∷ es) = insert_entry e (sort_entries es)

unfoldable pub entry_text : JsonStyle → Entry → Bytes
entry_text style e = append_json_string e.0 ++ (colon style ++ e.1)

-- The elements of an object, with commas between and line breaks before.
unfoldable pub join_entries : JsonStyle → ℕ → List Entry → Bytes
unfolding entry_text append_json_string colon line_break
join_entries style depth [] = []
join_entries style depth (e ∷ []) = line_break style depth ++ entry_text style e
join_entries style depth (e ∷ f ∷ es) =
    line_break style depth ++ (entry_text style e ++ (b',' ∷ join_entries style depth (f ∷ es)))

unfoldable pub object_text : JsonStyle → ℕ → List Entry → Bytes
unfolding join_entries line_break
object_text style depth [] = codes "{}"
object_text style depth (e ∷ es) =
    b'{' ∷ (join_entries style (depth + 1) (e ∷ es) ++ (line_break style depth ++ (b'}' ∷ [])))

unfoldable mutual
  unfolding format_int append_json_string sort_entries object_text line_break

  pub write : {D : Type 0} → Doubles D → JsonStyle → Bool → ℕ → Value D → Bytes
  write d style sorted depth null = codes "null"
  write d style sorted depth (boolean b) = if b then codes "true" else codes "false"
  write d style sorted depth (integer n) = format_int n
  write d style sorted depth (number x) =
      if not (d.is_finite x)
      then codes "null"
      else d.format_double (if d.is_zero x then d.positive_zero else x)
  write d style sorted depth (string s) = append_json_string s
  write d style sorted depth (array nil) = codes "[]"
  write d style sorted depth (array (cons v vs)) =
      b'['
      ∷ (line_break style (depth + 1)
          ++ (write d style sorted (depth + 1) v
              ++ write_items d style sorted (depth + 1) vs (line_break style depth ++ (b']' ∷ []))))
  write d style sorted depth (object ms) =
      let entries = write_members d style sorted (depth + 1) ms in
      object_text style depth (if sorted then sort_entries entries else entries)

  -- The elements behind the first, and what stands behind them.
  pub write_items : {D : Type 0} → Doubles D → JsonStyle → Bool → ℕ → Items D → Bytes → Bytes
  write_items d style sorted depth nil close = close
  write_items d style sorted depth (cons v vs) close =
      b','
      ∷ (line_break style depth
          ++ (write d style sorted depth v ++ write_items d style sorted depth vs close))

  pub write_members : {D : Type 0} → Doubles D → JsonStyle → Bool → ℕ → Members D → List Entry
  write_members d style sorted depth end = []
  write_members d style sorted depth (member key v ms) =
      (key, write d style sorted depth v) ∷ write_members d style sorted depth ms

unfoldable pub to_json : {D : Type 0} → Doubles D → JsonStyle → Bool → Value D → Bytes
unfolding write
to_json d compact sorted v = write d compact sorted 0 v
to_json d pretty sorted v = write d pretty sorted 0 v ++ (b'\n' ∷ [])

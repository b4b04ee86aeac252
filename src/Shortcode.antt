-- ===== src/Shortcode.antt =====
-- src/blogin/shortcode.cpp and include/shortcode.h: arguments, templates and the registry. The
-- directory that `ShortcodeRegistry::load` reads is not modelled: a registry is its entries.
pub mod Safe
pub mod Expand
use mathlib.Core.Option
use blogin.Common.{
  ℕ, zero, suc, ◌+◌, ◌-◌, Bool, true, false, not, ◌||◌, ◌&&◌, Option, none, some, List, [], ◌∷◌,
  ◌++◌, ◌==◌, ltb, leb, if◌then◌else◌, is_empty, length, drop, take, within, Bytes, codes, byte_at,
  slice, find_bytes, same_bytes, starts_with,
}
use blogin.Text.{trim, scan_while}

unfoldable pub escaped_byte : ℕ → Bytes
escaped_byte character =
    if character == b'&'
    then codes "&amp;"
    else if character == b'<'
    then codes "&lt;"
    else if character == b'>'
    then codes "&gt;"
    else if character == b'"'
    then codes "&quot;"
    else character ∷ []

-- What `escape_attribute` appends.
unfoldable pub escape_attribute : Bytes → Bytes
escape_attribute [] = []
escape_attribute (c ∷ cs) = escaped_byte c ++ escape_attribute cs

unfoldable pub is_name_character : ℕ → Bool
is_name_character character =
    within b'a' b'z' character
    || (within b'A' b'Z' character
        || (within b'0' b'9' character || (character == b'-' || character == b'_')))

pub record Argument : Type 0 where
  pub name : Bytes
  pub value : Bytes

abbrev pub is_blank : ℕ → Bool
is_blank character = character == b' ' || character == b'\t'

abbrev pub is_quote : ℕ → Bool
is_quote character = character == b'"' || character == b'\''

-- `while (index < raw.size() && test(raw[index])) ++index;`
abbrev pub scan : (ℕ → Bool) → Bytes → ℕ → ℕ
scan test raw index = scan_while (length raw) test raw index

-- The loop of `parse_arguments`; each round takes a byte of a name at least.
unfoldable pub arguments_loop : ℕ → Bytes → ℕ → List Argument
arguments_loop zero raw index = []
arguments_loop (suc fuel) raw index =
    let name_start = scan (λ c. not (is_name_character c)) raw index in
    let name_end = scan is_name_character raw name_start in
    let equals = scan is_blank raw name_end in
    let quote_at = scan is_blank raw (equals + 1) in
    let quote = byte_at raw quote_at in
    let value_start = quote_at + 1 in
    let value_end = scan (λ c. not (c == quote)) raw value_start in
    let nameless = arguments_loop fuel raw equals in
    let unquoted = arguments_loop fuel raw quote_at in
    let found =
      record {
        name = slice raw name_start (name_end - name_start);
        value = slice raw value_start (value_end - value_start);
      }
      ∷ arguments_loop fuel raw (if ltb value_end (length raw) then value_end + 1 else value_end) in
    if not (ltb index (length raw)) || name_end == name_start
    then []
    else if leb (length raw) equals || not (byte_at raw equals == b'=')
    then nameless
    else if leb (length raw) quote_at || not (is_quote quote)
    then unquoted
    else found

unfoldable pub parse_arguments : Bytes → List Argument
parse_arguments raw = arguments_loop (length raw) raw 0

-- `argument`: the first of the name, or the empty text.
unfoldable pub argument : List Argument → Bytes → Bytes
argument [] name = []
argument (entry ∷ arguments) name =
    if same_bytes entry.name name then entry.value else argument arguments name

-- The loop of `render_template`; `body` is what follows `index`.
unfoldable pub render_loop : ℕ → Bytes → List Argument → Bytes
render_loop zero body arguments = []
render_loop (suc fuel) [] arguments = []
render_loop (suc fuel) (c ∷ cs) arguments =
    let copied = c ∷ render_loop fuel cs arguments in
    let replaced : Bytes = elim (find_bytes (drop 1 cs) (codes "}}")) [
      | none ↦ c ∷ render_loop fuel cs arguments
      | some closing ↦
          escape_attribute (argument arguments (trim (take closing (drop 1 cs))))
          ++ render_loop fuel (drop (closing + 2) (drop 1 cs)) arguments
    ] in
    if not (starts_with (c ∷ cs) (codes "{{")) then copied else replaced

unfoldable pub render_template : Bytes → List Argument → Bytes
render_template body arguments = render_loop (length body) body arguments

unfoldable pub is_builtin : Bytes → Bool
is_builtin name = same_bytes name (codes "youtube") || same_bytes name (codes "figure")

-- The caption of a figure, if there is one.
unfoldable pub figcaption : Bytes → Bytes
figcaption caption =
    if is_empty caption
    then []
    else codes "<figcaption>" ++ (escape_attribute caption ++ codes "</figcaption>")

unfoldable pub expand_builtin : Bytes → List Argument → Bytes
expand_builtin name arguments =
    if same_bytes name (codes "youtube")
    then codes "<div class=\"video\"><iframe src=\"https://www.youtube.com/embed/"
      ++ (escape_attribute (argument arguments (codes "id"))
          ++ codes "\" allowfullscreen></iframe></div>")
    else if same_bytes name (codes "figure")
    then codes "<figure><img src=\""
      ++ (escape_attribute (argument arguments (codes "src"))
          ++ (codes "\" alt=\""
              ++ (escape_attribute (argument arguments (codes "alt"))
                  ++ (codes "\" />"
                      ++ (figcaption (argument arguments (codes "caption"))
                          ++ codes "</figure>")))))
    else []

-- `ShortcodeRegistry::Entry`
pub record Template : Type 0 where
  pub name : Bytes
  pub body : Bytes

-- `ShortcodeRegistry`
abbrev pub Registry : Type 0
Registry = List Template

unfoldable pub find_template : Registry → Bytes → Option Template
find_template [] name = none
find_template (entry ∷ templates) name =
    if same_bytes entry.name name then some entry else find_template templates name

-- `ShortcodeRegistry::contains`
unfoldable pub knows : Registry → Bytes → Bool
knows templates name = elim (find_template templates name) [
  | none ↦ is_builtin name
  | some entry ↦ true
]

unfoldable pub expand : Registry → Bytes → Bytes → Bytes → Bytes
expand templates name arguments source = elim (find_template templates name) [
  | some entry ↦ render_template entry.body (parse_arguments arguments)
  | none ↦
      if is_builtin name
      then expand_builtin name (parse_arguments arguments)
      else escape_attribute source
]

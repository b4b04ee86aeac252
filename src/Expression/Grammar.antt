-- ===== src/Expression/Grammar.antt =====
-- src/blogin/expression.cpp: the methods of `Parser` that build the tree. `top` is `parse_or` for the
-- methods that lead back to it, which takes fuel; a loop has a round for each byte that is left.
use blogin.Common.{
  ℕ, zero, suc, ◌+◌, ◌-◌, not, ◌&&◌, ◌||◌, Option, none, some, List, [], ◌∷◌, ◌++◌, ◌==◌,
  if◌then◌else◌, is_empty, length, take, drop, Bytes, codes, same_bytes, find_byte,
}
use blogin.Common.Steps.{Step, done, stuck, ◌>>=◌}
use blogin.Text.{trim}
use blogin.Value.{ℤ, pos}
use blogin.Json.Parser.Values.{from_chars}
use blogin.Expression.{
  Node, Nodes, BinaryOperator, node, no_nodes, push_node, literal_null, literal_boolean,
  literal_integer, literal_number, literal_string, name, variable, member, call, named_argument,
  block, map_of, unary_not, binary, equal, not_equal, less, less_or_equal, greater,
  greater_or_equal, logical_and, logical_or, add, subtract, concatenate,
}
use blogin.Expression.Parser.{
  ParseError, Parser, M, fail, fail_unexpected, is_digit, is_name_start, advance, skip_spaces, peek,
  consume, first_token, read_name, leaf, grown_at, grown, nested, parse_string, number_length,
  looks_like_map,
}

abbrev pub or_tokens : List (Bytes × BinaryOperator)
or_tokens = (codes "||", logical_or) ∷ ((codes "or", logical_or) ∷ [])

abbrev pub and_tokens : List (Bytes × BinaryOperator)
and_tokens = (codes "&&", logical_and) ∷ ((codes "and", logical_and) ∷ [])

abbrev pub comparison_tokens : List (Bytes × BinaryOperator)
comparison_tokens =
    (codes "==", equal)
    ∷ ((codes "eq", equal)
        ∷ ((codes "!=", not_equal)
            ∷ ((codes "ne", not_equal)
                ∷ ((codes "<=", less_or_equal)
                    ∷ ((codes ">=", greater_or_equal)
                        ∷ ((codes "<", less) ∷ ((codes ">", greater) ∷ [])))))))

abbrev pub additive_tokens : List (Bytes × BinaryOperator)
additive_tokens = (codes "~", concatenate) ∷ ((codes "+", add) ∷ ((codes "-", subtract) ∷ []))

abbrev pub not_tokens : List (Bytes × Unit {0})
not_tokens = (codes "!", tt) ∷ ((codes "not", tt) ∷ [])

module _ {D : Type 0} (to_double : Bytes → Option D) (zero_double : D) where
  unfoldable pub parse_number : M (Node D)
  parse_number p =
      let (count, floating) = number_length p.rest in
      let token = take count p.rest in
      let fraction : D = elim (to_double token) [ some x ↦ x | none ↦ zero_double ] in
      let whole : ℤ = elim (from_chars token) [ some n ↦ n | none ↦ pos 0 ] in
      leaf (if floating then literal_number fraction else literal_integer whole) (advance count p)

module _ {D : Type 0} where
  -- The shape of a word; the place of a name is its first byte.
  unfoldable pub parse_word : M (Node D)
  parse_word p =
      let (word, q) = read_name p in
      if same_bytes word (codes "true")
        || (same_bytes word (codes "false")
            || (same_bytes word (codes "True") || same_bytes word (codes "False")))
      then leaf (literal_boolean (same_bytes word (codes "true") || same_bytes word (codes "True")))
          q
      else if same_bytes word (codes "null") || same_bytes word (codes "Nil")
      then leaf literal_null q
      else done (node (name word) 1 p.line p.column) q

  unfoldable pub parse_variable : M (Node D)
  parse_variable p =
      let (word, q) = read_name (advance 1 p) in
      if is_empty word then fail (codes "expected a name after '$'") q else leaf (variable word) q

-- What follows a method: the token, or an error.
unfoldable pub closed_by : {A : Type 0} → Bytes → Bytes → A → M A
closed_by token message a p =
    let tried = consume token p in if tried.0 then done a tried.1 else fail message tried.1

module _ {D : Type 0} (top : M (Node D)) where
  unfoldable pub parse_group : M (Node D)
  parse_group p = (top >>= closed_by (codes ")") (codes "expected ')'")) (advance 1 p)

  unfoldable pub parse_block : M (Node D)
  parse_block p =
      (top >>= λ inner.
      closed_by (codes "}") (codes "expected '}' to close a block") inner >>= λ target.
      grown (block target))
        (advance 1 p)

  -- The value behind a map's key, and its entry.
  unfoldable pub map_entry : Bytes → M (Node D)
  map_entry key p =
      (closed_by (codes ":") (codes "expected ':' after the map key '" ++ (key ++ codes "'")) tt
          >>= λ _. top >>= λ value. grown (named_argument key value))
        (skip_spaces p)

  unfoldable pub map_loop : ℕ → Nodes D → M (Nodes D)
  map_loop zero entries p = stuck
  map_loop (suc fuel) entries p =
      let again = map_loop fuel in
      let (key, q) = read_name p in
      if is_empty p.rest || peek p == b'}'
      then done entries p
      else if is_empty key
      then fail (codes "expected a name as a map key") q
      else (map_entry key >>= λ entry r.
            let comma = consume (codes ",") (skip_spaces r) in
            if comma.0
            then again (push_node entries entry) (skip_spaces comma.1)
            else done (push_node entries entry) comma.1)
          q

  -- The place of the map is its brace.
  unfoldable pub parse_map : M (Node D)
  parse_map p =
      let inner = skip_spaces (advance 1 p) in
      (map_loop (suc (length inner.rest)) no_nodes
          >>= closed_by (codes "}") (codes "expected '}' to close a map")
          >>= λ entries. grown_at p.column (map_of entries))
        inner

  -- `:name<text>`, `:name(expression)` and `:name`, from behind the colon. The place of each is
  -- behind its name.
  unfoldable pub parse_named : M (Node D)
  parse_named p =
      let (word, q) = read_name p in
      let text : M (Node D) = λ r. elim (find_byte r.rest b'>' 0) [
        | none ↦ fail (codes "unterminated named argument") r
        | some closing ↦
            done
              (node
                (named_argument word
                  (node (literal_string (take (closing - 1) (drop 1 r.rest))) 1 r.line r.column))
                2 r.line r.column)
              (advance (closing + 1) r)
      ] in
      if is_empty word
      then fail (codes "expected a name after ':'") q
      else if peek q == b'<'
      then text q
      else if peek q == b'('
      then (top >>= closed_by (codes ")") (codes "expected ')' after a named argument") >>= λ value.
            grown_at q.column (named_argument word value))
          (advance 1 q)
      else done
          (node (named_argument word (node (literal_string word) 1 q.line q.column)) 2 q.line
            q.column)
          q

  unfoldable pub parse_argument : M (Node D)
  parse_argument p =
      let q = skip_spaces p in if peek q == b':' then parse_named (advance 1 q) else top q

  unfoldable pub arguments_loop : ℕ → Nodes D → M (Nodes D)
  arguments_loop zero arguments p = stuck
  arguments_loop (suc fuel) arguments p =
      let again = arguments_loop fuel in
      (parse_argument >>= λ argument q.
      let comma = consume (codes ",") (skip_spaces q) in
      if comma.0
      then again (push_node arguments argument) comma.1
      else closed_by (codes ")") (codes "expected ',' or ')' in an argument list")
          (push_node arguments argument) comma.1)
        p

  unfoldable pub parse_arguments : M (Nodes D)
  parse_arguments p =
      let q = skip_spaces (advance 1 p) in
      if is_empty q.rest
      then fail (codes "unterminated argument list") q
      else if peek q == b')'
      then done no_nodes (advance 1 q)
      else arguments_loop (suc (length q.rest)) no_nodes q

  -- The argument list of a call, and its node.
  unfoldable pub parse_call : Node D → M (Node D)
  parse_call target = parse_arguments >>= λ arguments. grown (call target arguments)

  -- What follows a `.`
  unfoldable pub parse_member : Node D → M (Node D)
  parse_member target p =
      let (word, q) = read_name p in
      if is_empty word
      then fail (codes "expected a name after '.'") q
      else (grown (member word target) >>= λ read r.
            if peek r == b'(' then parse_call read r else done read r)
          q

  unfoldable pub postfix_loop : ℕ → Node D → M (Node D)
  postfix_loop zero target p = stuck
  postfix_loop (suc fuel) target p =
      let again = postfix_loop fuel in
      let dot = consume (codes ".") p in
      let q = dot.1 in
      let (key, r) = read_name (advance 1 q) in
      if dot.0
      then (parse_member target >>= again) q
      else if peek q == b'<'
      then (if not (is_empty key) && peek r == b'>'
          then (grown (member key target) >>= again) (advance 1 r)
          else done target q)
      else if peek q == b'('
      then (parse_call target >>= again) q
      else done target q

  module _ (to_double : Bytes → Option D) (zero_double : D) where
    unfoldable pub parse_primary : M (Node D)
    parse_primary p =
        let q = skip_spaces p in
        if is_empty q.rest
        then fail (codes "expected a value") q
        else if peek q == b'('
        then parse_group q
        else if peek q == b'{'
        then (if looks_like_map (drop 1 q.rest) then parse_map q else parse_block q)
        else if peek q == b'"' || peek q == b'\''
        then parse_string (peek q) q
        else if is_digit (peek q)
        then parse_number to_double zero_double q
        else if peek q == b'$'
        then parse_variable q
        else if is_name_start (peek q)
        then parse_word q
        else if peek q == b'='
        then fail (codes "assignment is not supported") q
        else fail_unexpected q

    unfoldable pub parse_postfix : M (Node D)
    parse_postfix = parse_primary >>= λ target p. postfix_loop (suc (length p.rest)) target p

    -- Its own recursion takes fuel too.
    unfoldable pub parse_unary : ℕ → M (Node D)
    parse_unary zero = λ p. stuck
    parse_unary (suc fuel) =
        let operand = parse_unary fuel in
        nested (λ p.
          let sign = first_token not_tokens p in
          elim sign.0 [
            | some _ ↦ (operand >>= λ target. grown (unary_not target)) sign.1
            | none ↦ parse_postfix sign.1
          ])

-- The loop that the four levels of binary operators share: what follows the left operand.
unfoldable pub chain :
    {D : Type 0} → ℕ → M (Node D) → List (Bytes × BinaryOperator) → Node D → M (Node D)
chain zero operand tokens left p = stuck
chain (suc fuel) operand tokens left p =
    let again = chain fuel operand tokens in
    let (found, q) = first_token tokens p in
    elim found [
      | none ↦ done left q
      | some op ↦ (operand >>= λ right. grown (binary op left right) >>= again) q
    ]

unfoldable pub level : {D : Type 0} → M (Node D) → List (Bytes × BinaryOperator) → M (Node D)
level operand tokens = operand >>= λ left p. chain (suc (length p.rest)) operand tokens left p

module _ {D : Type 0} (to_double : Bytes → Option D) (zero_double : D) (top : M (Node D)) where
  unfoldable pub parse_additive : M (Node D)
  parse_additive =
      level (λ p. parse_unary top to_double zero_double (suc (length p.rest)) p) additive_tokens

  unfoldable pub parse_comparison : M (Node D)
  parse_comparison = level parse_additive comparison_tokens

  unfoldable pub parse_and : M (Node D)
  parse_and = level parse_comparison and_tokens

module _ {D : Type 0} (to_double : Bytes → Option D) (zero_double : D) where
  unfoldable pub parse_or : ℕ → M (Node D)
  parse_or zero = λ p. stuck
  parse_or (suc fuel) = nested (level (parse_and to_double zero_double (parse_or fuel)) or_tokens)

  unfoldable pub parse_all : ℕ → M (Node D)
  parse_all fuel = parse_or fuel >>= λ tree p.
      let q = skip_spaces p in
      if is_empty q.rest
      then done tree q
      else if peek q == b'='
      then fail (codes "assignment is not supported") q
      else fail_unexpected q

  -- `expression::parse`, from a line and a column of a template
  unfoldable pub parse_expression : Bytes → ℕ → ℕ → Step Parser ParseError (Node D)
  parse_expression source line column =
      let text = trim source in
      parse_all (suc (length text))
        (record { rest = text; line = line; column = column; depth = 0 })

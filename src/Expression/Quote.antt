-- ===== src/Expression/Quote.antt =====
-- src/blogin/expression.cpp: a string literal, from its text to its value.
use blogin.Common.{
  ℕ, suc, ◌+◌, ◌-◌, false, ◌||◌, Option, none, some, List, [], ◌∷◌, ◌++◌, ◌==◌, if◌then◌else◌,
  length, is_empty, Bytes, codes, starts_with, ◌≡◌, refl, ap, ◌∙◌, arith, drop_past, Bool-cases,
  inl, inr,
}
use blogin.Common.Steps.{Step, done, bind, leaving, ◌>>=◌}
use blogin.Text.{trim, is_space}
use blogin.Text.Trim.{EndsClear, trim_clear}
use blogin.Expression.{Node, BinaryOperator, node, literal_string, binary, unary_not}
use blogin.Expression.Height.Loops.{NoEmpty}
use blogin.Expression.Parser.{
  ParseError, Parser, M, fail, fail_unexpected, peek, leaf, grown, advance, run_length, is_digit,
  is_name_start, skip_spaces, consume, first_token, nested, string_from, parse_string,
}
use blogin.Expression.Grammar.{
  or_tokens, and_tokens, comparison_tokens, additive_tokens, not_tokens, parse_primary,
  parse_postfix, postfix_loop, parse_unary, chain, level, parse_additive, parse_comparison,
  parse_and, parse_or, parse_all, parse_expression,
}

-- A backslash before each quote and each backslash.
unfoldable pub escaped : Bytes → Bytes
escaped [] = []
escaped (c ∷ cs) = if c == b'"' || c == b'\\' then b'\\' ∷ (c ∷ escaped cs) else c ∷ escaped cs

unfoldable pub quote : Bytes → Bytes
quote text = b'"' ∷ (escaped text ++ (b'"' ∷ []))

-- Behind a byte of a literal there is always another.
more_bytes : (text : Bytes) → (d : ℕ) × ((ds : Bytes) × (escaped text ++ (b'"' ∷ []) ≡ d ∷ ds))
unfolding escaped
more_bytes [] = (b'"', ([], refl))
more_bytes (c ∷ cs) = elim (Bool-cases (c == b'"' || c == b'\\')) [
  | inl e ↦ (b'\\', (c ∷ (escaped cs ++ (b'"' ∷ [])), rw e))
  | inr e ↦ (c, (escaped cs ++ (b'"' ∷ []), rw e))
]

plain_byte :
    (c : ℕ) (cs value rest : Bytes)
    → (c == b'"') ≡ false
    → (c == b'\\') ≡ false
    → (d : ℕ) × ((ds : Bytes) × (cs ≡ d ∷ ds))
    → string_from b'"' cs ≡ some (value, rest)
    → string_from b'"' (c ∷ cs) ≡ some (c ∷ value, rest)
unfolding string_from
plain_byte c [] value rest q b (d, (ds, e)) h = absurd (ground arith)
plain_byte c (d ∷ ds) value rest q b more h = rw (q, b, h)

string_from-escaped :
    (text : Bytes) → string_from b'"' (escaped text ++ (b'"' ∷ [])) ≡ some (text, [])
unfolding string_from escaped
string_from-escaped [] = refl
string_from-escaped (c ∷ cs) = elim (Bool-cases (c == b'"' || c == b'\\')) [
  | inl e ↦ rw (e, string_from-escaped cs)
  | inr e ↦ rw e (
      plain_byte c (escaped cs ++ (b'"' ∷ [])) cs [] (ground arith) (ground arith) (more_bytes cs)
        (string_from-escaped cs))
]

EndsClear-snoc : (xs : Bytes) → EndsClear (xs ++ (b'"' ∷ []))
unfolding is_space
EndsClear-snoc [] = refl
EndsClear-snoc (x ∷ []) = refl
EndsClear-snoc (x ∷ y ∷ xs) = EndsClear-snoc (y ∷ xs)

trim-quote : (text : Bytes) → trim (quote text) ≡ quote text
unfolding quote is_space
trim-quote text = trim_clear (quote text) refl (EndsClear-snoc (b'"' ∷ escaped text))

module _ {D : Type 0} (to_double : Bytes → Option D) (zero_double : D) where
  -- The literal, and the state behind it: no text is left.
  abbrev literal : Bytes → ℕ → ℕ → Node D
  literal text line column = node (literal_string text) 1 line column

  abbrev behind : ℕ → ℕ → ℕ → Parser
  behind line column depth = record { rest = []; line = line; column = column; depth = depth }

  parse_string-quote :
      (text : Bytes) (line column depth : ℕ)
      → parse_string b'"'
          (record { rest = quote text; line = line; column = column; depth = depth })
        ≡ done
            (literal text line (column + length (quote text)))
            (behind line (column + length (quote text)) depth)
  unfolding parse_string quote
  parse_string-quote text line column depth =
      let body = escaped text ++ (b'"' ∷ []) in
      let p : Parser = record { rest = quote text; line = line; column = column; depth = depth } in
      ap
        (λ (o : Option (Bytes × Bytes)). elim o as (λ x. Step Parser ParseError (Node D)) [
          | none ↦ fail (codes "unterminated string") (advance (length p.rest) p)
          | some (value, rest) ↦
              leaf (literal_string value) (advance (length p.rest - length rest) p)
        ])
        (string_from-escaped text)
      ∙ (ap (λ k. leaf (literal_string text) (advance k p)) {x = length p.rest - 0}
            {y = length p.rest} (omega arith)
          ∙ ap
              (λ (rest : Bytes).
                done (literal text line (column + length p.rest))
                  (record p { rest = rest; column = column + length p.rest }))
              (drop_past (length body) body (omega arith)))

  parse_primary-quote :
      (top : M (Node D)) (text : Bytes) (line column depth : ℕ)
      → parse_primary top to_double zero_double
          (record { rest = quote text; line = line; column = column; depth = depth })
        ≡ done
            (literal text line (column + length (quote text)))
            (behind line (column + length (quote text)) depth)
  unfolding parse_primary quote skip_spaces run_length is_digit is_name_start
  parse_primary-quote top text line column depth =
      ap
        (λ k.
          parse_string b'"' (record { rest = quote text; line = line; column = k; depth = depth }))
        {x = column + 0} {y = column} (omega arith)
      ∙ parse_string-quote text line column depth

  skip_spaces-end :
      (line column depth : ℕ) → skip_spaces (behind line column depth) ≡ behind line column depth
  unfolding skip_spaces run_length
  skip_spaces-end line column depth =
      ap (λ k. behind line k depth) {x = column + 0} {y = column} (omega arith)

  consume-end :
      (token : Bytes) (line column depth : ℕ)
      → is_empty token ≡ false
      → consume token (behind line column depth) ≡ (false, behind line column depth)
  unfolding consume starts_with
  consume-end [] line column depth h = absurd (ground arith)
  consume-end (t ∷ ts) line column depth h = rw (skip_spaces-end line column depth)

  first_token-end :
      {A : Type 0} (tokens : List (Bytes × A)) (line column depth : ℕ)
      → NoEmpty tokens
      → first_token tokens (behind line column depth) ≡ (none, behind line column depth)
  unfolding first_token
  first_token-end [] line column depth t = refl
  first_token-end ((token, a) ∷ tokens) line column depth (n, t) =
      rw (consume-end token line column depth n, first_token-end tokens line column depth t)

  -- A chain of operators ends where the text does.
  chain-end :
      (fuel : ℕ) (operand : M (Node D)) (tokens : List (Bytes × BinaryOperator)) (left : Node D)
      (line column depth : ℕ)
      → NoEmpty tokens
      → chain (suc fuel) operand tokens left (behind line column depth)
        ≡ done left (behind line column depth)
  unfolding chain
  chain-end fuel operand tokens left line column depth t =
      ap
        (λ (r : Option BinaryOperator × Parser).
          elim r.0 as (λ x. Step Parser ParseError (Node D)) [
            | none ↦ done left r.1
            | some op ↦
                (operand >>= λ right. grown (binary op left right) >>= chain fuel operand tokens)
                  r.1
          ])
        (first_token-end tokens line column depth t)

  level-end :
      (operand : M (Node D)) (tokens : List (Bytes × BinaryOperator)) (p : Parser) (a : Node D)
      (line column depth : ℕ)
      → NoEmpty tokens
      → operand p ≡ done a (behind line column depth)
      → level operand tokens p ≡ done a (behind line column depth)
  unfolding level
  level-end operand tokens p a line column depth t e =
      ap
        (λ (o : Step Parser ParseError (Node D)).
          bind o (λ left q. chain (suc (length q.rest)) operand tokens left q))
        e
      ∙ chain-end 0 operand tokens a line column depth t

  postfix_loop-end :
      (top : M (Node D)) (a : Node D) (line column depth : ℕ)
      → postfix_loop top 1 a (behind line column depth) ≡ done a (behind line column depth)
  unfolding postfix_loop
  postfix_loop-end top a line column depth = rw (consume-end (codes ".") line column depth refl)

  no_sign :
      (text : Bytes) (line column depth : ℕ)
      → first_token not_tokens
          (record { rest = quote text; line = line; column = column; depth = depth })
        ≡ (none, record { rest = quote text; line = line; column = column; depth = depth })
  unfolding first_token consume skip_spaces run_length starts_with quote
  no_sign text line column depth =
      ap (λ k. (none, record { rest = quote text; line = line; column = k; depth = depth }))
        {x = column + 0 + 0} {y = column} (omega arith)

  parse_postfix-quote :
      (top : M (Node D)) (text : Bytes) (line column depth : ℕ)
      → parse_postfix top to_double zero_double
          (record { rest = quote text; line = line; column = column; depth = depth })
        ≡ done
            (literal text line (column + length (quote text)))
            (behind line (column + length (quote text)) depth)
  unfolding parse_postfix
  parse_postfix-quote top text line column depth =
      let end = column + length (quote text) in
      ap
        (λ (o : Step Parser ParseError (Node D)).
          bind o (λ target q. postfix_loop top (suc (length q.rest)) target q))
        (parse_primary-quote top text line column depth)
      ∙ postfix_loop-end top (literal text line end) line end depth

  -- The prefix operators and the levels around a literal; `depth` is that of the call.
  parse_unary-quote :
      (top : M (Node D)) (fuel : ℕ) (text : Bytes) (line column : ℕ)
      → parse_unary top to_double zero_double
          (suc fuel)
          (record { rest = quote text; line = line; column = column; depth = 1 })
        ≡ done
            (literal text line (column + length (quote text)))
            (behind line (column + length (quote text)) 1)
  unfolding parse_unary nested
  parse_unary-quote top fuel text line column =
      ap (leaving (λ q. record q { depth = q.depth - 1 })) (
        ap
          (λ (r : Option (Unit {0}) × Parser). elim r.0 as (λ x. Step Parser ParseError (Node D)) [
            | some _ ↦
                (parse_unary top to_double zero_double fuel >>= λ target. grown (unary_not target))
                  r.1
            | none ↦ parse_postfix top to_double zero_double r.1
          ])
          (no_sign text line column 2)
        ∙ parse_postfix-quote top text line column 2)

  parse_or-quote :
      (fuel : ℕ) (text : Bytes) (line column : ℕ)
      → parse_or to_double zero_double
          (suc fuel)
          (record { rest = quote text; line = line; column = column; depth = 0 })
        ≡ done
            (literal text line (column + length (quote text)))
            (behind line (column + length (quote text)) 0)
  unfolding parse_or parse_and parse_comparison parse_additive nested quote
  parse_or-quote fuel text line column =
      let top = parse_or to_double zero_double fuel in
      let p : Parser = record { rest = quote text; line = line; column = column; depth = 1 } in
      let end = column + length (quote text) in
      ap (leaving (λ q. record q { depth = q.depth - 1 })) (
        level-end _ or_tokens p (literal text line end) line end 1 (refl, (refl, tt))
          (level-end _ and_tokens p (literal text line end) line end 1 (refl, (refl, tt))
            (level-end _ comparison_tokens p (literal text line end) line end 1
              (refl, (refl, (refl, (refl, (refl, (refl, (refl, (refl, tt))))))))
              (level-end _ additive_tokens p (literal text line end) line end 1
                (refl, (refl, (refl, tt)))
                (parse_unary-quote top (length p.rest) text line column)))))

  -- A text between double quotes, with a backslash before each quote and each backslash in it, is
  -- parsed to the literal of that text, whatever its bytes are: nothing of it is lost or read as an
  -- operator. The place of the node is behind the closing quote.
  pub parse_expression-quote :
      (text : Bytes) (line column : ℕ)
      → let end = column + length (quote text) in
        parse_expression to_double zero_double (quote text) line column
        ≡ done
            (node (literal_string text) 1 line end)
            (record { rest = []; line = line; column = end; depth = 0 })
  unfolding parse_expression parse_all
  parse_expression-quote text line column =
      let end = column + length (quote text) in
      let start = λ (source : Bytes).
        parse_all to_double zero_double (suc (length source))
          (record { rest = source; line = line; column = column; depth = 0 }) in
      ap start (trim-quote text)
      ∙ (ap
            (λ (o : Step Parser ParseError (Node D)).
              bind o (λ tree p. closing tree (skip_spaces p)))
            (parse_or-quote (length (quote text)) text line column)
          ∙ ap (closing (literal text line end)) (skip_spaces-end line end 0))
    where
      closing : Node D → Parser → Step Parser ParseError (Node D)
      closing tree q =
          if is_empty q.rest
          then done tree q
          else if peek q == b'='
          then fail (codes "assignment is not supported") q
          else fail_unexpected q

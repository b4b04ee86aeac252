-- ===== src/Expression/Height/Tree.antt =====
-- src/blogin/expression.cpp: `parse_primary` up to `parse`: the fuel, and the height of the tree.
use blogin.Common.{
  ℕ, zero, suc, ◌-◌, ◌≤◌, Bool, true, false, not, ◌&&◌, ◌||◌, Option, none, some, ◌==◌,
  if◌then◌else◌, is_empty, length, drop, Bytes, codes, same_bytes, ◌≡◌, refl, arith,
}
use blogin.Common.Steps.{Step, done, Ends, Ends-bind, Ends-if, Ends-option}
use blogin.Text.{trim}
use blogin.Value.{ℤ}
use blogin.Expression.{
  Node, Shape, node, tallest_child, Measured, MeasuredShape, literal_string, member, unary_not,
  variable, name, literal_null, literal_boolean, literal_integer, literal_number,
}
use blogin.Expression.Parser.{
  ParseError, Parser, M, fail, advance, skip_spaces, peek, consume, first_token, read_name,
  is_digit, is_name_start, leaf, grown, string_from, parse_string, number_length, looks_like_map,
}
use blogin.Expression.Grammar.{
  not_tokens, or_tokens, and_tokens, comparison_tokens, additive_tokens, parse_number, parse_word,
  parse_variable, parse_call, parse_member, postfix_loop, parse_primary, parse_postfix, parse_unary,
  parse_additive, parse_comparison, parse_and, parse_or, parse_all, parse_expression,
}
use blogin.Expression.Height.{
  Behind, Left, Keeps, Fits, Keeps-less, Ends-from, Keeps-bind, skip_spaces-Behind, advance-Behind,
  Behind-trans, read_name-Behind, consume-Behind, consume_less, first_token-Behind,
  first_token_less, nested-Keeps, grown-Keeps, byte_there, advance_less,
}
use blogin.Expression.Height.Loops.{
  level-Keeps, leaf-Keeps, parse_group-Ends, parse_block-Ends, parse_map-Ends, parse_call-Ends,
  parse_member-Keeps,
}

module _ {D : Type 0} (n : ℕ) (top : M (Node D)) (keeps : Keeps n Fits top) where
  postfix_loop-Keeps :
      (fuel k : ℕ) (target : Node D)
      → k ≤ suc n
      → suc k ≤ fuel
      → Fits target
      → Keeps k Fits (postfix_loop top fuel target)
  unfolding postfix_loop Measured
  postfix_loop-Keeps zero k target b f fits p l = absurd (omega arith)
  postfix_loop-Keeps (suc fuel) k target b f fits p l =
      let dot = consume (codes ".") p in
      let q : Parser = dot.1 in
      let behind : Behind p q = consume-Behind (codes ".") p in
      let start : Parser = advance 1 q in
      let r : Parser = (read_name start).1 in
      let key = (read_name start).0 in
      let last : Parser = advance 1 r in
      let on =
        λ (s : Parser) (made : Node D) (h : Fits made) (m : suc (length s.rest) ≤ length p.rest).
          postfix_loop-Keeps fuel (length s.rest) made (omega arith) (omega arith) h in
      Ends-if (Left Fits p) dot.0 _ _
        (λ d.
          let less = consume_less (codes ".") p refl d in
          Ends-from Fits p q _ behind (
            Keeps-bind (length q.rest) Fits Fits (parse_member top target) _
              (Keeps-less n (length q.rest) Fits (parse_member top target) (omega arith)
                (parse_member-Keeps n top keeps target fits))
              (λ made h. on q made h less) q (omega arith)))
        (λ _.
          Ends-if (Left Fits p) (peek q == b'<') _ _
            (λ e.
              let less = advance_less q (byte_there b'<' q.rest refl e) in
              let inside : Behind q last =
                Behind-trans q start last (advance-Behind 1 q)
                  (Behind-trans start r last (read_name-Behind start) (advance-Behind 1 r)) in
              let shorter : suc (length last.rest) ≤ length p.rest =
                omega (arith, less, behind.0, (read_name-Behind start).0, (advance-Behind 1 r).0) in
              Ends-if (Left Fits p) (not (is_empty key) && peek r == b'>') _ _
                (λ _. Ends-from Fits p last _ (Behind-trans p q last behind inside) (
                  Keeps-bind (length last.rest) Fits Fits (grown (member key target)) _
                    (grown-Keeps (length last.rest) (member key target) fits.0)
                    (λ made h. on last made h shorter) last (omega arith)))
                (λ _. (behind, fits)))
            (λ _.
              Ends-if (Left Fits p) (peek q == b'(') _ _
                (λ e.
                  let there = byte_there b'(' q.rest refl e in
                  let less = advance_less q there in
                  Ends-from Fits p q _ behind (
                    Ends-from Fits q start _ (advance-Behind 1 q) (
                      Ends-bind (Left Fits start) (Left Fits start) (parse_call top target q) _
                        (parse_call-Ends n top keeps target q fits there (omega (arith, behind.0)))
                        (λ made s h.
                          Ends-from Fits start s _ h.0 (
                            on s made h.1 (omega (arith, less, behind.0, h.0.0)) s
                              (omega arith))))))
                (λ _. (behind, fits))))

module _ (D : Type 0) where
  -- A leaf made behind `p`.
  leaf-Ends :
      (p q : Parser) (shape : Shape D)
      → Behind p q
      → tallest_child shape ≡ 0
      → MeasuredShape shape
      → Ends (Left Fits p) (leaf shape q)
  leaf-Ends p q shape behind t m =
      Ends-from Fits p q (leaf shape q) behind
        (leaf-Keeps (length q.rest) shape t m q (omega arith))

  string_or_error :
      (p : Parser) (o : Option (Bytes × Bytes))
      → Ends (Left (Fits {D = D}) p) (elim o [
        | none ↦ fail (codes "unterminated string") (advance (length p.rest) p)
        | some (value, rest) ↦ leaf (literal_string value) (advance (length p.rest - length rest) p)
      ])
  unfolding Measured tallest_child
  string_or_error p none = tt
  string_or_error p (some (value, rest)) =
      leaf-Ends p (advance (length p.rest - length rest) p) (literal_string value)
        (advance-Behind (length p.rest - length rest) p) refl tt

  parse_string-Ends : (quote : ℕ) (p : Parser) → Ends (Left (Fits {D = D}) p) (parse_string quote p)
  unfolding parse_string
  parse_string-Ends quote p = string_or_error p (string_from quote (drop 1 p.rest))

  -- Neither kind of number has children.
  number_shape :
      (floating : Bool) (x : D) (n : ℤ)
      → let shape = if floating then literal_number x else literal_integer n in
        (tallest_child shape ≡ 0) × MeasuredShape shape
  unfolding Measured tallest_child
  number_shape true x n = (refl, tt)
  number_shape false x n = (refl, tt)

  parse_number-Ends :
      (to_double : Bytes → Option D) (zero_double : D) (p : Parser)
      → Ends (Left Fits p) (parse_number to_double zero_double p)
  unfolding parse_number
  parse_number-Ends to_double zero_double p =
      let (count, floating) = number_length p.rest in
      let plain = number_shape floating _ _ in
      leaf-Ends p (advance count p) _ (advance-Behind count p) plain.0 plain.1

  parse_word-Ends : (p : Parser) → Ends (Left (Fits {D = D}) p) (parse_word p)
  unfolding parse_word Measured tallest_child
  parse_word-Ends p =
      let q : Parser = (read_name p).1 in
      let word = (read_name p).0 in
      let behind : Behind p q = read_name-Behind p in
      let spelt = λ (text : Bytes). same_bytes word text in
      let truth = spelt (codes "true") || spelt (codes "True") in
      let is_boolean =
        spelt (codes "true")
        || (spelt (codes "false") || (spelt (codes "True") || spelt (codes "False"))) in
      let named : Step Parser ParseError (Node D) = done (node (name word) 1 p.line p.column) q in
      let once : Fits {D = D} (node (name word) 1 p.line p.column) = ((refl, tt), omega arith) in
      let is_null = spelt (codes "null") || spelt (codes "Nil") in
      Ends-if (Left (Fits {D = D}) p) is_boolean (leaf (literal_boolean truth) q)
        (if is_null then leaf literal_null q else named)
        (λ _. leaf-Ends p q (literal_boolean truth) behind refl tt)
        (λ _.
          Ends-if (Left (Fits {D = D}) p) is_null (leaf literal_null q) named
            (λ _. leaf-Ends p q literal_null behind refl tt) (λ _. (behind, once)))

  parse_variable-Ends : (p : Parser) → Ends (Left (Fits {D = D}) p) (parse_variable p)
  unfolding parse_variable Measured tallest_child
  parse_variable-Ends p =
      let start : Parser = advance 1 p in
      let q : Parser = (read_name start).1 in
      Ends-if (Left Fits p) (is_empty (read_name start).0) _ _ (λ _. tt)
        (λ _.
          leaf-Ends p q (variable (read_name start).0)
            (Behind-trans p start q (advance-Behind 1 p) (read_name-Behind start)) refl tt)

module _ {D : Type 0} (n : ℕ) (top : M (Node D)) (keeps : Keeps n Fits top)
    (to_double : Bytes → Option D) (zero_double : D) where
  parse_primary-Keeps : Keeps (suc n) Fits (parse_primary top to_double zero_double)
  unfolding parse_primary
  parse_primary-Keeps p l =
      let q : Parser = skip_spaces p in
      let short : length q.rest ≤ suc n = omega (arith, (skip_spaces-Behind p).0) in
      Ends-from Fits p q _ (skip_spaces-Behind p) (
        Ends-if (Left Fits q) (is_empty q.rest) _ _ (λ _. tt)
          (λ there.
            Ends-if (Left Fits q) (peek q == b'(') _ _
              (λ _. parse_group-Ends n top keeps q there short)
              (λ _.
                Ends-if (Left Fits q) (peek q == b'{') _ _
                  (λ _.
                    Ends-if (Left Fits q) (looks_like_map (drop 1 q.rest)) _ _
                      (λ _. parse_map-Ends n top keeps q there short)
                      (λ _. parse_block-Ends n top keeps q there short))
                  (λ _.
                    Ends-if (Left Fits q) (peek q == b'"' || peek q == b'\'') _ _
                      (λ _. parse_string-Ends D (peek q) q)
                      (λ _.
                        Ends-if (Left Fits q) (is_digit (peek q)) _ _
                          (λ _. parse_number-Ends D to_double zero_double q)
                          (λ _.
                            Ends-if (Left Fits q) (peek q == b'$') _ _
                              (λ _. parse_variable-Ends D q)
                              (λ _.
                                Ends-if (Left Fits q) (is_name_start (peek q)) _ _
                                  (λ _. parse_word-Ends D q)
                                  (λ _.
                                    Ends-if (Left Fits q) (peek q == b'=') _ _ (λ _. tt)
                                      (λ _. tt)))))))))

  parse_postfix-Keeps : Keeps (suc n) Fits (parse_postfix top to_double zero_double)
  unfolding parse_postfix
  parse_postfix-Keeps = Keeps-bind (suc n) Fits Fits _ _ parse_primary-Keeps (λ target h p l.
      postfix_loop-Keeps n top keeps (suc (length p.rest)) (length p.rest) target l (omega arith) h
        p (omega arith))

module _ {D : Type 0} (n : ℕ) (top : M (Node D)) (to_double : Bytes → Option D)
    (zero_double : D) where
  -- Without text there is no value.
  parse_primary-fails : Keeps 0 (λ tree. ⊥) (parse_primary top to_double zero_double)
  unfolding parse_primary
  parse_primary-fails p l =
      let q : Parser = skip_spaces p in
      Ends-if (Left (λ tree. ⊥) p) (is_empty q.rest) _ _ (λ _. tt)
        (λ there. absurd (omega (arith, advance_less q there, (skip_spaces-Behind p).0)))

  parse_postfix-fails : Keeps 0 Fits (parse_postfix top to_double zero_double)
  unfolding parse_postfix
  parse_postfix-fails = Keeps-bind 0 (λ tree. ⊥) Fits _ _ parse_primary-fails (λ target h. absurd h)

  module _ (postfix : Keeps n Fits (parse_postfix top to_double zero_double)) where
    parse_unary-Keeps :
        (fuel k : ℕ)
        → k ≤ n
        → suc k ≤ fuel
        → Keeps k Fits (parse_unary top to_double zero_double fuel)
    unfolding parse_unary Measured
    parse_unary-Keeps zero k b f p l = absurd (omega arith)
    parse_unary-Keeps (suc fuel) k b f p l =
        nested-Keeps k Fits _
          (λ p l.
            let q : Parser = (first_token not_tokens p).1 in
            let behind : Behind p q = first_token-Behind not_tokens p in
            Ends-from Fits p q _ behind (
              Ends-option (Left Fits q) (first_token not_tokens p).0 _ _
                (λ e. postfix q (omega (arith, behind.0)))
                (λ sign e.
                  Keeps-bind (length q.rest) Fits Fits (parse_unary top to_double zero_double fuel)
                    _
                    (parse_unary-Keeps fuel (length q.rest) (omega (arith, behind.0))
                      (omega (arith, first_token_less not_tokens p sign (refl, (refl, tt)) e)))
                    (λ target h. grown-Keeps (length q.rest) (unary_not target) h.0) q
                    (omega arith))))
          p l

    parse_and-Keeps : Keeps n Fits (parse_and to_double zero_double top)
    unfolding parse_and parse_comparison parse_additive
    parse_and-Keeps =
        level-Keeps n _ and_tokens (refl, (refl, tt))
          (level-Keeps n _ comparison_tokens
            (refl, (refl, (refl, (refl, (refl, (refl, (refl, (refl, tt))))))))
            (level-Keeps n _ additive_tokens (refl, (refl, (refl, tt)))
              (λ p l.
                parse_unary-Keeps (suc (length p.rest)) (length p.rest) l (omega arith) p
                  (omega arith))))

module _ {D : Type 0} (to_double : Bytes → Option D) (zero_double : D) where
  parse_or-Keeps : (fuel n : ℕ) → suc n ≤ fuel → Keeps n Fits (parse_or to_double zero_double fuel)
  unfolding parse_or
  parse_or-Keeps zero n f p l = absurd (omega arith)
  parse_or-Keeps (suc fuel) zero f p l =
      let top = parse_or to_double zero_double fuel in
      nested-Keeps zero Fits _
        (level-Keeps zero _ or_tokens (refl, (refl, tt))
          (parse_and-Keeps zero top to_double zero_double
            (parse_postfix-fails zero top to_double zero_double)))
        p l
  parse_or-Keeps (suc fuel) (suc n) f p l =
      let top = parse_or to_double zero_double fuel in
      let inner = parse_or-Keeps fuel n (omega arith) in
      nested-Keeps (suc n) Fits _
        (level-Keeps (suc n) _ or_tokens (refl, (refl, tt))
          (parse_and-Keeps (suc n) top to_double zero_double
            (parse_postfix-Keeps n top inner to_double zero_double)))
        p l

  -- `parse` of any source gives a tree or an error, and the fuel given is enough; every node of the
  -- tree stores its height, the number of levels below and with it, and no tree is higher than 64.
  pub parse_expression-Fits :
      (source : Bytes) (line column : ℕ)
      → Ends (λ tree p. Fits tree) (parse_expression to_double zero_double source line column)
  unfolding parse_expression parse_all
  parse_expression-Fits source line column =
      let start : Parser = record { rest = trim source; line = line; column = column; depth = 0 } in
      Ends-bind (Left Fits start) (λ tree p. Fits tree)
        (parse_or to_double zero_double (suc (length start.rest)) start) _
        (parse_or-Keeps (suc (length start.rest)) (length start.rest) (omega arith) start
          (omega arith))
        (λ tree p h.
          Ends-if (λ t q. Fits t) (is_empty (skip_spaces p).rest) _ _ (λ _. h.1)
            (λ _. Ends-if (λ t q. Fits t) (peek (skip_spaces p) == b'=') _ _ (λ _. tt) (λ _. tt)))

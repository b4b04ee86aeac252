-- ===== src/Expression/Height/Loops.antt =====
-- src/blogin/expression.cpp: the methods of `Parser` one by one, and `parse`: each fails or leaves
-- less text, with a tree within the bound.
use blogin.Common.{
  ℕ, zero, suc, ◌+◌, ◌≤◌, false, ◌||◌, List, ◌++◌, ◌==◌, is_empty, length, All, Bytes, codes,
  find_byte, ◌≡◌, refl, arith,
}
use blogin.Common.Steps.{◌>>=◌, Ends, Ends-bind, Ends-if, Ends-option}
use blogin.Expression.{
  Node, Shape, Nodes, BinaryOperator, node, no_nodes, push_node, tallest_of, tallest_child,
  Measured, MeasuredShape, literal_string, named_argument, block, map_of, member, call, binary,
}
use blogin.Expression.Parser.{
  Parser, M, advance, skip_spaces, peek, consume, first_token, read_name, leaf, grown,
}
use blogin.Expression.Grammar.{
  closed_by, parse_group, parse_block, map_entry, map_loop, parse_map, parse_named, parse_argument,
  arguments_loop, parse_arguments, parse_call, parse_member, chain, level,
}
use blogin.Expression.Height.{
  Behind, Left, Keeps, Fits, FitAll, Keeps-less, Ends-from, Keeps-bind, skip_spaces-Behind,
  advance-Behind, Behind-trans, read_name-Behind, consume-Behind, consume_less, first_token-Behind,
  first_token_less, closed_by-Keeps, grown_at-Keeps, grown-Keeps, push_node-FitAll, byte_there,
  advance_less, Keeps-past,
}

abbrev pub NoEmpty : {A : Type 0} → List (Bytes × A) → Type 0
NoEmpty = All (λ t. is_empty t.0 ≡ false)

module _ {D : Type 0} where
  operand-Keeps :
      (n : ℕ) (operand : M (Node D)) (op : BinaryOperator) (left : Node D)
      (again : Node D → M (Node D))
      → Keeps n Fits operand
      → Fits left
      → ((made : Node D) → Fits made → Keeps n Fits (again made))
      → Keeps n Fits (operand >>= λ right. grown (binary op left right) >>= again)
  unfolding Measured
  operand-Keeps n operand op left again keeps fits next =
      Keeps-bind n Fits Fits operand _ keeps (λ right h.
        Keeps-bind n Fits Fits (grown (binary op left right)) again
          (grown-Keeps n (binary op left right) (fits.0, h.0)) next)

  chain-Keeps :
      (fuel n : ℕ) (operand : M (Node D)) (tokens : List (Bytes × BinaryOperator)) (left : Node D)
      → NoEmpty tokens
      → Keeps n Fits operand
      → suc n ≤ fuel
      → Fits left
      → Keeps n Fits (chain fuel operand tokens left)
  unfolding chain
  chain-Keeps zero n operand tokens left t keeps f fits p l = absurd (omega arith)
  chain-Keeps (suc fuel) n operand tokens left t keeps f fits p l =
      let q : Parser = (first_token tokens p).1 in
      Ends-option (Left Fits p) (first_token tokens p).0 _ _
        (λ e. (first_token-Behind tokens p, fits))
        (λ op e.
          let less = first_token_less tokens p op t e in
          let fewer = Keeps-less n (length q.rest) Fits operand (omega arith) keeps in
          Ends-from Fits p q _ (first_token-Behind tokens p) (
            operand-Keeps (length q.rest) operand op left (chain fuel operand tokens) fewer fits
              (λ made k.
                chain-Keeps fuel (length q.rest) operand tokens made t fewer (omega arith) k)
              q (omega arith)))

  pub level-Keeps :
      (n : ℕ) (operand : M (Node D)) (tokens : List (Bytes × BinaryOperator))
      → NoEmpty tokens
      → Keeps n Fits operand
      → Keeps n Fits (level operand tokens)
  unfolding level
  level-Keeps n operand tokens t keeps = Keeps-bind n Fits Fits operand _ keeps (λ left h p l.
      chain-Keeps (suc (length p.rest)) (length p.rest) operand tokens left t
        (Keeps-less n (length p.rest) Fits operand l keeps) (omega arith) h p (omega arith))

  pub leaf-Keeps :
      (n : ℕ) (shape : Shape D)
      → tallest_child shape ≡ 0
      → MeasuredShape shape
      → Keeps n Fits (leaf shape)
  unfolding Measured
  leaf-Keeps n shape t h p l = ((omega arith, refl), ((omega arith, h), omega arith))

module _ {D : Type 0} (n : ℕ) (top : M (Node D)) (keeps : Keeps n Fits top) where
  pub parse_group-Ends :
      (p : Parser)
      → is_empty p.rest ≡ false
      → length p.rest ≤ suc n
      → Ends (Left Fits p) (parse_group top p)
  unfolding parse_group
  parse_group-Ends p h l =
      Keeps-past n Fits (top >>= closed_by (codes ")") (codes "expected ')'")) p
        (Keeps-bind n Fits Fits top _ keeps (λ inner k. closed_by-Keeps n Fits _ _ inner k)) h l

  pub parse_block-Ends :
      (p : Parser)
      → is_empty p.rest ≡ false
      → length p.rest ≤ suc n
      → Ends (Left Fits p) (parse_block top p)
  unfolding parse_block Measured
  parse_block-Ends p h l =
      Keeps-past n Fits
        (top >>= λ inner.
          closed_by (codes "}") (codes "expected '}' to close a block") inner >>= λ target.
          grown (block target))
        p
        (Keeps-bind n Fits Fits top _ keeps (λ inner k.
          Keeps-bind n Fits Fits
            (closed_by (codes "}") (codes "expected '}' to close a block") inner) _
            (closed_by-Keeps n Fits _ _ inner k) (λ target k₂. grown-Keeps n (block target) k₂.0)))
        h l

  map_entry-Keeps : (k : ℕ) (key : Bytes) → k ≤ n → Keeps k Fits (map_entry top key)
  unfolding map_entry Measured
  map_entry-Keeps k key b p l = Ends-from Fits p (skip_spaces p) _ (skip_spaces-Behind p) (
      Keeps-bind k (λ u. Unit {0}) Fits
        (closed_by (codes ":") (codes "expected ':' after the map key '" ++ (key ++ codes "'")) tt)
        _ (closed_by-Keeps k (λ u. Unit {0}) _ _ tt tt)
        (λ u h.
          Keeps-bind k Fits Fits top _ (Keeps-less n k Fits top b keeps)
            (λ value h₂. grown-Keeps k (named_argument key value) h₂.0))
        (skip_spaces p) (omega (arith, (skip_spaces-Behind p).0)))

  map_loop-Keeps :
      (fuel k : ℕ) (entries : Nodes D)
      → k ≤ n
      → suc k ≤ fuel
      → FitAll entries
      → Keeps k FitAll (map_loop top fuel entries)
  unfolding map_loop
  map_loop-Keeps zero k entries b f fits p l = absurd (omega arith)
  map_loop-Keeps (suc fuel) k entries b f fits p l =
      let q : Parser = (read_name p).1 in
      let key = (read_name p).0 in
      Ends-if (Left FitAll p) (is_empty p.rest || peek p == b'}') _ _
        (λ _. ((omega arith, refl), fits))
        (λ _.
          Ends-if (Left FitAll p) (is_empty key) _ _ (λ _. tt)
            (λ _. Ends-from FitAll p q _ (read_name-Behind p) (
              Keeps-bind k Fits FitAll (map_entry top key) _ (map_entry-Keeps k key b)
                (λ entry h r m.
                  let s : Parser = skip_spaces r in
                  let comma = consume (codes ",") s in
                  let behind : Behind r comma.1 =
                    Behind-trans r s comma.1 (skip_spaces-Behind r)
                      (consume-Behind (codes ",") s) in
                  let grows = push_node-FitAll entries entry fits h in
                  Ends-if (Left FitAll r) comma.0 _ _
                    (λ c.
                      Ends-from FitAll r (skip_spaces comma.1) _
                        (Behind-trans r comma.1 (skip_spaces comma.1) behind
                          (skip_spaces-Behind comma.1))
                        (map_loop-Keeps fuel (length (skip_spaces comma.1).rest)
                          (push_node entries entry)
                          (omega (arith, behind.0, (skip_spaces-Behind comma.1).0))
                          (omega (
                            arith,
                            consume_less (codes ",") s refl c,
                            (skip_spaces-Behind r).0,
                            (skip_spaces-Behind comma.1).0,
                          ))
                          grows (skip_spaces comma.1) (omega arith)))
                    (λ _. (behind, grows)))
                q (omega (arith, (read_name-Behind p).0)))))

  pub parse_map-Ends :
      (p : Parser)
      → is_empty p.rest ≡ false
      → length p.rest ≤ suc n
      → Ends (Left Fits p) (parse_map top p)
  unfolding parse_map Measured tallest_of
  parse_map-Ends p h l =
      let inner : Parser = skip_spaces (advance 1 p) in
      let behind : Behind p inner =
        Behind-trans p (advance 1 p) inner (advance-Behind 1 p)
          (skip_spaces-Behind (advance 1 p)) in
      let short : length inner.rest ≤ n =
        omega (arith, advance_less p h, (skip_spaces-Behind (advance 1 p)).0) in
      Ends-from Fits p inner _ behind (
        Keeps-bind (length inner.rest) FitAll Fits _ _
          (Keeps-bind (length inner.rest) FitAll FitAll
            (map_loop top (suc (length inner.rest)) no_nodes) _
            (map_loop-Keeps (suc (length inner.rest)) (length inner.rest) no_nodes short
              (omega arith) (tt, omega arith))
            (λ entries k. closed_by-Keeps (length inner.rest) FitAll _ _ entries k))
          (λ entries k. grown_at-Keeps (length inner.rest) p.column (map_of entries) k.0) inner
          (omega arith))

  -- The two nodes of a named argument that is a text.
  named_text-Fits :
      (word text : Bytes) (line column : ℕ)
      → Fits {D = D}
          (node (named_argument word (node (literal_string text) 1 line column)) 2 line column)
  unfolding Measured tallest_child
  named_text-Fits word text line column = ((refl, (refl, tt)), omega arith)

  parse_named-Keeps : (k : ℕ) → k ≤ n → Keeps k Fits (parse_named top)
  unfolding parse_named Measured
  parse_named-Keeps k b p l =
      let q : Parser = (read_name p).1 in
      let word = (read_name p).0 in
      Ends-if (Left Fits p) (is_empty word) _ _ (λ _. tt)
        (λ _. Ends-from Fits p q _ (read_name-Behind p) (
          Ends-if (Left Fits q) (peek q == b'<') _ _
            (λ _.
              Ends-option (Left Fits q) (find_byte q.rest b'>' 0) _ _ (λ _. tt)
                (λ closing _.
                  (advance-Behind (closing + 1) q, named_text-Fits word _ q.line q.column)))
            (λ _.
              Ends-if (Left Fits q) (peek q == b'(') _ _
                (λ e.
                  Keeps-past k Fits _ q
                    (Keeps-bind k Fits Fits _ _
                      (Keeps-bind k Fits Fits top _ (Keeps-less n k Fits top b keeps)
                        (λ value h. closed_by-Keeps k Fits _ _ value h))
                      (λ value h. grown_at-Keeps k q.column (named_argument word value) h.0))
                    (byte_there b'(' q.rest refl e) (omega (arith, (read_name-Behind p).0)))
                (λ _. ((omega arith, refl), named_text-Fits word word q.line q.column)))))

  parse_argument-Keeps : (k : ℕ) → k ≤ n → Keeps k Fits (parse_argument top)
  unfolding parse_argument
  parse_argument-Keeps k b p l =
      let q : Parser = skip_spaces p in
      Ends-from Fits p q _ (skip_spaces-Behind p) (
        Ends-if (Left Fits q) (peek q == b':') _ _
          (λ e. Ends-from Fits q (advance 1 q) _ (advance-Behind 1 q) (
            parse_named-Keeps k b (advance 1 q)
              (omega (arith, (advance-Behind 1 q).0, (skip_spaces-Behind p).0))))
          (λ _. keeps q (omega (arith, (skip_spaces-Behind p).0))))

  arguments_loop-Keeps :
      (fuel k : ℕ) (arguments : Nodes D)
      → k ≤ n
      → suc k ≤ fuel
      → FitAll arguments
      → Keeps k FitAll (arguments_loop top fuel arguments)
  unfolding arguments_loop
  arguments_loop-Keeps zero k arguments b f fits p l = absurd (omega arith)
  arguments_loop-Keeps (suc fuel) k arguments b f fits p l =
      Keeps-bind k Fits FitAll (parse_argument top) _ (parse_argument-Keeps k b)
        (λ argument h q m.
          let s : Parser = skip_spaces q in
          let comma = consume (codes ",") s in
          let behind : Behind q comma.1 =
            Behind-trans q s comma.1 (skip_spaces-Behind q) (consume-Behind (codes ",") s) in
          let grows = push_node-FitAll arguments argument fits h in
          Ends-if (Left FitAll q) comma.0 _ _
            (λ c. Ends-from FitAll q comma.1 _ behind (
              arguments_loop-Keeps fuel (length comma.1.rest) (push_node arguments argument)
                (omega (arith, behind.0))
                (omega (arith, consume_less (codes ",") s refl c, (skip_spaces-Behind q).0)) grows
                comma.1 (omega arith)))
            (λ _. Ends-from FitAll q comma.1 _ behind (
              closed_by-Keeps k FitAll _ _ (push_node arguments argument) grows comma.1
                (omega (arith, behind.0)))))
        p l

  pub parse_call-Ends :
      (target : Node D) (p : Parser)
      → Fits target
      → is_empty p.rest ≡ false
      → length p.rest ≤ suc n
      → Ends (Left Fits (advance 1 p)) (parse_call top target p)
  unfolding parse_call parse_arguments Measured tallest_of
  parse_call-Ends target p fits h l =
      let q : Parser = skip_spaces (advance 1 p) in
      let start : Parser = advance 1 p in
      let short : length q.rest ≤ n =
        omega (arith, advance_less p h, (skip_spaces-Behind (advance 1 p)).0) in
      Ends-bind (Left FitAll start) (Left Fits start) (parse_arguments top p) _
        (Ends-from FitAll start q _ (skip_spaces-Behind start) (
          Ends-if (Left FitAll q) (is_empty q.rest) _ _ (λ _. tt)
            (λ _.
              Ends-if (Left FitAll q) (peek q == b')') _ _
                (λ _. (advance-Behind 1 q, (tt, omega arith)))
                (λ _.
                  arguments_loop-Keeps (suc (length q.rest)) (length q.rest) no_nodes short
                    (omega arith) (tt, omega arith) q (omega arith)))))
        (λ arguments s k.
          Ends-from Fits start s _ k.0
            (grown-Keeps (length s.rest) (call target arguments) (fits.0, k.1.0) s (omega arith)))

  pub parse_member-Keeps : (target : Node D) → Fits target → Keeps n Fits (parse_member top target)
  unfolding parse_member Measured
  parse_member-Keeps target fits p l =
      let q : Parser = (read_name p).1 in
      let word = (read_name p).0 in
      Ends-if (Left Fits p) (is_empty word) _ _ (λ _. tt)
        (λ _. Ends-from Fits p q _ (read_name-Behind p) (
          Keeps-bind n Fits Fits (grown (member word target)) _
            (grown-Keeps n (member word target) fits.0)
            (λ read h r m.
              Ends-if (Left Fits r) (peek r == b'(') _ _
                (λ e.
                  Ends-from Fits r (advance 1 r) _ (advance-Behind 1 r)
                    (parse_call-Ends read r h (byte_there b'(' r.rest refl e) (omega arith)))
                (λ _. ((omega arith, refl), h)))
            q (omega (arith, (read_name-Behind p).0))))

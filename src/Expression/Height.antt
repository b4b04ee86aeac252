-- ===== src/Expression/Height.antt =====
-- src/blogin/expression.cpp: what the methods of `Parser` leave of the text, and the trees they build.
pub mod Loops
pub mod Tree
use blogin.Common.{
  ℕ, zero, suc, ◌+◌, ◌-◌, ◌≤◌, max, Bool, true, false, not, ◌&&◌, ◌||◌, Option, none, some, List,
  [], ◌∷◌, ◌++◌, ◌==◌, ltb, if◌then◌else◌, is_empty, length, take, drop, All, Bytes, codes, byte_at,
  starts_with, find_byte, ◌≡◌, refl, ap, sym, ◌∙◌, arith, length-drop, Bool-cases, Option-cases,
  inl, inr,
}
use blogin.Common.Steps.{
  Step, done, failed, stuck, bind, ◌>>=◌, leaving, Ends, Ends-bind, Ends-if, Ends-leaving,
}
use blogin.Expression.{
  Node, Shape, Nodes, node, no_nodes, more_nodes, height_of, push_node, tallest_of, tallest_child,
  Measured, MeasuredShape, MeasuredAll,
}
use blogin.Expression.Parser.{
  ParseError, Parser, M, fail, fail_too_deep, max_depth, advance, skip_spaces, peek, consume,
  first_token, read_name, run_length, leaf, grown_at, grown, nested,
}
use blogin.Expression.Grammar.{closed_by}

-- No more text is left than there was, at the same depth.
abbrev pub Behind : Parser → Parser → Type 0
Behind p q = (length q.rest ≤ length p.rest) × (q.depth ≡ p.depth)

abbrev pub Left : {A : Type 0} → (A → Type 0) → Parser → A → Parser → Type 0
Left P p a q = Behind p q × P a

-- From every state with at most `n` bytes left the method fails or gives a result in `P`.
abbrev pub Keeps : {A : Type 0} → ℕ → (A → Type 0) → M A → Type 0
Keeps n P m = (p : Parser) → length p.rest ≤ n → Ends (Left P p) (m p)

-- The stored heights are right and within the bound.
abbrev pub Fits : {D : Type 0} → Node D → Type 0
Fits tree = Measured tree × (height_of tree ≤ max_depth)

abbrev pub FitAll : {D : Type 0} → Nodes D → Type 0
FitAll trees = MeasuredAll trees × (tallest_of trees ≤ max_depth)

pub Keeps-less :
    {A : Type 0} (n k : ℕ) (P : A → Type 0) (m : M A) → k ≤ n → Keeps n P m → Keeps k P m
Keeps-less n k P m h keeps p l = keeps p (omega arith)

-- A result behind `q` is a result behind `p`.
pub Ends-from :
    {A : Type 0} (P : A → Type 0) (p q : Parser) (o : Step Parser ParseError A)
    → Behind p q
    → Ends (Left P q) o
    → Ends (Left P p) o
Ends-from P p q (done a s) (l, d) ((l₂, d₂), h) = ((omega arith, d₂ ∙ d), h)
Ends-from P p q (failed e) b h = tt
Ends-from P p q stuck b h = h

pub Keeps-bind :
    {A B : Type 0} (n : ℕ) (P : A → Type 0) (Q : B → Type 0) (m : M A) (f : A → M B)
    → Keeps n P m
    → ((a : A) → P a → Keeps n Q (f a))
    → Keeps n Q (m >>= f)
Keeps-bind n P Q m f keeps next p l =
    Ends-bind (Left P p) (Left Q p) (m p) f (keeps p l)
      (λ a s h. Ends-from Q p s (f a s) h.0 (next a h.1 s (omega (arith, h.0.0))))

pub skip_spaces-Behind : (p : Parser) → Behind p (skip_spaces p)
unfolding skip_spaces
skip_spaces-Behind p =
    (omega (arith, length-drop (run_length (λ c. c == b' ' || c == b'\t') p.rest) p.rest), refl)

pub advance-Behind : (n : ℕ) (p : Parser) → Behind p (advance n p)
advance-Behind n p = (omega (arith, length-drop n p.rest), refl)

pub Behind-trans : (p q r : Parser) → Behind p q → Behind q r → Behind p r
Behind-trans p q r (l, d) (l₂, d₂) = (omega arith, d₂ ∙ d)

pub read_name-Behind : (p : Parser) → Behind p (read_name p).1
unfolding read_name
read_name-Behind p = advance-Behind _ p

pub consume-Behind : (token : Bytes) (p : Parser) → Behind p (consume token p).1
unfolding consume
consume-Behind token p =
    Behind-trans p (skip_spaces p) (consume token p).1 (skip_spaces-Behind p)
      (ground (arith, length-drop (length token) (skip_spaces p).rest))

some_byte :
    (token text : Bytes)
    → is_empty token ≡ false
    → starts_with text token ≡ true
    → suc (length (drop (length token) text)) ≤ length text
unfolding starts_with
some_byte [] text n h = absurd (ground arith)
some_byte (c ∷ cs) [] n h = absurd (ground arith)
some_byte (c ∷ cs) (d ∷ ds) n h = omega (arith, length-drop (length cs) ds)

pub consume_less :
    (token : Bytes) (p : Parser)
    → is_empty token ≡ false
    → (consume token p).0 ≡ true
    → suc (length (consume token p).1.rest) ≤ length p.rest
unfolding consume
consume_less token p n h = elim (Bool-cases (starts_with (skip_spaces p).rest token)) [
  | inl s ↦ ground (arith, some_byte token (skip_spaces p).rest n s, (skip_spaces-Behind p).0)
  | inr s ↦ absurd (ground arith)
]

pub first_token-Behind :
    {A : Type 0} (tokens : List (Bytes × A)) (p : Parser) → Behind p (first_token tokens p).1
unfolding first_token
first_token-Behind [] p = (omega arith, refl)
first_token-Behind ((token, a) ∷ tokens) p = elim (Bool-cases (consume token p).0) [
  | inl h ↦ rw h (consume-Behind token p)
  | inr h ↦ rw h (
      Behind-trans p (consume token p).1 (first_token tokens (consume token p).1).1
        (consume-Behind token p) (first_token-Behind tokens (consume token p).1))
]

pub first_token_less :
    {A : Type 0} (tokens : List (Bytes × A)) (p : Parser) (a : A)
    → All (λ t. is_empty t.0 ≡ false) tokens
    → (first_token tokens p).0 ≡ some a
    → suc (length (first_token tokens p).1.rest) ≤ length p.rest
unfolding first_token
first_token_less [] p a n h = absurd (ground arith)
first_token_less ((token, b) ∷ tokens) p a (n, ns) h = elim (Bool-cases (consume token p).0) [
  | inl e ↦ rw e (consume_less token p n e)
  | inr e ↦
      rw e (
        ground
          (arith, first_token_less tokens (consume token p).1 a ns, (consume-Behind token p).0))
]

pub closed_by-Keeps :
    {A : Type 0} (n : ℕ) (P : A → Type 0) (token message : Bytes) (a : A)
    → P a
    → Keeps n P (closed_by token message a)
unfolding closed_by
closed_by-Keeps n P token message a h p l =
    Ends-if (Left P p) (consume token p).0 _ _ (λ _. (consume-Behind token p, h)) (λ _. tt)

pub nested-Keeps :
    {A : Type 0} (n : ℕ) (P : A → Type 0) (m : M A) → Keeps n P m → Keeps n P (nested m)
unfolding nested
nested-Keeps n P m keeps p l =
    let deeper : Parser = record p { depth = p.depth + 1 } in
    Ends-if (Left P p) (ltb max_depth deeper.depth) _ _ (λ _. tt)
      (λ _.
        Ends-leaving (Left P deeper) (Left P p) _ (m deeper) (keeps deeper l)
          (λ a s h. ((h.0.0, omega (arith, h.0.1)), h.1)))

module _ {D : Type 0} where
  -- `too_tall` lets nothing past the bound.
  pub grown_at-Keeps :
      (n column : ℕ) (shape : Shape D) → MeasuredShape shape → Keeps n Fits (grown_at column shape)
  unfolding grown_at Measured
  grown_at-Keeps n column shape h p l =
      Ends-if (Left Fits p) (ltb max_depth (tallest_child shape + 1)) _ _ (λ _. tt)
        (λ e. ((omega arith, refl), ((omega arith, h), ground arith)))

  pub grown-Keeps : (n : ℕ) (shape : Shape D) → MeasuredShape shape → Keeps n Fits (grown shape)
  grown-Keeps n shape h p l = grown_at-Keeps n p.column shape h p l

  pub push_node-FitAll :
      (trees : Nodes D) (tree : Node D) → FitAll trees → Fits tree → FitAll (push_node trees tree)
  unfolding push_node tallest_of Measured
  push_node-FitAll no_nodes tree (m, t) (h, b) = ((h, tt), ground arith)
  push_node-FitAll (more_nodes first rest) tree ((m, ms), t) fits =
      let later = push_node-FitAll rest tree (ms, ground arith) fits in
      ((m, later.0), ground (arith, later.1))

-- A first byte that is not NUL is there.
pub byte_there :
    (c : ℕ) (text : Bytes) → (0 == c) ≡ false → (byte_at text 0 == c) ≡ true → is_empty text ≡ false
byte_there c [] n h = absurd (ground arith)
byte_there c (d ∷ ds) n h = refl

pub advance_less :
    (p : Parser) → is_empty p.rest ≡ false → suc (length (advance 1 p).rest) ≤ length p.rest
advance_less p h = less p.rest h
  where
    less : (text : Bytes) → is_empty text ≡ false → suc (length (drop 1 text)) ≤ length text
    less [] e = absurd (ground arith)
    less (c ∷ cs) e = omega arith

-- A method behind a byte that is there.
pub Keeps-past :
    {A : Type 0} (n : ℕ) (P : A → Type 0) (m : M A) (p : Parser)
    → Keeps n P m
    → is_empty p.rest ≡ false
    → length p.rest ≤ suc n
    → Ends (Left P p) (m (advance 1 p))
Keeps-past n P m p keeps h l =
    Ends-from P p (advance 1 p) _ (advance-Behind 1 p)
      (keeps (advance 1 p) (omega (arith, advance_less p h)))

-- ===== src/Yaml/Parser/Ends.antt =====
-- src/blogin/yaml.cpp: the fuel of `parse_yaml`, and what each method leaves of the lines.
use blogin.Common.{
  ℕ, zero, suc, ◌+◌, ◌-◌, ◌*◌, ◌≤◌, Bool, true, false, not, ◌&&◌, Option, none, some, List, [], ◌∷◌,
  ltb, if◌then◌else◌, is_empty, length, drop, Bytes, codes, starts_with, ◌≡◌, refl, ap, sym, subst,
  arith,
}
use blogin.Text.{trim}
use blogin.Value.{Value, array, object, nil, end, push, set, members}
use blogin.Yaml.Lines.{Line, significant_lines, mapping_colon}
use blogin.Yaml.Scalars.{Result, ok, err, parse_scalar}
use blogin.Json.Parser.Values as Json
use blogin.Yaml.Depth.Nesting.{nesting, container_depth-nesting}
use blogin.Yaml.Depth.{container_depth}
use blogin.Yaml.Parser.{
  State, Step, done, failed, stuck, M, bind, ◌>>=◌, lift, deeper, next_indent, dash_next,
  same_indent, is_item, max_depth, set_all, key_and_rest, mapping_value, mapping_round, item_value,
  sequence_round, inline_round, more_round, block_inner, block_round, parse_block, parse_mapping,
  parse_sequence, parse_inline_mapping, more_keys, parse_lines, parse_yaml,
}

-- The outcome is a result that satisfies `P`, or an error; fuel did not run out.
abbrev pub Ends : {A : Type 0} → (A → State → Type 0) → Step A → Type 0
Ends P (done a s) = P a s
Ends P (failed e) = Unit {0}
Ends P stuck = ⊥

-- At most so many lines are left, and the depth is `d`.
abbrev pub Left : {A : Type 0} → ℕ → ℕ → A → State → Type 0
Left n d a s = (length s.rest ≤ n) × (s.depth ≡ d)

Ends-bind :
    {A B : Type 0} (P : A → State → Type 0) (Q : B → State → Type 0) (o : Step A) (f : A → M B)
    → Ends P o
    → ((a : A) (s : State) → P a s → Ends Q (f a s))
    → Ends Q (bind o f)
Ends-bind P Q (done a s) f h k = k a s h
Ends-bind P Q (failed e) f h k = tt
Ends-bind P Q stuck f h k = h

Ends-if :
    {A : Type 0} (P : A → State → Type 0) (b : Bool) (x y : Step A)
    → (b ≡ true → Ends P x)
    → (b ≡ false → Ends P y)
    → Ends P (if b then x else y)
Ends-if P true x y h k = h refl
Ends-if P false x y h k = k refl

lift-Ends :
    {A : Type 0} (r : Result A) (n d : ℕ) (s : State)
    → length s.rest ≤ n
    → s.depth ≡ d
    → Ends (Left n d) (lift r s)
lift-Ends (ok a) n d s h e = (h, e)
lift-Ends (err e) n d s h f = tt

module _ {D : Type 0} (n d : ℕ) where
  -- From every state with at most `n` lines the method leaves no more than it finds.
  abbrev Keeps : M (Value D) → Type 0
  Keeps m = (s : State) → length s.rest ≤ n → s.depth ≡ d → Ends (Left n d) (m s)

module _ {D : Type 0} (to_double : Bytes → Option D) (n d : ℕ) where
  mapping_value-Ends :
      (block sequence : ℕ → M (Value D)) (line : Line) (rest : Bytes)
      → ((i : ℕ) → Keeps n d (block i))
      → ((i : ℕ) → Keeps n d (sequence i))
      → Keeps n d (mapping_value to_double block sequence line rest)
  unfolding mapping_value
  mapping_value-Ends block sequence line rest b q s h e =
      Ends-if (Left n d) (not (is_empty rest)) _ _
        (λ _. lift-Ends (parse_scalar to_double rest line.number) n d s h e)
        (λ _.
          Ends-if (Left n d) (deeper line.indent s.rest) _ _ (λ _. b (next_indent s.rest) s h e)
            (λ _.
              Ends-if (Left n d) (same_indent line.indent s.rest && dash_next s.rest) _ _
                (λ _. q line.indent s h e) (λ _. (h, e))))

  -- A round that reads a key leaves fewer lines.
  mapping_round-read :
      (block sequence : ℕ → M (Value D)) (again : Value D → M (Value D)) (mapping : Value D)
      (s : State) (line : Line) (lines : List Line)
      → ((i : ℕ) → Keeps n d (block i))
      → ((i : ℕ) → Keeps n d (sequence i))
      → ((v : Value D) → Keeps n d (again v))
      → length lines ≤ n
      → s.depth ≡ d
      → (r : Result (Bytes × Bytes))
      → Ends (Left n d) (elim r [
        | err e ↦ failed e
        | ok (key, rest) ↦
            (mapping_value to_double block sequence line rest >>= λ item.
            again (set mapping key item))
              (record s { rest = lines })
      ])
  mapping_round-read block sequence again mapping s line lines b q a h e (err f) = tt
  mapping_round-read block sequence again mapping s line lines b q a h e (ok (key, rest)) =
      Ends-bind (Left n d) (Left n d) _ _
        (mapping_value-Ends block sequence line rest b q (record s { rest = lines }) h e)
        (λ item t k. a (set mapping key item) t k.0 k.1)

  item_value-Ends :
      (block : ℕ → M (Value D)) (inline : Bytes → ℕ → ℕ → M (Value D)) (line : Line) (rest : Bytes)
      → ((i : ℕ) → Keeps n d (block i))
      → ((first : Bytes) (i k : ℕ) → Keeps n d (inline first i k))
      → Keeps n d (item_value to_double block inline line rest)
  unfolding item_value
  item_value-Ends block inline line rest b q s h e =
      Ends-if (Left n d) (is_empty rest) _ _
        (λ _.
          Ends-if (Left n d) (deeper line.indent s.rest) _ _ (λ _. b (next_indent s.rest) s h e)
            (λ _. (h, e)))
        (λ _.
          Ends-if (Left n d) (starts_with rest (codes "- ")) _ _ (λ _. tt)
            (λ _.
              elim (mapping_colon rest)
                as (λ o. Ends (Left n d) (elim o [
                  | some colon ↦ inline rest line.indent line.number s
                  | none ↦ lift (parse_scalar to_double rest line.number) s
                ])) [
                  | some colon ↦ q rest line.indent line.number s h e
                  | none ↦ lift-Ends (parse_scalar to_double rest line.number) n d s h e
                ]))

  inline_round-Ends :
      (block : ℕ → M (Value D)) (more : ℕ → Value D → M (Value D)) (first : Bytes)
      (dash_indent number : ℕ)
      → ((i : ℕ) → Keeps n d (block i))
      → ((i : ℕ) (v : Value D) → Keeps n d (more i v))
      → Keeps n d (inline_round to_double block more first dash_indent number)
  unfolding inline_round
  inline_round-Ends block more first dash_indent number b q s h e =
      inline_read (key_and_rest to_double first number)
    where
      value :
          (rest : Bytes)
          → Ends (Left n d) (
              if not (is_empty rest)
              then lift (parse_scalar to_double rest number) s
              else if deeper dash_indent s.rest
              then block (next_indent s.rest) s
              else done Value.null s)
      value rest =
          Ends-if (Left n d) (not (is_empty rest)) _ _
            (λ _. lift-Ends (parse_scalar to_double rest number) n d s h e)
            (λ _.
              Ends-if (Left n d) (deeper dash_indent s.rest) _ _ (λ _. b (next_indent s.rest) s h e)
                (λ _. (h, e)))

      inline_read :
          (r : Result (Bytes × Bytes))
          → Ends (Left n d) (elim r [
            | err e ↦ failed e
            | ok (key, rest) ↦
                bind
                  (if not (is_empty rest)
                    then lift (parse_scalar to_double rest number) s
                    else if deeper dash_indent s.rest
                    then block (next_indent s.rest) s
                    else done Value.null s)
                  (λ item. more dash_indent (set (object end) key item))
          ])
      inline_read (err f) = tt
      inline_read (ok (key, rest)) =
          Ends-bind (Left n d) (Left n d) _ _ (value rest)
            (λ item t k. q dash_indent (set (object end) key item) t k.0 k.1)

module _ {D : Type 0} (n d m : ℕ) (le : n ≤ m) where
  Left-mono : (o : Step (Value D)) → Ends (Left n d) o → Ends (Left m d) o
  Left-mono (done v s) h = (omega arith, h.1)
  Left-mono (failed e) h = tt
  Left-mono stuck h = h

module _ {D : Type 0} (to_double : Bytes → Option D) (m d : ℕ) where
  mapping_round-Ends :
      (block sequence : ℕ → M (Value D)) (again : Value D → M (Value D)) (indent : ℕ)
      (mapping : Value D) (s : State) (lines : List Line)
      → (1 ≤ m → (i : ℕ) → Keeps (m - 1) d (block i))
      → (1 ≤ m → (i : ℕ) → Keeps (m - 1) d (sequence i))
      → (1 ≤ m → (v : Value D) → Keeps (m - 1) d (again v))
      → length lines ≤ m
      → length s.rest ≤ m
      → s.depth ≡ d
      → Ends (Left m d) (mapping_round to_double block sequence again indent mapping s lines)
  unfolding mapping_round
  mapping_round-Ends block sequence again indent mapping s [] b q a l h e = (h, e)
  mapping_round-Ends block sequence again indent mapping s (line ∷ lines) b q a l h e =
      Ends-if (Left m d) (ltb line.indent indent) _ _ (λ _. (h, e))
        (λ _.
          Ends-if (Left m d) (ltb indent line.indent) _ _ (λ _. tt)
            (λ _.
              Ends-if (Left m d) (starts_with line.content (codes "- ")) _ _ (λ _. tt)
                (λ _. Left-mono (m - 1) d m (omega arith) _ (
                  mapping_round-read to_double (m - 1) d block sequence again mapping s line lines
                    (b (omega arith)) (q (omega arith)) (a (omega arith)) (omega arith) e
                    (key_and_rest to_double line.content line.number)))))

  -- At the indent of the first line, which is no item, the line is read.
  mapping_round-first :
      (block sequence : ℕ → M (Value D)) (again : Value D → M (Value D)) (mapping : Value D)
      (s : State) (line : Line) (lines : List Line)
      → ((i : ℕ) → Keeps m d (block i))
      → ((i : ℕ) → Keeps m d (sequence i))
      → ((v : Value D) → Keeps m d (again v))
      → starts_with line.content (codes "- ") ≡ false
      → length lines ≤ m
      → s.depth ≡ d
      → Ends
          (Left m d)
          (mapping_round to_double block sequence again line.indent mapping s (line ∷ lines))
  unfolding mapping_round
  mapping_round-first block sequence again mapping s line lines b q a dash h e =
      Ends-if (Left m d) (ltb line.indent line.indent) _ _ (λ x. absurd (ground arith))
        (λ _.
          Ends-if (Left m d) (ltb line.indent line.indent) _ _ (λ _. tt)
            (λ _.
              Ends-if (Left m d) (starts_with line.content (codes "- ")) _ _
                (λ x. absurd (ground arith))
                (λ _.
                  mapping_round-read to_double m d block sequence again mapping s line lines b q a h
                    e (key_and_rest to_double line.content line.number))))

  sequence_round-Ends :
      (block : ℕ → M (Value D)) (inline : Bytes → ℕ → ℕ → M (Value D))
      (again : Value D → M (Value D)) (indent : ℕ) (sequence : Value D) (s : State)
      (lines : List Line)
      → (1 ≤ m → (i : ℕ) → Keeps (m - 1) d (block i))
      → (1 ≤ m → (first : Bytes) (i k : ℕ) → Keeps (m - 1) d (inline first i k))
      → (1 ≤ m → (v : Value D) → Keeps (m - 1) d (again v))
      → length lines ≤ m
      → length s.rest ≤ m
      → s.depth ≡ d
      → Ends (Left m d) (sequence_round to_double block inline again indent sequence s lines)
  unfolding sequence_round
  sequence_round-Ends block inline again indent sequence s [] b q a l h e = (h, e)
  sequence_round-Ends block inline again indent sequence s (line ∷ lines) b q a l h e =
      Ends-if (Left m d) (ltb line.indent indent) _ _ (λ _. (h, e))
        (λ _.
          Ends-if (Left m d) (ltb indent line.indent) _ _ (λ _. tt)
            (λ _.
              Ends-if (Left m d) (not (is_item line.content)) _ _ (λ _. (h, e))
                (λ _. Left-mono (m - 1) d m (omega arith) _ (
                  Ends-bind (Left (m - 1) d) (Left (m - 1) d) _ _
                    (item_value-Ends to_double (m - 1) d block inline line
                      (trim (drop 1 line.content)) (b (omega arith)) (q (omega arith))
                      (record s { rest = lines }) (omega arith) e)
                    (λ item t k. a (omega arith) (push sequence item) t k.0 k.1)))))

  more_round-Ends :
      (keys : ℕ → M (Value D)) (again : Value D → M (Value D)) (dash_indent : ℕ) (mapping : Value D)
      (s : State) (lines : List Line)
      → ((line : Line) (later : List Line)
          → lines ≡ line ∷ later
          → starts_with line.content (codes "- ") ≡ false
          → Ends (Left (m - 1) d) (keys line.indent s))
      → (1 ≤ m → (v : Value D) → Keeps (m - 1) d (again v))
      → length lines ≤ m
      → length s.rest ≤ m
      → s.depth ≡ d
      → Ends (Left m d) (more_round to_double keys again dash_indent mapping s lines)
  unfolding more_round
  more_round-Ends keys again dash_indent mapping s [] k a l h e = (h, e)
  more_round-Ends keys again dash_indent mapping s (line ∷ lines) k a l h e =
      Ends-if (Left m d)
        (ltb dash_indent line.indent && not (starts_with line.content (codes "- "))) _ _
        (λ x. Left-mono (m - 1) d m (omega arith) _ (
          Ends-bind (Left (m - 1) d) (Left (m - 1) d) _ _ (k line lines refl (ground arith))
            (λ more t r. a (omega arith) (set_all mapping (members more)) t r.0 r.1)))
        (λ _. (h, e))

  block_inner-Ends :
      (mapping sequence : ℕ → M (Value D)) (indent : ℕ) (s : State) (lines : List Line)
      → ((i : ℕ) → Keeps m d (mapping i))
      → ((i : ℕ) → Keeps m d (sequence i))
      → length s.rest ≤ m
      → s.depth ≡ d
      → Ends (Left m d) (block_inner to_double mapping sequence indent s lines)
  unfolding block_inner
  block_inner-Ends mapping sequence indent s [] a q h e = (h, e)
  block_inner-Ends mapping sequence indent s (line ∷ lines) a q h e =
      Ends-if (Left m d) (is_item line.content) _ _ (λ _. q indent s h e) (λ _. a indent s h e)

module _ {D : Type 0} (to_double : Bytes → Option D) (m d : ℕ) where
  block_round-Ends :
      (mapping sequence : ℕ → M (Value D)) (indent : ℕ) (s : State)
      → ((i : ℕ) → Keeps m (d + 1) (mapping i))
      → ((i : ℕ) → Keeps m (d + 1) (sequence i))
      → length s.rest ≤ m
      → s.depth ≡ d
      → Ends (Left m d) (block_round to_double mapping sequence indent s)
  unfolding block_round
  block_round-Ends mapping sequence indent s a q h e =
      Ends-if (Left m d) (ltb max_depth (s.depth + 1)) _ _ (λ _. tt)
        (λ _.
          Ends-bind (Left m (d + 1)) (Left m d) _ _
            (block_inner-Ends to_double m (d + 1) mapping sequence indent
              (record s { depth = s.depth + 1 }) s.rest a q h (ap (λ x. x + 1) e))
            (λ v t k. (k.0, omega arith)))

Ends-mono :
    {D : Type 0} (n d : ℕ) (o : Step (Value D)) → Ends (Left n d) o → Ends (λ v s. s.depth ≡ d) o
Ends-mono n d (done v s) h = h.1
Ends-mono n d (failed e) h = tt
Ends-mono n d stuck h = h

module _ {D : Type 0} (to_double : Bytes → Option D) where
  mutual
    unfolding parse_block

    parse_block-Ends :
        (fuel m d indent : ℕ) → 3 * m + 2 ≤ fuel → Keeps m d (parse_block to_double fuel indent)
    parse_block-Ends zero m d indent f s h e = absurd (omega arith)
    parse_block-Ends (suc fuel) m d indent f s h e =
        block_round-Ends to_double m d _ _ indent s
          (λ i. parse_mapping-Ends fuel m (d + 1) i (object end) (omega arith))
          (λ i. parse_sequence-Ends fuel m (d + 1) i (array nil) (omega arith)) h e

    parse_mapping-Ends :
        (fuel m d indent : ℕ) (v : Value D)
        → 3 * m + 1 ≤ fuel
        → Keeps m d (parse_mapping to_double fuel indent v)
    parse_mapping-Ends zero m d indent v f s h e = absurd (omega arith)
    parse_mapping-Ends (suc fuel) m d indent v f s h e =
        mapping_round-Ends to_double m d _ _ _ indent v s s.rest
          (λ p i. parse_block-Ends fuel (m - 1) d i (omega arith))
          (λ p i. parse_sequence-Ends fuel (m - 1) d i (array nil) (omega arith))
          (λ p w. parse_mapping-Ends fuel (m - 1) d indent w (omega arith)) h h e

    parse_sequence-Ends :
        (fuel m d indent : ℕ) (v : Value D)
        → 3 * m + 1 ≤ fuel
        → Keeps m d (parse_sequence to_double fuel indent v)
    parse_sequence-Ends zero m d indent v f s h e = absurd (omega arith)
    parse_sequence-Ends (suc fuel) m d indent v f s h e =
        sequence_round-Ends to_double m d _ _ _ indent v s s.rest
          (λ p i. parse_block-Ends fuel (m - 1) d i (omega arith))
          (λ p first i k. parse_inline_mapping-Ends fuel (m - 1) d first i k (omega arith))
          (λ p w. parse_sequence-Ends fuel (m - 1) d indent w (omega arith)) h h e

    parse_inline_mapping-Ends :
        (fuel m d : ℕ) (first : Bytes) (i k : ℕ)
        → 3 * m + 3 ≤ fuel
        → Keeps m d (parse_inline_mapping to_double fuel first i k)
    parse_inline_mapping-Ends zero m d first i k f s h e = absurd (omega arith)
    parse_inline_mapping-Ends (suc fuel) m d first i k f s h e =
        inline_round-Ends to_double m d _ _ first i k
          (λ j. parse_block-Ends fuel m d j (omega arith))
          (λ j w. more_keys-Ends fuel m d j w (omega arith)) s h e

    more_keys-Ends :
        (fuel m d i : ℕ) (v : Value D) → 3 * m + 2 ≤ fuel → Keeps m d (more_keys to_double fuel i v)
    more_keys-Ends zero m d i v f s h e = absurd (omega arith)
    more_keys-Ends (suc fuel) m d i v f s h e =
        more_round-Ends to_double m d _ _ i v s s.rest
          (λ line later r dash. first_key fuel m d line later s f r dash h e)
          (λ p w. more_keys-Ends fuel (m - 1) d i w (omega arith)) h h e

    first_key :
        (fuel m d : ℕ) (line : Line) (later : List Line) (s : State)
        → 3 * m + 2 ≤ suc fuel
        → s.rest ≡ line ∷ later
        → starts_with line.content (codes "- ") ≡ false
        → length s.rest ≤ m
        → s.depth ≡ d
        → Ends (Left (m - 1) d) (parse_mapping to_double fuel line.indent (object end) s)
    first_key zero m d line later s f r dash h e = absurd (omega (arith, ap (λ t. length t) r))
    first_key (suc fuel) m d line later s f r dash h e =
        let size : length s.rest ≡ suc (length later) = ap (λ t. length t) r in
        subst
          (λ lines. Ends (Left (m - 1) d) (
            mapping_round to_double (parse_block to_double fuel)
              (λ i. parse_sequence to_double fuel i (array nil))
              (parse_mapping to_double fuel line.indent) line.indent (object end) s lines))
          (sym r)
          (mapping_round-first to_double (m - 1) d _ _ _ (object end) s line later
            (λ i. parse_block-Ends fuel (m - 1) d i (omega arith))
            (λ i. parse_sequence-Ends fuel (m - 1) d i (array nil) (omega arith))
            (λ w. parse_mapping-Ends fuel (m - 1) d line.indent w (omega arith)) dash (omega arith)
            e)

  parse_lines-Ends : (lines : List Line) → Ends (λ v s. s.depth ≡ 0) (parse_lines to_double lines)
  unfolding parse_lines
  parse_lines-Ends [] = refl
  parse_lines-Ends (line ∷ lines) = Ends-mono (length (line ∷ lines)) 0 _ (
      parse_block-Ends (3 * length (line ∷ lines) + 2) (length (line ∷ lines)) 0 line.indent
        (omega arith) _ (omega arith) refl)

  -- `parse_yaml` returns a value or an error on every text, with the depth back at its start: the
  -- fuel that it takes is enough.
  pub parse_yaml-Ends : (text : Bytes) → Ends (λ v s. s.depth ≡ 0) (parse_yaml to_double text)
  unfolding parse_yaml
  parse_yaml-Ends text =
      Ends-bind (λ v s. s.depth ≡ 0) (λ v s. s.depth ≡ 0) _ _
        (parse_lines-Ends (significant_lines text))
        (λ v s e. Ends-if (λ v s. s.depth ≡ 0) (ltb 64 (container_depth v)) _ _ (λ _. tt) (λ _. e))

  -- A value that `parse_yaml` returns nests arrays and objects at most 64 levels deep, as deep as
  -- the JSON parser reads.
  pub parse_yaml-nesting :
      (text : Bytes) → Ends (λ v s. nesting v ≤ Json.max_depth) (parse_yaml to_double text)
  unfolding parse_yaml
  parse_yaml-nesting text =
      Ends-bind (λ v s. s.depth ≡ 0) (λ v s. nesting v ≤ 64) _ _
        (parse_lines-Ends (significant_lines text))
        (λ v s e.
          Ends-if (λ v s. nesting v ≤ 64) (ltb 64 (container_depth v)) _ _ (λ _. tt)
            (λ h. ground (arith, container_depth-nesting v)))

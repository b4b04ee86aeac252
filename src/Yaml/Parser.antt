-- ===== src/Yaml/Parser.antt =====
-- src/blogin/yaml.cpp: `Parser` and `parse_yaml`. The lines from `position_` on are `rest`, and
-- `total` is `lines_.size()`. The methods that call one another take fuel.
pub mod Ends
use Prim.Native.String.{String}
use blogin.Common.{
  ℕ, zero, suc, ◌+◌, ◌-◌, ◌*◌, Bool, true, false, not, ◌||◌, ◌&&◌, Option, none, some, List, [],
  ◌∷◌, ◌==◌, ltb, if◌then◌else◌, is_empty, length, take, drop, Bytes, codes, same_bytes,
  starts_with,
}
use blogin.Text.{trim}
use blogin.Value.{
  Value, Members, null, array, object, nil, end, member, push, set, members, as_string,
}
use blogin.Json.Parser.{ParseError}
use blogin.Yaml.Lines.{Line, significant_lines, mapping_colon}
use blogin.Yaml.Scalars.{Result, ok, err, error_at, unquote, parse_scalar}
use blogin.Yaml.Depth.{container_depth}

pub record State : Type 0 where
  pub rest : List Line
  pub total : ℕ
  pub depth : ℕ

-- A result with the state behind it, or an error. `stuck` is no value of the program: fuel ran out.
pub data Step (A : Type 0) : Type 0 where
  done : A → State → Step A
  failed : ParseError → Step A
  stuck : Step A

abbrev pub M : Type 0 → Type 0
M A = State → Step A

abbrev pub bind : {A B : Type 0} → Step A → (A → M B) → Step B
bind (done a s) f = f a s
bind (failed e) f = failed e
bind stuck f = stuck

infixl 5 ◌>>=◌
abbrev pub ◌>>=◌ : {A B : Type 0} → M A → (A → M B) → M B
◌>>=◌ m f s = bind (m s) f

abbrev pub return : {A : Type 0} → A → M A
return a s = done a s

abbrev pub lift : {A : Type 0} → Result A → M A
lift (ok a) s = done a s
lift (err e) s = failed e

abbrev pub fail : {A : Type 0} → String → ℕ → ℕ → M A
fail message number column s = failed (record { message = message; line = number; column = column })

-- `position_ < lines_.size() && lines_[position_].indent > indent`
abbrev pub deeper : ℕ → List Line → Bool
deeper indent [] = false
deeper indent (line ∷ lines) = ltb indent line.indent

-- `lines_[position_].indent`
abbrev pub next_indent : List Line → ℕ
next_indent [] = 0
next_indent (line ∷ lines) = line.indent

-- `lines_[position_].content.starts_with("- ")`
abbrev pub dash_next : List Line → Bool
dash_next [] = false
dash_next (line ∷ lines) = starts_with line.content (codes "- ")

abbrev pub same_indent : ℕ → List Line → Bool
same_indent indent [] = false
same_indent indent (line ∷ lines) = line.indent == indent

abbrev pub is_item : Bytes → Bool
is_item content = starts_with content (codes "- ") || same_bytes content (codes "-")

abbrev pub max_depth : ℕ
max_depth = 64

-- The copy of the members of `more` in `parse_inline_mapping`.
unfoldable pub set_all : {D : Type 0} → Value D → Members D → Value D
set_all mapping end = mapping
set_all mapping (member key item ms) = set_all (set mapping key item) ms

-- The number that "nested too deeply" names.
abbrev pub number_of : State → List Line → ℕ
number_of s [] = s.total
number_of s (line ∷ lines) = line.number

module _ {D : Type 0} (to_double : Bytes → Option D) where
  -- The key of a line, and what follows its colon.
  unfoldable pub key_and_rest : Bytes → ℕ → Result (Bytes × Bytes)
  key_and_rest content number = elim (mapping_colon content) [
    | none ↦ err (error_at "expected 'key: value'" number)
    | some colon ↦ elim (unquote to_double (trim (take colon content)) number) [
      | err e ↦ err e
      | ok key ↦ ok (as_string key [], trim (drop (colon + 1) content))
    ]
  ]

  -- The value behind a key whose line is read: on the line, below it, or a sequence beside it.
  unfoldable pub mapping_value : (ℕ → M (Value D)) → (ℕ → M (Value D)) → Line → Bytes → M (Value D)
  mapping_value block sequence line rest s =
      if not (is_empty rest)
      then lift (parse_scalar to_double rest line.number) s
      else if deeper line.indent s.rest
      then block (next_indent s.rest) s
      else if same_indent line.indent s.rest && dash_next s.rest
      then sequence line.indent s
      else done null s

  -- A round of the loop of `parse_mapping`; `again` is the loop.
  unfoldable pub mapping_round :
      (ℕ → M (Value D))
      → (ℕ → M (Value D))
      → (Value D → M (Value D))
      → ℕ
      → Value D
      → State
      → List Line
      → Step (Value D)
  mapping_round block sequence again indent mapping s [] = done mapping s
  mapping_round block sequence again indent mapping s (line ∷ lines) =
      let read : Step (Value D) = elim (key_and_rest line.content line.number) [
        | err e ↦ failed e
        | ok (key, rest) ↦
            (mapping_value block sequence line rest >>= λ item. again (set mapping key item))
              (record s { rest = lines })
      ] in
      if ltb line.indent indent
      then done mapping s
      else if ltb indent line.indent
      then fail "unexpected indentation" line.number (line.indent + 1) s
      else if starts_with line.content (codes "- ")
      then fail "a sequence item where a mapping key was expected" line.number 1 s
      else read

  -- What stands behind a dash whose line is read.
  unfoldable pub item_value :
      (ℕ → M (Value D)) → (Bytes → ℕ → ℕ → M (Value D)) → Line → Bytes → M (Value D)
  item_value block inline line rest s =
      if is_empty rest
      then (if deeper line.indent s.rest then block (next_indent s.rest) s else done null s)
      else if starts_with rest (codes "- ")
      then fail "a nested sequence on the same line is not supported. Indent it on its own line"
          line.number (line.indent + 1) s
      else elim (mapping_colon rest) [
        | some colon ↦ inline rest line.indent line.number s
        | none ↦ lift (parse_scalar to_double rest line.number) s
      ]

  -- A round of the loop of `parse_sequence`.
  unfoldable pub sequence_round :
      (ℕ → M (Value D))
      → (Bytes → ℕ → ℕ → M (Value D))
      → (Value D → M (Value D))
      → ℕ
      → Value D
      → State
      → List Line
      → Step (Value D)
  sequence_round block inline again indent sequence s [] = done sequence s
  sequence_round block inline again indent sequence s (line ∷ lines) =
      let read : Step (Value D) =
        (item_value block inline line (trim (drop 1 line.content)) >>= λ item.
        again (push sequence item))
          (record s { rest = lines }) in
      if ltb line.indent indent
      then done sequence s
      else if ltb indent line.indent
      then fail "unexpected indentation" line.number (line.indent + 1) s
      else if not (is_item line.content)
      then done sequence s
      else read

  -- `parse_inline_mapping`; `more` is its loop over the remaining keys.
  unfoldable pub inline_round :
      (ℕ → M (Value D)) → (ℕ → Value D → M (Value D)) → Bytes → ℕ → ℕ → M (Value D)
  inline_round block more first dash_indent number s = elim (key_and_rest first number) [
    | err e ↦ failed e
    | ok (key, rest) ↦
        ((λ t.
              if not (is_empty rest)
              then lift (parse_scalar to_double rest number) t
              else if deeper dash_indent t.rest
              then block (next_indent t.rest) t
              else done null t)
            >>= λ item. more dash_indent (set (object end) key item))
          s
  ]

  -- A round of that loop; `keys` is `parse_mapping`.
  unfoldable pub more_round :
      (ℕ → M (Value D)) → (Value D → M (Value D)) → ℕ → Value D → State → List Line → Step (Value D)
  more_round keys again dash_indent mapping s [] = done mapping s
  more_round keys again dash_indent mapping s (line ∷ lines) =
      let read : Step (Value D) =
        (keys line.indent >>= λ more. again (set_all mapping (members more))) s in
      if ltb dash_indent line.indent && not (starts_with line.content (codes "- "))
      then read
      else done mapping s

  -- `parse_block_inner`
  unfoldable pub block_inner :
      (ℕ → M (Value D)) → (ℕ → M (Value D)) → ℕ → State → List Line → Step (Value D)
  block_inner mapping sequence indent s [] = done null s
  block_inner mapping sequence indent s (line ∷ lines) =
      if is_item line.content then sequence indent s else mapping indent s

  unfoldable pub block_round : (ℕ → M (Value D)) → (ℕ → M (Value D)) → ℕ → M (Value D)
  block_round mapping sequence indent s =
      if ltb max_depth (s.depth + 1)
      then fail "nested too deeply" (number_of s s.rest) 1 s
      else bind (block_inner mapping sequence indent (record s { depth = s.depth + 1 }) s.rest)
          λ value t. done value (record t { depth = t.depth - 1 })

  unfoldable mutual
    pub parse_block : ℕ → ℕ → M (Value D)
    parse_block zero indent s = stuck
    parse_block (suc fuel) indent s =
        block_round (λ i. parse_mapping fuel i (object end))
          (λ i. parse_sequence fuel i (array nil)) indent s

    pub parse_mapping : ℕ → ℕ → Value D → M (Value D)
    parse_mapping zero indent mapping s = stuck
    parse_mapping (suc fuel) indent mapping s =
        mapping_round (parse_block fuel) (λ i. parse_sequence fuel i (array nil))
          (parse_mapping fuel indent) indent mapping s s.rest

    pub parse_sequence : ℕ → ℕ → Value D → M (Value D)
    parse_sequence zero indent sequence s = stuck
    parse_sequence (suc fuel) indent sequence s =
        sequence_round (parse_block fuel) (parse_inline_mapping fuel) (parse_sequence fuel indent)
          indent sequence s s.rest

    pub parse_inline_mapping : ℕ → Bytes → ℕ → ℕ → M (Value D)
    parse_inline_mapping zero first dash_indent number s = stuck
    parse_inline_mapping (suc fuel) first dash_indent number s =
        inline_round (parse_block fuel) (more_keys fuel) first dash_indent number s

    pub more_keys : ℕ → ℕ → Value D → M (Value D)
    more_keys zero dash_indent mapping s = stuck
    more_keys (suc fuel) dash_indent mapping s =
        more_round (λ i. parse_mapping fuel i (object end)) (more_keys fuel dash_indent) dash_indent
          mapping s s.rest

  -- Three units of fuel for each line, and two.
  unfoldable pub parse_lines : List Line → Step (Value D)
  parse_lines [] = done (object end) (record { rest = []; total = 0; depth = 0 })
  parse_lines (line ∷ lines) =
      parse_block (3 * length (line ∷ lines) + 2) line.indent
        (record { rest = line ∷ lines; total = length (line ∷ lines); depth = 0 })

  unfoldable pub parse_yaml : Bytes → Step (Value D)
  parse_yaml text =
      let lines = significant_lines text in
      bind (parse_lines lines) λ value s.
        if ltb 64 (container_depth value)
        then fail "nested too deeply" (length lines) 1 s
        else done value s

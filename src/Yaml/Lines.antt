-- ===== src/Yaml/Lines.antt =====
-- src/blogin/yaml.cpp: `Line`, `strip_comment`, `significant_lines` and `mapping_colon`.
use mathlib.Core.Option
use blogin.Common.{
  ℕ, suc, ◌+◌, Bool, true, not, ◌||◌, ◌&&◌, Option, none, some, List, [], ◌∷◌, ◌==◌, if◌then◌else◌,
  is_empty, drop, Bytes, codes, find_if, same_bytes,
}
use blogin.Text.{is_space, trim, trim_end, split_lines}

pub record Line : Type 0 where
  pub indent : ℕ
  pub content : Bytes
  pub number : ℕ

-- The quote behind the byte `character`, where `quote` is open; 0 is none.
unfoldable pub next_quote : ℕ → ℕ → ℕ
next_quote quote character =
    if not (quote == 0)
    then (if character == quote then 0 else quote)
    else if character == b'"' || character == b'\''
    then character
    else 0

-- The loop of `strip_comment`; `spaced` says that a comment may begin here.
unfoldable pub strip_from : ℕ → Bool → Bytes → Bytes
strip_from quote spaced [] = []
strip_from quote spaced (c ∷ cs) =
    let rest = strip_from (next_quote quote c) (is_space c) cs in
    if quote == 0 && (c == b'#' && spaced) then [] else c ∷ rest

unfoldable pub strip_comment : Bytes → Bytes
unfolding strip_from next_quote
strip_comment line = strip_from 0 true line

-- One round of the loop of `significant_lines`.
unfoldable pub line_at : ℕ → Bytes → Option Line
line_at number raw =
    let without_comment = trim_end (strip_comment raw) in
    if is_empty (trim without_comment)
    then none
    else if same_bytes (trim without_comment) (codes "---")
    then none
    else elim (find_if (λ c. not (c == b' ')) without_comment) [
      | none ↦ none
      | some indent ↦
          some (record { indent = indent; content = drop indent without_comment; number = number })
    ]

unfoldable pub lines_from : ℕ → List Bytes → List Line
lines_from number [] = []
lines_from number (raw ∷ raws) = elim (line_at (number + 1) raw) [
  | none ↦ lines_from (number + 1) raws
  | some line ↦ line ∷ lines_from (number + 1) raws
]

unfoldable pub significant_lines : Bytes → List Line
significant_lines source = lines_from 0 (split_lines source)

-- `index + 1 == content.size() || is_space(content[index + 1])`
abbrev pub ends_key : Bytes → Bool
ends_key [] = true
ends_key (c ∷ cs) = is_space c

unfoldable pub colon_from : ℕ → Bytes → Option ℕ
colon_from quote [] = none
colon_from quote (c ∷ cs) =
    let later = Option.map suc (colon_from (next_quote quote c) cs) in
    if quote == 0 && (c == b':' && ends_key cs) then some 0 else later

unfoldable pub mapping_colon : Bytes → Option ℕ
unfolding colon_from next_quote
mapping_colon content = colon_from 0 content

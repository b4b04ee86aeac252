-- ===== src/Summary.antt =====
-- src/blogin/summary.cpp: the summary of a post.
use blogin.Common.{
  ℕ, not, none, some, List, [], ◌∷◌, ◌++◌, ◌==◌, leb, if◌then◌else◌, is_empty, slice, Bytes,
  find_last_if,
}
use blogin.Text.{char_length, substr, trim, split_lines}

-- `cut.find_last_of(' ')`, and the text before it
unfoldable pub cut_at_space : Bytes → Bytes
unfolding find_last_if
cut_at_space cut = elim (find_last_if (λ c. c == b' ') cut) [
  | none ↦ cut
  | some space ↦ slice cut 0 space
]

unfoldable pub truncate : Bytes → ℕ → Bytes → Bytes
truncate input length ellipsis =
    if leb (char_length input) length
    then input
    else trim (cut_at_space (trim (substr input 0 (some length)))) ++ ellipsis

-- The default of the parameter `ellipsis`, in UTF-8.
abbrev pub default_ellipsis : Bytes
default_ellipsis = 0xE2 ∷ 0x80 ∷ 0xA6 ∷ []

-- The loop over the lines.
unfoldable pub first_line : List Bytes → ℕ → Bytes
first_line [] length = []
first_line (line ∷ lines) length =
    let rest = first_line lines length in
    if not (is_empty (trim line)) then truncate (trim line) length default_ellipsis else rest

unfoldable pub first_block : Bytes → ℕ → Bytes
unfolding first_line
first_block text_content length = first_line (split_lines text_content) length

unfoldable pub choose : Bytes → Bytes → Bytes → ℕ → Bytes
choose explicit_summary excerpt text_content length =
    if not (is_empty (trim explicit_summary))
    then trim explicit_summary
    else if not (is_empty (trim excerpt))
    then trim excerpt
    else first_block text_content length

-- ===== src/Common/Strings.antt =====
-- What the program uses of `std::string_view`. A string is the list of its bytes. A position
-- beyond the end, where `substr` would throw, gives the empty string.
use Prim.Native.Char.{code}
use Prim.Native.Nat.{ℕ, suc, ◌+◌, ◌<◌}
use Prim.Native.String.{String}
use mathlib.Core.Bool.{Bool, true, false, ◌&&◌}
use mathlib.Core.List.{List, [], ◌∷◌}
use mathlib.Core.Option
use mathlib.Core.Option.{Option, none, some}
use blogin.Common.Tests.{◌==◌, if◌then◌else◌}
use blogin.Common.Lists.{All, take, drop, get_or, is_empty}

abbrev pub Bytes : Type 0
Bytes = List ℕ

-- Each element is a byte.
abbrev pub AllBytes : Bytes → Type 0
AllBytes = All (λ c. c < 256)

-- The bytes of an ASCII text.
abbrev pub codes : String → Bytes
codes String.[] = []
codes (String.◌∷◌ c s) = code c ∷ codes s

-- `text[index]`
abbrev pub byte_at : Bytes → ℕ → ℕ
byte_at text index = get_or text index 0

-- `text.substr(start, count)`
abbrev pub slice : Bytes → ℕ → ℕ → Bytes
slice text start count = take count (drop start text)

-- The first place that passes a test.
unfoldable pub find_if : (ℕ → Bool) → Bytes → Option ℕ
find_if p [] = none
find_if p (c ∷ cs) = if p c then some 0 else Option.map suc (find_if p cs)

-- `text.find(wanted, start)`; `none` is `npos`.
unfoldable pub find_byte : Bytes → ℕ → ℕ → Option ℕ
find_byte text wanted start =
    Option.map (λ i. start + i) (find_if (λ c. c == wanted) (drop start text))

-- The last place that passes a test.
unfoldable pub find_last_if : (ℕ → Bool) → Bytes → Option ℕ
find_last_if p [] = none
find_last_if p (c ∷ cs) = elim (find_last_if p cs) [
  | some i ↦ some (suc i)
  | none ↦ if p c then some 0 else none
]

-- `set.contains(c)` for a byte
abbrev pub has_byte : Bytes → ℕ → Bool
has_byte [] c = false
has_byte (x ∷ xs) c = if c == x then true else has_byte xs c

-- `left == right`
unfoldable pub same_bytes : Bytes → Bytes → Bool
same_bytes [] [] = true
same_bytes [] (y ∷ ys) = false
same_bytes (x ∷ xs) [] = false
same_bytes (x ∷ xs) (y ∷ ys) = x == y && same_bytes xs ys

-- `text.starts_with(prefix)`
unfoldable pub starts_with : Bytes → Bytes → Bool
starts_with text [] = true
starts_with [] (p ∷ ps) = false
starts_with (c ∷ cs) (p ∷ ps) = c == p && starts_with cs ps

-- `text.find(wanted)` for a string
unfoldable pub find_bytes : Bytes → Bytes → Option ℕ
find_bytes [] wanted = if is_empty wanted then some 0 else none
find_bytes (c ∷ cs) wanted =
    if starts_with (c ∷ cs) wanted then some 0 else Option.map suc (find_bytes cs wanted)

-- ===== src/Toc.antt =====
-- src/blogin/toc.cpp and include/toc.h: the table of contents as a tree, and its markup.
pub mod Order
use blogin.Common.{
  ℕ, zero, suc, List, [], ◌∷◌, ◌++◌, ◌==◌, not, if◌then◌else◌, length, Bytes, codes,
}
use blogin.Value.{ℤ, less_int}

-- `Heading` of include/markdown.h.
pub record Heading : Type 0 where
  pub level : ℤ
  pub text : Bytes
  pub id : Bytes

-- An entry with the entries below it.
mutual
  pub data Entry : Type 0 where
    entry : Heading → Entries → Entry

  pub data Entries : Type 0 where
    none_below : Entries
    also : Entry → Entries → Entries

-- `levels`, its back first: `while (!levels.empty() && levels.back() >= level) levels.pop_back();`
unfoldable pub pop_levels : ℤ → List ℤ → List ℤ
pop_levels level [] = []
pop_levels level (top ∷ levels) =
    let rest = pop_levels level levels in if not (less_int top level) then rest else top ∷ levels

-- The new entry goes `depth` levels down along the last entries, and to the end of the list there.
unfoldable mutual
  pub insert_at : ℕ → Heading → Entries → Entries
  insert_at depth h none_below = also (entry h none_below) none_below
  insert_at depth h (also e none_below) = insert_last depth h e
  insert_at depth h (also e (also f es)) = also e (insert_at depth h (also f es))

  -- At the last entry of a list: behind it, or below it.
  pub insert_last : ℕ → Heading → Entry → Entries
  insert_last zero h (entry g below) = also (entry g below) (also (entry h none_below) none_below)
  insert_last (suc depth) h (entry g below) = also (entry g (insert_at depth h below)) none_below

-- The variables of the loop of `build`.
pub record Building : Type 0 where
  pub roots : Entries
  pub levels : List ℤ

unfoldable pub add_heading : Building → Heading → Building
unfolding insert_at pop_levels
add_heading b h =
    let levels = pop_levels h.level b.levels in
    record { roots = insert_at (length levels) h b.roots; levels = h.level ∷ levels }

unfoldable pub build_loop : Building → List Heading → Building
unfolding add_heading
build_loop b [] = b
build_loop b (h ∷ hs) = build_loop (add_heading b h) hs

unfoldable pub build : List Heading → Entries
unfolding build_loop
build headings = (build_loop (record { roots = none_below; levels = [] }) headings).roots

unfoldable pub escape : Bytes → Bytes
escape [] = []
escape (c ∷ cs) =
    (if c == b'&'
      then codes "&amp;"
      else if c == b'<'
      then codes "&lt;"
      else if c == b'>'
      then codes "&gt;"
      else if c == b'"'
      then codes "&quot;"
      else c ∷ [])
    ++ escape cs

unfoldable mutual
  unfolding escape

  -- The elements of a list, without the list's own tags.
  pub render_entries : Entries → Bytes
  render_entries none_below = []
  render_entries (also e es) = render_entry e ++ render_entries es

  pub render_entry : Entry → Bytes
  render_entry (entry h below) =
      codes "<li><a href=\"#"
      ++ (escape h.id
          ++ (codes "\">"
              ++ (escape h.text ++ (codes "</a>" ++ (render_into below ++ codes "</li>")))))

  pub render_into : Entries → Bytes
  render_into none_below = []
  render_into (also e es) = codes "<ul>" ++ (render_entry e ++ (render_entries es ++ codes "</ul>"))

unfoldable pub render : Entries → Bytes
unfolding render_into
render entries = render_into entries

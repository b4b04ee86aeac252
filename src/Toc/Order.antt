-- ===== src/Toc/Order.antt =====
-- src/blogin/toc.cpp: the headings of the tree in the order of the markup.
use blogin.Common.{
  ℕ, zero, suc, List, [], ◌∷◌, ◌++◌, ◌≡◌, refl, ap, sym, ◌∙◌, append-nil, append_assoc, length,
}
use blogin.Toc.{
  Heading, Entry, entry, Entries, none_below, also, insert_at, insert_last, pop_levels, Building,
  add_heading, build_loop, build,
}

-- The headings of an entry, then those below it, as the markup has them.
mutual
  pub preorder : Entries → List Heading
  preorder none_below = []
  preorder (also e es) = preorder_of e ++ preorder es

  pub preorder_of : Entry → List Heading
  preorder_of (entry h below) = h ∷ preorder below

mutual
  unfolding preorder insert_at

  preorder-insert_at :
      (depth : ℕ) (h : Heading) (es : Entries)
      → preorder (insert_at depth h es) ≡ preorder es ++ (h ∷ [])
  preorder-insert_at depth h none_below = refl
  preorder-insert_at depth h (also e none_below) = preorder-insert_last depth h e
  preorder-insert_at depth h (also e (also f es)) =
      ap (λ t. preorder_of e ++ t) (preorder-insert_at depth h (also f es))
      ∙ sym (append_assoc (preorder_of e) (preorder (also f es)) (h ∷ []))

  preorder-insert_last :
      (depth : ℕ) (h : Heading) (e : Entry)
      → preorder (insert_last depth h e) ≡ (preorder_of e ++ []) ++ (h ∷ [])
  preorder-insert_last zero h (entry g below) =
      ap (λ t. t ++ (h ∷ [])) {x = g ∷ preorder below} (sym (append-nil (g ∷ preorder below)))
  preorder-insert_last (suc depth) h (entry g below) =
      ap (λ t. (g ∷ t) ++ []) (preorder-insert_at depth h below)
      ∙ (append-nil _
          ∙ ap (λ t. t ++ (h ∷ [])) {x = g ∷ preorder below}
              (sym (append-nil (g ∷ preorder below))))

preorder-build_loop :
    (b : Building) (hs : List Heading) → preorder (build_loop b hs).roots ≡ preorder b.roots ++ hs
unfolding build_loop add_heading
preorder-build_loop b [] = sym (append-nil (preorder b.roots))
preorder-build_loop b (h ∷ hs) =
    preorder-build_loop (add_heading b h) hs
    ∙ (ap (λ t. t ++ hs) (preorder-insert_at (length (pop_levels h.level b.levels)) h b.roots)
        ∙ append_assoc (preorder b.roots) (h ∷ []) hs)

-- The tree of the headings, each entry before the entries below it, is the list of the headings:
-- none is lost, repeated or out of order.
pub preorder-build : (headings : List Heading) → preorder (build headings) ≡ headings
unfolding build preorder
preorder-build headings = preorder-build_loop (record { roots = none_below; levels = [] }) headings

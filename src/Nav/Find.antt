-- ===== src/Nav/Find.antt =====
-- src/blogin/nav.cpp: which node `find` gives, and which section `is_current` marks.
use blogin.Common.{
  Bool, true, ◌&&◌, Option, none, some, List, [], ◌∷◌, ◌++◌, ◌==◌, ltb, if◌then◌else◌, length,
  Bytes, byte_at, same_bytes, starts_with, ◌≡◌, refl, ap, ap₂, sym, ◌∙◌, ◌⊎◌, ◌↔◌, arith,
  Bool-cases, inl, inr,
}
use blogin.Common.Maps.{first_of, same_bytes→eq, same_bytes_refl}
use blogin.Nav.{
  Section, NavNode, NavNodes, nav_node, no_nodes, also, section_of, find, find_in, is_current,
}

-- The menu as it is read: every node before the nodes below it.
mutual
  pub preorder : NavNodes → List NavNode
  preorder no_nodes = []
  preorder (also node nodes) = preorder_of node ++ preorder nodes

  pub preorder_of : NavNode → List NavNode
  preorder_of (nav_node section children) = nav_node section children ∷ preorder children

-- The first node of a list with the path.
unfoldable pub first_at : Bytes → List NavNode → Option NavNode
first_at path [] = none
first_at path (node ∷ nodes) =
    if same_bytes (section_of node).path path then some node else first_at path nodes

first_at-append :
    (path : Bytes) (xs ys : List NavNode)
    → first_at path (xs ++ ys) ≡ first_of (first_at path xs) (first_at path ys)
unfolding first_at
first_at-append path [] ys = refl
first_at-append path (x ∷ xs) ys = elim (Bool-cases (same_bytes (section_of x).path path)) [
  | inl e ↦ rw e
  | inr e ↦ rw e (first_at-append path xs ys)
]

mutual
  unfolding find preorder first_at

  nodes-first_at :
      (nodes : NavNodes) (path : Bytes) → find nodes path ≡ first_at path (preorder nodes)
  nodes-first_at no_nodes path = refl
  nodes-first_at (also node nodes) path =
      ap₂ first_of (find_in-first_at node path) (nodes-first_at nodes path)
      ∙ sym (first_at-append path (preorder_of node) (preorder nodes))

  find_in-first_at :
      (node : NavNode) (path : Bytes) → find_in node path ≡ first_at path (preorder_of node)
  find_in-first_at (nav_node section children) path =
      ap (λ below. if same_bytes section.path path then some (nav_node section children) else below)
        (nodes-first_at children path)

-- `find` gives the first node of the menu, in reading order, that has the path, and none where no node
-- at any depth has it.
pub find-first_at :
    (nodes : NavNodes) (path : Bytes) → find nodes path ≡ first_at path (preorder nodes)
find-first_at nodes path = nodes-first_at nodes path

abbrev pub below : Bytes → Bytes → Bool
below path section =
    starts_with section path
    && (ltb (length path) (length section) && byte_at section (length path) == b'/')

below-slash :
    (path section : Bytes)
    → below path section ≡ true
    → (rest : Bytes) × (section ≡ path ++ (b'/' ∷ rest))
unfolding starts_with
below-slash [] [] h = absurd (ground arith)
below-slash [] (c ∷ cs) h = (cs, ap (λ x. x ∷ cs) (ground arith))
below-slash (p ∷ ps) [] h = absurd (ground arith)
below-slash (p ∷ ps) (c ∷ cs) h =
    let (rest, e) = below-slash ps cs (ground arith) in
    let same : c ≡ p = ground arith in (rest, ap₂ (λ x xs. x ∷ xs) same e)

slash-below : (path rest : Bytes) → below path (path ++ (b'/' ∷ rest)) ≡ true
unfolding starts_with
slash-below [] rest = ground arith
slash-below (p ∷ ps) rest = ground (arith, slash-below ps rest)

-- A node is current for its own path and for the paths beneath it, which go on with a slash, and for
-- no other section: `blog` is not current for `blogging`.
pub is_current_iff :
    (node : Section) (section : Bytes)
    → (is_current node section ≡ true)
      ↔ ((section ≡ node.path) ⊎ ((rest : Bytes) × (section ≡ node.path ++ (b'/' ∷ rest))))
unfolding is_current
is_current_iff node section = (
  λ h. elim (Bool-cases (same_bytes section node.path)) [
    | inl e ↦ inl (same_bytes→eq section node.path e)
    | inr e ↦ inr (below-slash node.path section (ground arith))
  ],
  λ h. elim h [
    | inl e ↦ ap (is_current node) e ∙ rw (same_bytes_refl node.path)
    | inr (rest, e) ↦ ap (is_current node) e ∙ beneath rest
  ],
)
  where
    beneath : (rest : Bytes) → is_current node (node.path ++ (b'/' ∷ rest)) ≡ true
    beneath rest = ground (arith, slash-below node.path rest)

-- ===== src/Yaml/Depth/Nesting.antt =====
-- src/blogin/yaml.cpp: `container_depth` as the depth of a tree.
use blogin.Common.{ℕ, zero, suc, ◌+◌, ◌≤◌, max, [], ◌∷◌, ◌≡◌, refl, ◌∙◌, arith}
use blogin.Value.{
  Value, Items, Members, null, boolean, integer, number, string, array, object, nil, cons, end,
  member,
}
use blogin.Yaml.Depth.{
  Pending, push_members, push_items, push_children, deepest_with, depth_loop, count_values,
  count_items, count_members, container_depth,
}

-- How deeply arrays and objects nest, by recursion on the value.
unfoldable mutual
  pub nesting : {D : Type 0} → Value D → ℕ
  nesting (array vs) = suc (nesting_items vs)
  nesting (object ms) = suc (nesting_members ms)
  nesting _ = 0

  pub nesting_items : {D : Type 0} → Items D → ℕ
  nesting_items nil = 0
  nesting_items (cons v vs) = max (nesting v) (nesting_items vs)

  pub nesting_members : {D : Type 0} → Members D → ℕ
  nesting_members end = 0
  nesting_members (member k v ms) = max (nesting v) (nesting_members ms)

module _ {D : Type 0} where
  -- The deepest container among what is pending: a value at depth `d` reaches `d + nesting v - 1`.
  abbrev reach : Value D → ℕ → ℕ
  reach (array vs) depth = depth + nesting_items vs
  reach (object ms) depth = depth + nesting_members ms
  reach _ depth = 0

  reach_all : Pending D → ℕ
  reach_all [] = 0
  reach_all ((v, depth) ∷ pending) = max (reach v depth) (reach_all pending)

  work : Pending D → ℕ
  work [] = 0
  work ((v, depth) ∷ pending) = count_values v + work pending

  work-push_members :
      (ms : Members D) (depth : ℕ) (pending : Pending D)
      → work (push_members ms depth pending) ≡ count_members ms + work pending
  unfolding work push_members count_values
  work-push_members end depth pending = omega arith
  work-push_members (member k v ms) depth pending =
      omega (arith, work-push_members ms depth ((v, depth) ∷ pending))

  work-push_items :
      (vs : Items D) (depth : ℕ) (pending : Pending D)
      → work (push_items vs depth pending) ≡ count_items vs + work pending
  unfolding work push_items count_values
  work-push_items nil depth pending = omega arith
  work-push_items (cons v vs) depth pending =
      omega (arith, work-push_items vs depth ((v, depth) ∷ pending))

  reach-le :
      (v : Value D) (depth : ℕ) → max depth (reach v (depth + 1)) ≡ max depth (depth + nesting v)
  unfolding nesting
  reach-le (array vs) depth = ground arith
  reach-le (object ms) depth = ground arith
  reach-le null depth = ground arith
  reach-le (boolean b) depth = ground arith
  reach-le (integer n) depth = ground arith
  reach-le (number x) depth = ground arith
  reach-le (string s) depth = ground arith

  reach_all-push_members :
      (ms : Members D) (depth : ℕ) (pending : Pending D)
      → max depth (reach_all (push_members ms (depth + 1) pending))
        ≡ max (depth + nesting_members ms) (reach_all pending)
  unfolding reach_all push_members nesting
  reach_all-push_members end depth pending = omega arith
  reach_all-push_members (member k v ms) depth pending =
      omega (arith, reach_all-push_members ms depth ((v, depth + 1) ∷ pending), reach-le v depth)

  reach_all-push_items :
      (vs : Items D) (depth : ℕ) (pending : Pending D)
      → max depth (reach_all (push_items vs (depth + 1) pending))
        ≡ max (depth + nesting_items vs) (reach_all pending)
  unfolding reach_all push_items nesting
  reach_all-push_items nil depth pending = omega arith
  reach_all-push_items (cons v vs) depth pending =
      omega (arith, reach_all-push_items vs depth ((v, depth + 1) ∷ pending), reach-le v depth)

  -- One round lowers the work by one and keeps the depth that is to be found.
  round_work :
      (v : Value D) (depth : ℕ) (pending : Pending D)
      → suc (work (push_children v depth pending)) ≡ work ((v, depth) ∷ pending)
  unfolding work push_children count_values
  round_work (array vs) depth pending = omega (arith, work-push_items vs (depth + 1) pending)
  round_work (object ms) depth pending = omega (arith, work-push_members ms (depth + 1) pending)
  round_work null depth pending = omega arith
  round_work (boolean b) depth pending = omega arith
  round_work (integer n) depth pending = omega arith
  round_work (number x) depth pending = omega arith
  round_work (string s) depth pending = omega arith

  round_reach :
      (v : Value D) (depth deepest : ℕ) (pending : Pending D)
      → max (deepest_with v depth deepest) (reach_all (push_children v depth pending))
        ≡ max deepest (reach_all ((v, depth) ∷ pending))
  unfolding reach_all push_children deepest_with
  round_reach (array vs) depth deepest pending =
      omega (arith, reach_all-push_items vs depth pending)
  round_reach (object ms) depth deepest pending =
      omega (arith, reach_all-push_members ms depth pending)
  round_reach null depth deepest pending = omega arith
  round_reach (boolean b) depth deepest pending = omega arith
  round_reach (integer n) depth deepest pending = omega arith
  round_reach (number x) depth deepest pending = omega arith
  round_reach (string s) depth deepest pending = omega arith

  depth_loop-reach_all :
      (fuel : ℕ) (pending : Pending D) (deepest : ℕ)
      → work pending ≤ fuel
      → depth_loop fuel pending deepest ≡ max deepest (reach_all pending)
  unfolding depth_loop
  depth_loop-reach_all zero [] deepest h = unfold reach_all in omega arith
  depth_loop-reach_all zero ((v, depth) ∷ pending) deepest h =
      absurd (omega (arith, round_work v depth pending))
  depth_loop-reach_all (suc fuel) [] deepest h = unfold reach_all in omega arith
  depth_loop-reach_all (suc fuel) ((v, depth) ∷ pending) deepest h =
      depth_loop-reach_all fuel (push_children v depth pending) (deepest_with v depth deepest)
        (omega (arith, round_work v depth pending))
      ∙ round_reach v depth deepest pending

  reach_root : (v : Value D) → reach v 1 ≡ nesting v
  unfolding nesting
  reach_root (array vs) = omega arith
  reach_root (object ms) = omega arith
  reach_root null = refl
  reach_root (boolean b) = refl
  reach_root (integer n) = refl
  reach_root (number x) = refl
  reach_root (string s) = refl

  -- The loop over the stack finds how deeply arrays and objects nest in the value.
  pub container_depth-nesting : (v : Value D) → container_depth v ≡ nesting v
  unfolding container_depth reach_all work
  container_depth-nesting v =
      depth_loop-reach_all (count_values v) ((v, 1) ∷ []) 0 (omega arith)
      ∙ omega (arith, reach_root v)

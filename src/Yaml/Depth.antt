-- ===== src/Yaml/Depth.antt =====
-- src/blogin/yaml.cpp: `container_depth`.
pub mod Nesting
use blogin.Common.{
  ℕ, zero, suc, ◌+◌, Bool, true, false, not, ◌&&◌, List, [], ◌∷◌, if◌then◌else◌, max,
}
use blogin.Value.{
  Value, Items, Members, null, boolean, integer, number, string, array, object, nil, cons, end,
  member,
}

-- `pending`, its back first: a value with the depth at which it stands.
abbrev pub Pending : Type 0 → Type 0
Pending D = List (Value D × ℕ)

module _ {D : Type 0} where
  unfoldable pub push_members : Members D → ℕ → Pending D → Pending D
  push_members end depth pending = pending
  push_members (member name child ms) depth pending =
      push_members ms depth ((child, depth) ∷ pending)

  unfoldable pub push_items : Items D → ℕ → Pending D → Pending D
  push_items nil depth pending = pending
  push_items (cons child vs) depth pending = push_items vs depth ((child, depth) ∷ pending)

  -- What is pending behind a value that was taken off.
  unfoldable pub push_children : Value D → ℕ → Pending D → Pending D
  push_children (object ms) depth pending = push_members ms (depth + 1) pending
  push_children (array vs) depth pending = push_items vs (depth + 1) pending
  push_children _ depth pending = pending

  unfoldable pub deepest_with : Value D → ℕ → ℕ → ℕ
  deepest_with (object ms) depth deepest = max deepest depth
  deepest_with (array vs) depth deepest = max deepest depth
  deepest_with _ depth deepest = deepest

  -- The loop; each round takes one of the values off.
  unfoldable pub depth_loop : ℕ → Pending D → ℕ → ℕ
  depth_loop zero pending deepest = deepest
  depth_loop (suc fuel) [] deepest = deepest
  depth_loop (suc fuel) ((value, depth) ∷ pending) deepest =
      depth_loop fuel (push_children value depth pending) (deepest_with value depth deepest)

-- How many values a value is made of: the rounds of the loop.
unfoldable mutual
  pub count_values : {D : Type 0} → Value D → ℕ
  count_values (array vs) = suc (count_items vs)
  count_values (object ms) = suc (count_members ms)
  count_values _ = 1

  pub count_items : {D : Type 0} → Items D → ℕ
  count_items nil = 0
  count_items (cons v vs) = count_values v + count_items vs

  pub count_members : {D : Type 0} → Members D → ℕ
  count_members end = 0
  count_members (member k v ms) = count_values v + count_members ms

unfoldable pub container_depth : {D : Type 0} → Value D → ℕ
container_depth root = depth_loop (count_values root) ((root, 1) ∷ []) 0

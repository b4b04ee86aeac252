-- ===== src/Expression.antt =====
-- src/blogin/expression.cpp and include/expression.h: the expressions of templates. A node of the
-- tree is its shape, by kind, with the height and the place that every node has.
pub mod Parser
pub mod Grammar
pub mod Height
pub mod Operators
pub mod Evaluate
pub mod Quote
use blogin.Common.{ℕ, zero, suc, ◌+◌, ◌≤◌, max, Bool, Bytes, ◌≡◌}
use blogin.Value.{ℤ}

pub data BinaryOperator : Type 0 where
  equal not_equal less less_or_equal greater greater_or_equal logical_and logical_or add subtract
        concatenate :
      BinaryOperator

mutual
  pub data Node (D : Type 0) : Type 0 where
    node : Shape D → (height line column : ℕ) → Node D

  -- `NodeKind`, with the fields of `Node` that the kind uses.
  pub data Shape (D : Type 0) : Type 0 where
    literal_null : Shape D
    literal_boolean : Bool → Shape D
    literal_integer : ℤ → Shape D
    literal_number : D → Shape D
    literal_string : Bytes → Shape D
    name : Bytes → Shape D
    variable : Bytes → Shape D
    member : Bytes → Node D → Shape D
    call : Node D → Nodes D → Shape D
    named_argument : Bytes → Node D → Shape D
    block : Node D → Shape D
    map_of : Nodes D → Shape D
    unary_not : Node D → Shape D
    binary : BinaryOperator → Node D → Node D → Shape D

  -- `std::vector<std::unique_ptr<Node>>`
  pub data Nodes (D : Type 0) : Type 0 where
    no_nodes : Nodes D
    more_nodes : Node D → Nodes D → Nodes D

module _ {D : Type 0} where
  abbrev pub height_of : Node D → ℕ
  height_of (node shape height line column) = height

  -- `arguments.push_back`
  unfoldable pub push_node : Nodes D → Node D → Nodes D
  push_node no_nodes last = more_nodes last no_nodes
  push_node (more_nodes first rest) last = more_nodes first (push_node rest last)

  -- The loops of `too_tall` over the stored heights of the children.
  unfoldable pub tallest_of : Nodes D → ℕ
  tallest_of no_nodes = 0
  tallest_of (more_nodes first rest) = max (height_of first) (tallest_of rest)

  unfoldable pub tallest_child : Shape D → ℕ
  tallest_child (member text target) = height_of target
  tallest_child (call target arguments) = max (height_of target) (tallest_of arguments)
  tallest_child (named_argument text target) = height_of target
  tallest_child (block target) = height_of target
  tallest_child (map_of arguments) = tallest_of arguments
  tallest_child (unary_not target) = height_of target
  tallest_child (binary op left right) = max (height_of left) (height_of right)
  tallest_child _ = 0

  -- Every node of the tree stores the number of levels from it to its deepest leaf.
  unfoldable mutual
    pub Measured : Node D → Type 0
    Measured (node shape height line column) =
        (height ≡ suc (tallest_child shape)) × MeasuredShape shape

    pub MeasuredShape : Shape D → Type 0
    MeasuredShape (member text target) = Measured target
    MeasuredShape (call target arguments) = Measured target × MeasuredAll arguments
    MeasuredShape (named_argument text target) = Measured target
    MeasuredShape (block target) = Measured target
    MeasuredShape (map_of arguments) = MeasuredAll arguments
    MeasuredShape (unary_not target) = Measured target
    MeasuredShape (binary op left right) = Measured left × Measured right
    MeasuredShape _ = Unit {0}

    pub MeasuredAll : Nodes D → Type 0
    MeasuredAll no_nodes = Unit {0}
    MeasuredAll (more_nodes first rest) = Measured first × MeasuredAll rest

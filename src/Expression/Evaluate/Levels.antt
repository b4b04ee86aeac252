-- ===== src/Expression/Evaluate/Levels.antt =====
-- src/blogin/expression.cpp: how deep `evaluate` recurses.
use blogin.Common.{
  ℕ, zero, suc, ◌≤◌, Bool, true, false, ◌&&◌, ◌||◌, Option, Bytes, codes, same_bytes, arith,
}
use blogin.Common.Steps.{Ends, Ends-if, Ends-option, Ends-map}
use blogin.Value.{Value, set, object, end, is_array, is_object, truthy}
use blogin.Json.Writer.{Doubles}
use blogin.ViewContext.{ViewContext, function_named, lookup, lookup_local}
use blogin.ViewContext.Replay.{Reads, none_read, Reads-trans, lookup_local-Reads, lookup-Reads}
use blogin.Expression.{
  Node, Shape, Nodes, BinaryOperator, node, no_nodes, more_nodes, height_of, tallest_of,
  tallest_child, Measured, MeasuredShape, MeasuredAll, literal_null, literal_boolean,
  literal_integer, literal_number, literal_string, name, variable, member, call, named_argument,
  block, map_of, unary_not, binary, logical_and, logical_or,
}
use blogin.Expression.Parser.{max_depth}
use blogin.Expression.Grammar.{parse_expression}
use blogin.Expression.Height.Tree.{parse_expression-Fits}
use blogin.Expression.Evaluate.{
  read_or, read_variable, read_name, read_member, evaluate_binary, evaluate_argument,
  evaluate_arguments, call_function, evaluate_call, evaluate_entries, evaluate_shape, evaluate,
}
use blogin.Expression.Operators.{Arithmetic, M, is_string}
use blogin.Expression.Operators.Totality.{
  Total, Total-bind, Total-if, applied-Total, list_member-Total,
}

module _ {D : Type 0} (arithmetic : Arithmetic D) where
  module _ (doubles : Doubles D) where
    read_or-Total :
        (text : Bytes) (otherwise : M D (Value D))
        → Total doubles otherwise
        → Total doubles (read_or arithmetic doubles text otherwise)
    unfolding read_or
    read_or-Total text otherwise t context =
        let local = lookup_local doubles context text in
        let value = lookup doubles local.1 text in
        let local_read = lookup_local-Reads doubles context text in
        Ends-option (λ v c. Reads doubles context c) local.0 _ _
          (λ e.
            let value_read = lookup-Reads doubles context text e in
            Ends-option (λ v c. Reads doubles context c) value.0 _ _
              (λ _.
                Ends-map (otherwise value.1) (t value.1)
                  (λ v c later. Reads-trans doubles value_read later))
              (λ found _. value_read))
          (λ found _. local_read)

    read_variable-Total :
        (line column : ℕ) (text : Bytes)
        → Total doubles (read_variable arithmetic doubles line column text)
    unfolding read_variable
    read_variable-Total line column text context =
        Ends-option (λ v c. Reads doubles context c) (lookup_local doubles context text).0 _ _
          (λ _. tt) (λ found _. lookup_local-Reads doubles context text)

    read_name-Total :
        (line column : ℕ) (text : Bytes)
        → Total doubles (read_name arithmetic doubles line column text)
    unfolding read_name
    read_name-Total line column text = read_or-Total text _ (λ context.
        Ends-option (λ v c. Reads doubles context c) (function_named context text) _ _ (λ _. tt)
          (λ function _. none_read context))

    read_member-Total :
        (line column : ℕ) (target : Value D) (text : Bytes)
        → Total doubles (read_member arithmetic doubles line column target text)
    unfolding read_member
    read_member-Total line column target text =
        Total-if doubles (is_array target) _ _
          (list_member-Total arithmetic doubles line column target text)
          (Total-if doubles (is_object target) _ _ (λ c. none_read c)
            (Total-if doubles
              (is_string target
                && (same_bytes text (codes "chars") || same_bytes text (codes "elems")))
              _ _ (λ c. none_read c) (λ c. tt)))

    module _ (n : ℕ) (inner : Node D → M D (Value D))
        (keeps : (tree : Node D)
          → Measured tree
          → height_of tree ≤ n
          → Total doubles (inner tree)) where
      evaluate_binary-Total :
          (line column : ℕ) (op : BinaryOperator) (left right : Node D)
          → Total doubles (inner left)
          → Total doubles (inner right)
          → Total doubles (evaluate_binary arithmetic doubles inner line column op left right)
      unfolding evaluate_binary
      evaluate_binary-Total line column logical_and left right t u =
          Total-bind doubles _ _ t
            (λ a. Total-if doubles (truthy arithmetic.is_zero a) _ _ u (λ c. none_read c))
      evaluate_binary-Total line column logical_or left right t u =
          Total-bind doubles _ _ t
            (λ a. Total-if doubles (truthy arithmetic.is_zero a) _ _ (λ c. none_read c) u)
      evaluate_binary-Total line column op left right t u =
          Total-bind doubles _ _ t (λ a.
            Total-bind doubles _ _ u (λ b. applied-Total arithmetic doubles line column op a b))

      -- A call of `inner` needs no more levels than it has: one lemma for each method that calls it.
      evaluate_argument-Total :
          (argument : Node D)
          → Measured argument
          → height_of argument ≤ n
          → Total doubles (evaluate_argument arithmetic doubles inner argument)
      unfolding evaluate_argument Measured tallest_child
      evaluate_argument-Total (node (block target) height line column) (h, m) b =
          Total-bind doubles _ _ (keeps target m (omega arith)) (λ value c. none_read c)
      evaluate_argument-Total (node shape height line column) m b =
          Total-bind doubles (inner (node shape height line column)) _
            (keeps (node shape height line column) m b) (λ value c. none_read c)

      evaluate_arguments-Total :
          (arguments : Nodes D)
          → MeasuredAll arguments
          → tallest_of arguments ≤ n
          → Total doubles (evaluate_arguments arithmetic doubles inner arguments)
      unfolding evaluate_arguments Measured tallest_of
      evaluate_arguments-Total no_nodes m b context = none_read context
      evaluate_arguments-Total (more_nodes argument arguments) (m, ms) b context =
          Total-bind doubles _ _ (evaluate_argument-Total argument m (ground arith))
            (λ first.
              Total-bind doubles _ _ (evaluate_arguments-Total arguments ms (ground arith))
                (λ rest c. none_read c))
            context

      call_function-Total :
          (line column : ℕ) (text : Bytes) (no_arguments : Bool) (arguments : Nodes D)
          → MeasuredAll arguments
          → tallest_of arguments ≤ n
          → Total doubles
              (call_function arithmetic doubles inner line column text no_arguments arguments)
      unfolding call_function
      call_function-Total line column text no_arguments arguments m b context =
          Ends-option (λ v c. Reads doubles context c) (function_named context text) _ _
            (λ _.
              Ends-if (λ v c. Reads doubles context c) no_arguments _ _
                (λ _. read_or-Total text _ (λ c. tt) context) (λ _. tt))
            (λ function _.
              Total-bind doubles _ _ (evaluate_arguments-Total arguments m b)
                (λ values c. none_read c) context)

      evaluate_call-Total :
          (line column : ℕ) (target : Node D) (arguments : Nodes D)
          → Measured target
          → MeasuredAll arguments
          → height_of target ≤ n
          → tallest_of arguments ≤ n
          → Total doubles (evaluate_call arithmetic doubles inner line column target arguments)
      unfolding evaluate_call
      evaluate_call-Total line column (node (name text) h l k) no_nodes m ms b bs context =
          call_function-Total line column text true no_nodes ms bs context
      evaluate_call-Total line column (node (name text) h l k) (more_nodes a as_) m ms b bs
            context =
          call_function-Total line column text false (more_nodes a as_) ms bs context
      evaluate_call-Total line column (node (member text target) h l k) no_nodes m ms b bs context =
          keeps (node (member text target) h l k) m b context
      evaluate_call-Total line column (node (member text target) h l k) (more_nodes a as_) m ms b bs
            context =
          call_function-Total line column text false (more_nodes a as_) ms bs context
      evaluate_call-Total line column target arguments m ms b bs context = tt

      evaluate_entries-Total :
          (out : Value D) (entries : Nodes D)
          → MeasuredAll entries
          → tallest_of entries ≤ n
          → Total doubles (evaluate_entries arithmetic doubles inner out entries)
      unfolding evaluate_entries Measured tallest_of tallest_child
      evaluate_entries-Total out no_nodes m b context = none_read context
      evaluate_entries-Total out (more_nodes (node (named_argument text target) h l k) entries)
            ((e, m), ms) b context =
          Total-bind doubles _ _ (keeps target m (ground arith))
            (λ value. evaluate_entries-Total (set out text value) entries ms (ground arith)) context
      evaluate_entries-Total out (more_nodes entry entries) (m, ms) b context =
          evaluate_entries-Total out entries ms (ground arith) context

      evaluate_shape-Total :
          (line column : ℕ) (shape : Shape D)
          → MeasuredShape shape
          → tallest_child shape ≤ n
          → Total doubles (evaluate_shape arithmetic doubles inner line column shape)
      unfolding evaluate_shape Measured tallest_child
      evaluate_shape-Total line column literal_null m b context = none_read context
      evaluate_shape-Total line column (literal_boolean x) m b context = none_read context
      evaluate_shape-Total line column (literal_integer x) m b context = none_read context
      evaluate_shape-Total line column (literal_number x) m b context = none_read context
      evaluate_shape-Total line column (literal_string x) m b context = none_read context
      evaluate_shape-Total line column (variable text) m b context =
          read_variable-Total line column text context
      evaluate_shape-Total line column (name text) m b context =
          read_name-Total line column text context
      evaluate_shape-Total line column (member text target) m b context =
          Total-bind doubles _ _ (keeps target m b)
            (λ value. read_member-Total line column value text) context
      evaluate_shape-Total line column (named_argument text target) m b context =
          keeps target m b context
      evaluate_shape-Total line column (block target) m b context = tt
      evaluate_shape-Total line column (map_of entries) m b context =
          evaluate_entries-Total (object end) entries m b context
      evaluate_shape-Total line column (unary_not target) m b context =
          Total-bind doubles _ _ (keeps target m b) (λ value c. none_read c) context
      evaluate_shape-Total line column (binary op left right) (m, k) b context =
          evaluate_binary-Total line column op left right (keeps left m (ground arith))
            (keeps right k (ground arith)) context
      evaluate_shape-Total line column (call target arguments) (m, ms) b context =
          evaluate_call-Total line column target arguments m ms (ground arith) (ground arith)
            context

    -- With as many levels as the tree is high, or more, `evaluate` gives a value or an error: it never
    -- recurses deeper than the height that the tree stores. It does no more to the context than read.
    pub evaluate-Total :
        (fuel : ℕ) (tree : Node D)
        → Measured tree
        → height_of tree ≤ fuel
        → (context : ViewContext D)
        → Ends (λ a c. Reads doubles context c) (evaluate arithmetic doubles fuel tree context)
    unfolding evaluate Measured
    evaluate-Total zero (node shape height line column) (e, m) b context = absurd (omega arith)
    evaluate-Total (suc fuel) (node shape height line column) (e, m) b context =
        evaluate_shape-Total fuel (evaluate arithmetic doubles fuel)
          (λ tree k h. evaluate-Total fuel tree k h) line column shape m (omega arith) context

    -- A source that is parsed and evaluated with 64 levels gives a value or an error, whatever the
    -- context is. An overflow of int64, which C++ leaves open, counts among the errors here.
    pub evaluate-parse_expression :
        (to_double : Bytes → Option D) (source : Bytes) (line column : ℕ) (context : ViewContext D)
        → Ends
            (λ tree p. Ends (λ a c. Unit {0}) (evaluate arithmetic doubles max_depth tree context))
            (parse_expression to_double arithmetic.zero_double source line column)
    evaluate-parse_expression to_double source line column context =
        Ends-map _ (parse_expression-Fits to_double arithmetic.zero_double source line column)
          (λ tree p fits.
            Ends-map (evaluate arithmetic doubles max_depth tree context)
              (evaluate-Total max_depth tree fits.0 fits.1 context) (λ a c read. tt))

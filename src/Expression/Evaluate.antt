-- ===== src/Expression/Evaluate.antt =====
-- src/blogin/expression.cpp: `evaluate`. Its recursion takes fuel, the levels that are left. The
-- arithmetic of `double` and its text are parameters; the context behind an error is not seen.
pub mod Levels
pub mod Recorded
use blogin.Common.{
  ℕ, zero, suc, ◌+◌, ◌-◌, ◌^◌, Bool, true, false, not, ◌&&◌, ◌||◌, Option, none, some, List, [],
  ◌∷◌, ◌++◌, ◌==◌, ltb, leb, if◌then◌else◌, is_empty, length, Bytes, codes, same_bytes,
}
use blogin.Common.Steps.{Step, done, failed, stuck, ◌>>=◌}
use blogin.Value.{
  ℤ, pos, negsuc, Value, ValueType, null, boolean, integer, number, string, array, object, end,
  type_of, type_name, is_object, is_array, as_boolean, as_number, as_string, truthy, size, at, set,
  get_or_null, null_type, boolean_type, integer_type, number_type, string_type,
}
use blogin.Json.Writer.{Doubles, less_bytes, format_int}
use blogin.ViewContext.{
  Argument, Function, ViewContext, function_named, lookup, lookup_local, nearest,
}
use blogin.Expression.{
  Node, Shape, Nodes, BinaryOperator, node, no_nodes, more_nodes, literal_null, literal_boolean,
  literal_integer, literal_number, literal_string, name, variable, member, call, named_argument,
  block, map_of, unary_not, binary, equal, not_equal, less, less_or_equal, greater,
  greater_or_equal, logical_and, logical_or, add, subtract, concatenate,
}
use blogin.Expression.Parser.{ParseError}
use blogin.Expression.Operators.{
  Arithmetic, Refusal, refused, M, error_at, return, is_string, list_member, applied,
}

module _ {D : Type 0} (arithmetic : Arithmetic D) where
  -- The error that a name gives which is not there.
  abbrev pub no_such_name : ℕ → ℕ → Bytes → M D (Value D)
  no_such_name line column text context =
      error_at line column (codes "no such name '" ++ (text ++ (codes "'" ++ nearest context text)))
        context

  module _ (doubles : Doubles D) where
    -- A local before a value, and `otherwise` for neither.
    unfoldable pub read_or : Bytes → M D (Value D) → M D (Value D)
    read_or text otherwise context =
        let local = lookup_local doubles context text in
        let value = lookup doubles local.1 text in
        elim local.0 [
          | some found ↦ done found local.1
          | none ↦ elim value.0 [ some found ↦ done found value.1 | none ↦ otherwise value.1 ]
        ]

    unfoldable pub read_variable : ℕ → ℕ → Bytes → M D (Value D)
    read_variable line column text context =
        let local = lookup_local doubles context text in
        elim local.0 [
          | some found ↦ done found local.1
          | none ↦ error_at line column (codes "no such local '$" ++ (text ++ codes "'")) local.1
        ]

    unfoldable pub read_name : ℕ → ℕ → Bytes → M D (Value D)
    read_name line column text = read_or text (λ context. elim (function_named context text) [
      | some function ↦ done (function []) context
      | none ↦ no_such_name line column text context
    ])

    unfoldable pub read_member : ℕ → ℕ → Value D → Bytes → M D (Value D)
    read_member line column target text =
        if is_array target
        then list_member arithmetic line column target text
        else if is_object target
        then return (get_or_null target text)
        else if is_string target
            && (same_bytes text (codes "chars") || same_bytes text (codes "elems"))
        then return (integer (pos (size target)))
        else error_at line column
            (codes "cannot read '" ++ (text ++ (codes "' from " ++ type_name (type_of target))))

    module _ (inner : Node D → M D (Value D)) where
      unfoldable pub evaluate_binary : ℕ → ℕ → BinaryOperator → Node D → Node D → M D (Value D)
      evaluate_binary line column logical_and left right =
          inner left >>= λ a. if truthy arithmetic.is_zero a then inner right else return a
      evaluate_binary line column logical_or left right =
          inner left >>= λ a. if truthy arithmetic.is_zero a then return a else inner right
      evaluate_binary line column op left right =
          inner left >>= λ a. inner right >>= λ b. applied arithmetic line column op a b

      -- One argument of a call.
      unfoldable pub evaluate_argument : Node D → M D (Argument D)
      evaluate_argument (node (block target) height line column) =
          inner target >>= λ value. return (record { name = []; value = value })
      evaluate_argument (node (named_argument text target) height line column) =
          inner (node (named_argument text target) height line column) >>= λ value.
          return (record { name = text; value = value })
      evaluate_argument argument =
          inner argument >>= λ value. return (record { name = []; value = value })

      unfoldable pub evaluate_arguments : Nodes D → M D (List (Argument D))
      evaluate_arguments no_nodes = return []
      evaluate_arguments (more_nodes argument arguments) =
          let later = evaluate_arguments arguments in
          evaluate_argument argument >>= λ first. later >>= λ rest. return (first ∷ rest)

      -- A call by name; `is_empty_list` says that there are no arguments.
      unfoldable pub call_function : ℕ → ℕ → Bytes → Bool → Nodes D → M D (Value D)
      call_function line column text is_empty_list arguments context =
          elim (function_named context text) [
            | some function ↦
                (evaluate_arguments arguments >>= λ values. return (function values)) context
            | none ↦
                if is_empty_list
                then read_or text (no_such_name line column text) context
                else no_such_name line column text context
          ]

      unfoldable pub evaluate_call : ℕ → ℕ → Node D → Nodes D → M D (Value D)
      evaluate_call line column (node (name text) h l c) no_nodes =
          call_function line column text true no_nodes
      evaluate_call line column (node (name text) h l c) arguments =
          call_function line column text false arguments
      evaluate_call line column (node (member text target) h l c) no_nodes =
          inner (node (member text target) h l c)
      evaluate_call line column (node (member text target) h l c) arguments =
          call_function line column text false arguments
      evaluate_call line column target arguments =
          error_at line column (codes "only a name can be called")

      -- The entries of a map, which `parse_map` makes named arguments.
      unfoldable pub evaluate_entries : Value D → Nodes D → M D (Value D)
      evaluate_entries out no_nodes = return out
      evaluate_entries out (more_nodes (node (named_argument text target) h l c) entries) =
          inner target >>= λ value. evaluate_entries (set out text value) entries
      evaluate_entries out (more_nodes entry entries) = evaluate_entries out entries

      -- The cases of `evaluate`.
      unfoldable pub evaluate_shape : ℕ → ℕ → Shape D → M D (Value D)
      evaluate_shape line column literal_null = return null
      evaluate_shape line column (literal_boolean b) = return (boolean b)
      evaluate_shape line column (literal_integer n) = return (integer n)
      evaluate_shape line column (literal_number x) = return (number x)
      evaluate_shape line column (literal_string text) = return (string text)
      evaluate_shape line column (variable text) = read_variable line column text
      evaluate_shape line column (name text) = read_name line column text
      evaluate_shape line column (member text target) =
          inner target >>= λ value. read_member line column value text
      evaluate_shape line column (named_argument text target) = inner target
      evaluate_shape line column (block target) =
          error_at line column (codes "a block is only allowed as an argument")
      evaluate_shape line column (map_of entries) = evaluate_entries (object end) entries
      evaluate_shape line column (unary_not target) =
          inner target >>= λ value. return (boolean (not (truthy arithmetic.is_zero value)))
      evaluate_shape line column (binary op left right) = evaluate_binary line column op left right
      evaluate_shape line column (call target arguments) =
          evaluate_call line column target arguments

    unfoldable pub evaluate : ℕ → Node D → M D (Value D)
    evaluate zero tree context = stuck
    evaluate (suc fuel) (node shape height line column) context =
        evaluate_shape (evaluate fuel) line column shape context

-- ===== src/Expression/Operators.antt =====
-- src/blogin/expression.cpp: the operators and the members of values, in `evaluate_binary`, `compare`,
-- `same_value`, `to_text` and `list_member`. The arithmetic of `double` and its text are parameters.
pub mod Totality
use blogin.Common.{
  ℕ, zero, suc, ◌+◌, ◌-◌, ◌^◌, Bool, true, false, not, ◌&&◌, ◌||◌, Option, none, some, List, [],
  ◌∷◌, ◌++◌, ◌==◌, ltb, leb, if◌then◌else◌, is_empty, length, Bytes, codes, same_bytes,
}
use blogin.Common.Steps.{Step, done, failed, stuck, ◌>>=◌}
use blogin.Value.{
  ℤ, pos, negsuc, Value, ValueType, null, boolean, integer, number, string, array, object, end,
  type_of, type_name, is_object, is_array, as_boolean, as_number, as_string, truthy, size, at, set,
  get_or_null, null_type, boolean_type, integer_type, number_type, string_type,
}
use blogin.Json.Writer.{Doubles, less_bytes, format_int}
use blogin.ViewContext.{
  Argument, Function, ViewContext, function_named, lookup, lookup_local, nearest,
}
use blogin.Expression.{
  Node, Shape, Nodes, BinaryOperator, node, no_nodes, more_nodes, literal_null, literal_boolean,
  literal_integer, literal_number, literal_string, name, variable, member, call, named_argument,
  block, map_of, unary_not, binary, equal, not_equal, less, less_or_equal, greater,
  greater_or_equal, logical_and, logical_or, add, subtract, concatenate,
}
use blogin.Expression.Parser.{ParseError}

-- The language's operations on `double`.
pub record Arithmetic (D : Type 0) : Type 0 where
  pub widen : ℤ → D
  pub plus : D → D → D
  pub minus : D → D → D
  pub below : D → D → Bool
  pub equivalent : D → D → Bool
  pub is_zero : D → Bool
  pub zero_double : D
  pub format_double : D → Bytes

-- An error of the program, or a signed addition that overflows, which C++ leaves undefined.
pub data Refusal : Type 0 where
  refused : ParseError → Refusal
  overflow : Refusal

unfoldable pub is_int64 : ℤ → Bool
is_int64 (pos n) = ltb n (2 ^ 63)
is_int64 (negsuc n) = ltb n (2 ^ 63)

unfoldable pub difference : ℕ → ℕ → ℤ
difference m n = if ltb m n then negsuc (n - m - 1) else pos (m - n)

unfoldable pub add_int : ℤ → ℤ → ℤ
add_int (pos m) (pos n) = pos (m + n)
add_int (pos m) (negsuc n) = difference m (n + 1)
add_int (negsuc m) (pos n) = difference n (m + 1)
add_int (negsuc m) (negsuc n) = negsuc (m + n + 1)

unfoldable pub subtract_int : ℤ → ℤ → ℤ
subtract_int m (pos zero) = m
subtract_int m (pos (suc n)) = add_int m (negsuc n)
subtract_int m (negsuc n) = add_int m (pos (n + 1))

module _ {D : Type 0} where
  abbrev pub is_string : Value D → Bool
  is_string (string s) = true
  is_string _ = false

  abbrev pub is_null : Value D → Bool
  is_null null = true
  is_null _ = false

  abbrev pub is_boolean : Value D → Bool
  is_boolean (boolean b) = true
  is_boolean _ = false

  abbrev pub is_numeric : Value D → Bool
  is_numeric (integer n) = true
  is_numeric (number x) = true
  is_numeric _ = false

-- The outcomes of `compare`: -1, 0 and 1.
unfoldable pub order_of : Bool → Bool → ℤ
order_of before same = if before then negsuc 0 else if same then pos 0 else pos 1

abbrev pub is_below : ℤ → Bool
is_below (negsuc n) = true
is_below (pos n) = false

abbrev pub is_above : ℤ → Bool
is_above (pos (suc n)) = true
is_above _ = false

abbrev pub M : Type 0 → Type 0 → Type 0
M D A = ViewContext D → Step (ViewContext D) Refusal A

module _ {D : Type 0} where
  abbrev pub error_at : {A : Type 0} → ℕ → ℕ → Bytes → M D A
  error_at line column message context =
      failed (refused (record { message = message; line = line; column = column }))

  abbrev pub return : {A : Type 0} → A → M D A
  return a context = done a context

module _ {D : Type 0} (arithmetic : Arithmetic D) where
  abbrev pub number_of : Value D → D
  number_of value = as_number arithmetic.widen value arithmetic.zero_double

  unfoldable pub same_value : Value D → Value D → Bool
  same_value left right =
      if is_string left || is_string right
      then is_string left
        && (is_string right && same_bytes (as_string left []) (as_string right []))
      else if is_null left || is_null right
      then is_null left && is_null right
      else if is_boolean left || is_boolean right
      then is_boolean left
        && (is_boolean right
            && (if as_boolean left false
                then as_boolean right false
                else not (as_boolean right false)))
      else arithmetic.equivalent (number_of left) (number_of right)

  unfoldable pub compare_values : Value D → Value D → Option ℤ
  compare_values left right =
      if is_string left && is_string right
      then some (
          order_of (less_bytes (as_string left []) (as_string right []))
            (same_bytes (as_string left []) (as_string right [])))
      else if is_numeric left && is_numeric right
      then some (
          order_of (arithmetic.below (number_of left) (number_of right))
            (not (arithmetic.below (number_of right) (number_of left))))
      else none

  unfoldable pub to_text : Value D → Bytes
  to_text (boolean b) = if b then codes "true" else codes "false"
  to_text (integer n) = format_int n
  to_text (number x) = arithmetic.format_double x
  to_text (string s) = s
  to_text _ = []

  abbrev pub checked : ℤ → M D (Value D)
  checked n context = if is_int64 n then done (integer n) context else failed overflow

  unfoldable pub list_member : ℕ → ℕ → Value D → Bytes → M D (Value D)
  list_member line column target text =
      if same_bytes text (codes "elems")
        || (same_bytes text (codes "size") || same_bytes text (codes "count"))
      then return (integer (pos (size target)))
      else if same_bytes text (codes "first")
      then return (at target 0)
      else if same_bytes text (codes "last")
      then return (if size target == 0 then null else at target (size target - 1))
      else error_at line column (codes "a list has no '" ++ (text ++ codes "'"))

  -- `add` of values that are not both integers
  unfoldable pub joined_or_sum : Value D → Value D → M D (Value D)
  joined_or_sum left right =
      if is_string left || is_string right
      then return (string (to_text left ++ to_text right))
      else return (number (arithmetic.plus (number_of left) (number_of right)))

  unfoldable pub added : Value D → Value D → M D (Value D)
  added (integer m) (integer n) = checked (add_int m n)
  added left right = joined_or_sum left right

  unfoldable pub subtracted : Value D → Value D → M D (Value D)
  subtracted (integer m) (integer n) = checked (subtract_int m n)
  subtracted left right = return (number (arithmetic.minus (number_of left) (number_of right)))

  abbrev pub ordered : ℕ → ℕ → Value D → Value D → (ℤ → Bool) → M D (Value D)
  ordered line column left right test context = elim (compare_values left right) [
    | some order ↦ done (boolean (test order)) context
    | none ↦
        error_at line column
          (codes "cannot compare "
            ++ (type_name (type_of left) ++ (codes " with " ++ type_name (type_of right))))
          context
  ]

  -- The operators that look at both sides.
  unfoldable pub applied : ℕ → ℕ → BinaryOperator → Value D → Value D → M D (Value D)
  applied line column equal left right = return (boolean (same_value left right))
  applied line column not_equal left right = return (boolean (not (same_value left right)))
  applied line column concatenate left right = return (string (to_text left ++ to_text right))
  applied line column add left right = added left right
  applied line column subtract left right = subtracted left right
  applied line column less left right = ordered line column left right is_below
  applied line column less_or_equal left right =
      ordered line column left right (λ order. not (is_above order))
  applied line column greater left right = ordered line column left right is_above
  applied line column greater_or_equal left right =
      ordered line column left right (λ order. not (is_below order))
  applied line column _ left right = error_at line column (codes "unsupported operator")

-- ===== src/Expression/Operators/Totality.antt =====
-- src/blogin/expression.cpp: every operator gives a value or an error.
use blogin.Common.{
  ℕ, ◌-◌, Bool, true, false, ◌||◌, ◌++◌, ◌==◌, if◌then◌else◌, Bytes, codes, same_bytes,
}
use blogin.Common.Steps.{Step, ◌>>=◌, Ends, Ends-bind, Ends-if, Ends-option, Ends-map}
use Prim.Native.String.{String}
use blogin.Value.{ℤ, pos, null, size, at, Value, integer}
use blogin.Json.Writer.{Doubles}
use blogin.ViewContext.{ViewContext}
use blogin.ViewContext.Replay.{Reads, none_read, Reads-trans}
use blogin.Expression.{
  BinaryOperator, equal, not_equal, less, less_or_equal, greater, greater_or_equal, logical_and,
  logical_or, add, subtract, concatenate,
}
use blogin.Expression.Operators.{
  Arithmetic, Refusal, return, is_int64, add_int, subtract_int, is_string, joined_or_sum,
  compare_values, error_at, checked, list_member, added, subtracted, ordered, applied,
}

-- The levels are enough: the method gives a result, and has done no more to the context than read
-- names, or it gives an error.
abbrev pub Total :
    {D A : Type 0} → Doubles D → (ViewContext D → Step (ViewContext D) Refusal A) → Type 0
Total doubles m = (context : _) → Ends (λ a c. Reads doubles context c) (m context)

module _ {D : Type 0} (doubles : Doubles D) where
  pub Total-bind :
      {A B : Type 0} (m : ViewContext D → Step (ViewContext D) Refusal A)
      (f : A → ViewContext D → Step (ViewContext D) Refusal B)
      → Total doubles m
      → ((a : A) → Total doubles (f a))
      → Total doubles (m >>= f)
  Total-bind m f t k context =
      Ends-bind (λ a c. Reads doubles context c) (λ b c. Reads doubles context c) (m context) f
        (t context) (λ a c r. Ends-map (f a c) (k a c) (λ b d later. Reads-trans doubles r later))

  pub Total-if :
      {A : Type 0} (b : Bool) (x y : ViewContext D → Step (ViewContext D) Refusal A)
      → Total doubles x
      → Total doubles y
      → Total doubles (if b then x else y)
  Total-if true x y t u = t
  Total-if false x y t u = u

module _ {D : Type 0} (arithmetic : Arithmetic D) (doubles : Doubles D) where
  checked-Total : (n : ℤ) → Total doubles (checked arithmetic n)
  checked-Total n context =
      Ends-if (λ v c. Reads doubles context c) (is_int64 n) _ _ (λ _. none_read context) (λ _. tt)

  ordered-Total :
      (line column : ℕ) (left right : Value D) (test : ℤ → Bool)
      → Total doubles (ordered arithmetic line column left right test)
  ordered-Total line column left right test context =
      Ends-option (λ v c. Reads doubles context c) (compare_values arithmetic left right) _ _
        (λ _. tt) (λ order _. none_read context)

  joined_or_sum-Total : (left right : Value D) → Total doubles (joined_or_sum arithmetic left right)
  unfolding joined_or_sum
  joined_or_sum-Total left right =
      Total-if doubles (is_string left || is_string right) _ _ (λ c. none_read c) (λ c. none_read c)

  added-Total : (left right : Value D) → Total doubles (added arithmetic left right)
  unfolding added
  added-Total (integer m) (integer n) context = checked-Total (add_int m n) context
  added-Total left right context = joined_or_sum-Total left right context

  subtracted-Total : (left right : Value D) → Total doubles (subtracted arithmetic left right)
  unfolding subtracted
  subtracted-Total (integer m) (integer n) context = checked-Total (subtract_int m n) context
  subtracted-Total left right context = none_read context

  pub applied-Total :
      (line column : ℕ) (op : BinaryOperator) (left right : Value D)
      → Total doubles (applied arithmetic line column op left right)
  unfolding applied
  applied-Total line column equal left right context = none_read context
  applied-Total line column not_equal left right context = none_read context
  applied-Total line column concatenate left right context = none_read context
  applied-Total line column add left right context = added-Total left right context
  applied-Total line column subtract left right context = subtracted-Total left right context
  applied-Total line column less left right context = ordered-Total line column left right _ context
  applied-Total line column less_or_equal left right context =
      ordered-Total line column left right _ context
  applied-Total line column greater left right context =
      ordered-Total line column left right _ context
  applied-Total line column greater_or_equal left right context =
      ordered-Total line column left right _ context
  applied-Total line column logical_and left right context = tt
  applied-Total line column logical_or left right context = tt

  pub list_member-Total :
      (line column : ℕ) (target : Value D) (text : Bytes)
      → Total doubles (list_member arithmetic line column target text)
  unfolding list_member
  list_member-Total line column target text context =
      pointwise (spelt "elems" || (spelt "size" || spelt "count")) (spelt "first") (spelt "last")
    where
      spelt : String → Bool
      spelt word = same_bytes text (codes word)

      counted : ViewContext D → Step (ViewContext D) Refusal (Value D)
      counted = return (integer (pos (size target)))

      last : ViewContext D → Step (ViewContext D) Refusal (Value D)
      last = return (if size target == 0 then null else at target (size target - 1))

      pointwise :
          (a b c : Bool)
          → Ends
              (λ v k. Reads doubles context k)
              ((if a
                  then counted
                  else if b
                  then return (at target 0)
                  else if c
                  then last
                  else error_at line column (codes "a list has no '" ++ (text ++ codes "'")))
                context)
      pointwise true b c = none_read context
      pointwise false true c = none_read context
      pointwise false false true = none_read context
      pointwise false false false = tt

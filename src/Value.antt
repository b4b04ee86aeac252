-- ===== src/Value.antt =====
-- src/blogin/value.cpp and include/value.h: the dynamic type shared by JSON, YAML and templates.
-- `double` is the parameter `D`; an `int64_t` is an integer, whose range is a predicate.
pub mod Find
pub mod Merge
use blogin.Common.{
  ℕ, zero, suc, ◌+◌, ◌-◌, ◌≤◌, ◌<◌, Bool, true, false, not, ◌&&◌, Option, none, some, List, [], ◌∷◌,
  ◌==◌, ltb, if◌then◌else◌, is_empty, length, Bytes, codes, same_bytes,
}

-- `negsuc n` is -(n + 1).
pub data ℤ : Type 0 where
  pos : ℕ → ℤ
  negsuc : ℕ → ℤ

unfoldable pub same_int : ℤ → ℤ → Bool
same_int (pos m) (pos n) = m == n
same_int (pos m) (negsuc n) = false
same_int (negsuc m) (pos n) = false
same_int (negsuc m) (negsuc n) = m == n

unfoldable pub less_int : ℤ → ℤ → Bool
less_int (pos m) (pos n) = ltb m n
less_int (pos m) (negsuc n) = false
less_int (negsuc m) (pos n) = true
less_int (negsuc m) (negsuc n) = ltb n m

mutual
  pub data Value (D : Type 0) : Type 0 where
    null : Value D
    boolean : Bool → Value D
    integer : ℤ → Value D
    number : D → Value D
    string : Bytes → Value D
    array : Items D → Value D
    object : Members D → Value D

  -- `std::vector<Value>`
  pub data Items (D : Type 0) : Type 0 where
    nil : Items D
    cons : Value D → Items D → Items D

  -- `std::vector<std::pair<std::string, Value>>`
  pub data Members (D : Type 0) : Type 0 where
    end : Members D
    member : Bytes → Value D → Members D → Members D

-- `Value::Type`
pub data ValueType : Type 0 where
  null_type boolean_type integer_type number_type string_type array_type object_type : ValueType

module _ {D : Type 0} where
  unfoldable pub type_of : Value D → ValueType
  type_of null = null_type
  type_of (boolean b) = boolean_type
  type_of (integer n) = integer_type
  type_of (number x) = number_type
  type_of (string s) = string_type
  type_of (array xs) = array_type
  type_of (object ms) = object_type

  abbrev pub is_object : Value D → Bool
  is_object (object ms) = true
  is_object _ = false

  abbrev pub is_array : Value D → Bool
  is_array (array xs) = true
  is_array _ = false

  unfoldable pub as_boolean : Value D → Bool → Bool
  as_boolean (boolean b) fallback = b
  as_boolean _ fallback = fallback

  -- The conversions between the two number types are the compiler's.
  unfoldable pub as_integer : (D → ℤ) → Value D → ℤ → ℤ
  as_integer truncate (integer n) fallback = n
  as_integer truncate (number x) fallback = truncate x
  as_integer truncate _ fallback = fallback

  unfoldable pub as_number : (ℤ → D) → Value D → D → D
  as_number widen (number x) fallback = x
  as_number widen (integer n) fallback = widen n
  as_number widen _ fallback = fallback

  unfoldable pub as_string : Value D → Bytes → Bytes
  as_string (string s) fallback = s
  as_string _ fallback = fallback

  abbrev pub length_items : Items D → ℕ
  length_items nil = 0
  length_items (cons v xs) = suc (length_items xs)

  abbrev pub length_members : Members D → ℕ
  length_members end = 0
  length_members (member k v ms) = suc (length_members ms)

  -- The test of a `double` against 0.0 is the argument.
  unfoldable pub truthy : (D → Bool) → Value D → Bool
  truthy is_zero null = false
  truthy is_zero (boolean b) = b
  truthy is_zero (integer n) = not (same_int n (pos 0))
  truthy is_zero (number x) = not (is_zero x)
  truthy is_zero (string s) = not (is_empty s)
  truthy is_zero (array xs) = not (length_items xs == 0)
  truthy is_zero (object ms) = not (length_members ms == 0)

  unfoldable pub size : Value D → ℕ
  size (array xs) = length_items xs
  size (object ms) = length_members ms
  size (string s) = length s
  size _ = 0

  unfoldable pub push_back : Items D → Value D → Items D
  push_back nil item = cons item nil
  push_back (cons v xs) item = cons v (push_back xs item)

  -- A value that is no array becomes one.
  unfoldable pub push : Value D → Value D → Value D
  unfolding push_back
  push (array xs) item = array (push_back xs item)
  push _ item = array (cons item nil)

  unfoldable pub item_at : Items D → ℕ → Value D
  item_at nil index = null
  item_at (cons v xs) zero = v
  item_at (cons v xs) (suc index) = item_at xs index

  unfoldable pub at : Value D → ℕ → Value D
  unfolding item_at
  at (array xs) index = item_at xs index
  at _ index = null

  unfoldable pub items : Value D → Items D
  items (array xs) = xs
  items _ = nil

  unfoldable pub set_member : Members D → Bytes → Value D → Members D
  set_member end key item = member key item end
  set_member (member k v ms) key item =
      if same_bytes k key then member k item ms else member k v (set_member ms key item)

  -- A value that is no object becomes one. An old key keeps its place.
  unfoldable pub set : Value D → Bytes → Value D → Value D
  unfolding set_member
  set (object ms) key item = object (set_member ms key item)
  set _ key item = object (member key item end)

  unfoldable pub find_member : Members D → Bytes → Option (Value D)
  find_member end key = none
  find_member (member k v ms) key = if same_bytes k key then some v else find_member ms key

  unfoldable pub find : Value D → Bytes → Option (Value D)
  unfolding find_member
  find (object ms) key = find_member ms key
  find _ key = none

  unfoldable pub contains : Value D → Bytes → Bool
  unfolding find
  contains v key = elim (find v key) [ none ↦ false | some item ↦ true ]

  -- `operator[]`
  unfoldable pub get_or_null : Value D → Bytes → Value D
  unfolding find
  get_or_null v key = elim (find v key) [ none ↦ null | some item ↦ item ]

  unfoldable pub members : Value D → Members D
  members (object ms) = ms
  members _ = end

  -- What one member of `over` does to `merged`; `deeper` is the merge of two objects.
  unfoldable pub merge_member : (Value D → Value D) → Value D → Bytes → Value D → Value D
  merge_member deeper merged key item = elim (find merged key) [
    | none ↦ set merged key item
    | some existing ↦
        if is_object existing && is_object item
        then set merged key (deeper existing)
        else set merged key item
  ]

unfoldable mutual
  -- The value over which is merged comes second, as in the source; the recursion is on it.
  pub deep_merge : {D : Type 0} → Value D → Value D → Value D
  deep_merge base null = null
  deep_merge base (boolean b) = boolean b
  deep_merge base (integer n) = integer n
  deep_merge base (number x) = number x
  deep_merge base (string s) = string s
  deep_merge base (array xs) = array xs
  deep_merge base (object ms) = if is_object base then merge_members base ms else object ms

  pub merge_members : {D : Type 0} → Value D → Members D → Value D
  merge_members merged end = merged
  merge_members merged (member key item ms) =
      merge_members (merge_member (λ existing. deep_merge existing item) merged key item) ms

unfoldable pub type_name : ValueType → Bytes
type_name null_type = codes "null"
type_name boolean_type = codes "boolean"
type_name integer_type = codes "integer"
type_name number_type = codes "number"
type_name string_type = codes "string"
type_name array_type = codes "array"
type_name object_type = codes "object"

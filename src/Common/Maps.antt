-- ===== src/Common/Maps.antt =====
-- `std::unordered_map<std::string, A>` and `std::unordered_set<std::string>` as lists: a key stands
-- at its first place.
use mathlib.Core.Path.{◌≡◌, refl, ap, sym, ◌∙◌}
use mathlib.Core.Logic.{inl, inr}
use mathlib.Core.Bool.{Bool, true, false}
use mathlib.Core.Option.{Option, none, some}
use mathlib.Core.List.{List, [], ◌∷◌}
use native.Mathlib.Omega.{arith}
use blogin.Common.Tests.{if◌then◌else◌, Bool-cases}
use blogin.Common.Strings.{Bytes, same_bytes}

pub same_bytes_refl : (xs : Bytes) → same_bytes xs xs ≡ true
unfolding same_bytes
same_bytes_refl [] = refl
same_bytes_refl (x ∷ xs) = ground (arith, same_bytes_refl xs)

pub same_bytes→eq : (xs ys : Bytes) → same_bytes xs ys ≡ true → xs ≡ ys
unfolding same_bytes
same_bytes→eq [] [] h = refl
same_bytes→eq [] (y ∷ ys) h = ground arith
same_bytes→eq (x ∷ xs) [] h = ground arith
same_bytes→eq (x ∷ xs) (y ∷ ys) h = ground (arith, same_bytes→eq xs ys)

-- Two keys that are not the same differ at any third that is the same as one of them.
pub same_bytes_other :
    (a b c : Bytes) → same_bytes a b ≡ false → same_bytes a c ≡ true → same_bytes b c ≡ false
same_bytes_other a b c h e = elim (Bool-cases (same_bytes b c)) [
  | inr f ↦ f
  | inl f ↦
      let moved = ap (λ x. same_bytes a x) (same_bytes→eq a c e ∙ sym (same_bytes→eq b c f)) in
      let self = same_bytes_refl a in absurd (ground arith)
]

module _ {ℓ} {A : Type ℓ} where
  -- `find`
  unfoldable pub find_key : List (Bytes × A) → Bytes → Option A
  find_key [] key = none
  find_key ((k, a) ∷ entries) key = if same_bytes k key then some a else find_key entries key

  -- `insert_or_assign`
  unfoldable pub assign : List (Bytes × A) → Bytes → A → List (Bytes × A)
  assign [] key a = (key, a) ∷ []
  assign ((k, b) ∷ entries) key a =
      if same_bytes k key then (k, a) ∷ entries else (k, b) ∷ assign entries key a

  pub find_key-assign :
      (entries : List (Bytes × A)) (key other : Bytes) (a : A)
      → find_key (assign entries key a) other
        ≡ (if same_bytes key other then some a else find_key entries other)
  unfolding find_key assign
  find_key-assign [] key other a = refl
  find_key-assign ((k, b) ∷ entries) key other a = elim (Bool-cases (same_bytes k key)) [
    | inl e ↦ rw (e, ap (λ x. same_bytes x other) (same_bytes→eq k key e)) (ground arith)
    | inr e ↦ elim (Bool-cases (same_bytes k other)) [
      | inl f ↦ rw (e, f, same_bytes_other k key other e f)
      | inr f ↦ rw (e, f) (find_key-assign entries key other a)
    ]
  ]

-- The second value where there is no first.
abbrev pub first_of {ℓ} : {A : Type ℓ} → Option A → Option A → Option A
first_of (some a) later = some a
first_of none later = later

-- `contains` of a set
unfoldable pub has_key : List Bytes → Bytes → Bool
has_key [] key = false
has_key (k ∷ keys) key = if same_bytes k key then true else has_key keys key

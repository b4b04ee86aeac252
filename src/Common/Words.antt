-- ===== src/Common/Words.antt =====
-- Laws of `&`, `|` and `^` at every width, from the recursion on binary digits that the native
-- operations stand for.
use Prim.Native.Nat.{
  ℕ, zero, suc, ◌+◌, ◌-◌, ◌*◌, ◌/◌, ◌%◌, ◌^◌, ◌≤◌, ◌<◌, min, max, bit_and, bit_or, bit_xor, digits,
  differ, bit_and-bitwise, bit_or-bitwise, bit_xor-bitwise,
}
use mathlib.Core.Logic.{◌⊎◌, inl, inr}
use mathlib.Core.Path.{◌≡◌, refl, ap, ◌∙◌}
use native.Mathlib.Nat.{
  pow-suc, one-le-pow, mod-lt, mod-eq_of_lt, div-add-mod', add-mul-mod_self_right,
}
use native.Mathlib.Omega.{arith}

-- More fuel than the first number has digits changes nothing.
more_fuel :
    (rest : ℕ → ℕ) (join : ℕ → ℕ → ℕ) (low high x y : ℕ)
    → x ≤ low
    → x ≤ high
    → digits rest join low x y ≡ digits rest join high x y
more_fuel rest join zero zero zero y l h = refl
more_fuel rest join zero (suc high) zero y l h = refl
more_fuel rest join (suc low) zero zero y l h = refl
more_fuel rest join (suc low) (suc high) zero y l h = refl
more_fuel rest join zero high (suc x) y l h = absurd (omega arith)
more_fuel rest join (suc low) zero (suc x) y l h = absurd (omega arith)
more_fuel rest join (suc low) (suc high) (suc x) y l h =
    ap (λ t. t * 2 + join (suc x % 2) (y % 2))
      (more_fuel rest join low high (suc x / 2) (y / 2) (omega arith) (omega arith))

lowest_digit :
    (rest : ℕ → ℕ) (join : ℕ → ℕ → ℕ) (x y : ℕ)
    → digits rest join (suc x) (suc x) y
      ≡ digits rest join (suc x / 2) (suc x / 2) (y / 2) * 2 + join (suc x % 2) (y % 2)
lowest_digit rest join x y =
    ap (λ t. t * 2 + join (suc x % 2) (y % 2))
      (more_fuel rest join x (suc x / 2) (suc x / 2) (y / 2) (omega arith) (omega arith))

pub or_digit : (x y : ℕ) → bit_or x y ≡ bit_or (x / 2) (y / 2) * 2 + max (x % 2) (y % 2)
or_digit zero y = omega (arith, bit_or-bitwise 0 y, bit_or-bitwise 0 (y / 2))
or_digit (suc x) y =
    bit_or-bitwise (suc x) y
    ∙ lowest_digit (λ b. b) max x y
    ∙ omega (arith, bit_or-bitwise (suc x / 2) (y / 2))

pub and_digit : (x y : ℕ) → bit_and x y ≡ bit_and (x / 2) (y / 2) * 2 + min (x % 2) (y % 2)
and_digit zero y = omega (arith, bit_and-bitwise 0 y, bit_and-bitwise 0 (y / 2))
and_digit (suc x) y =
    bit_and-bitwise (suc x) y
    ∙ lowest_digit (λ b. zero) min x y
    ∙ omega (arith, bit_and-bitwise (suc x / 2) (y / 2))

xor_zero_digit : (y : ℕ) → y ≡ y / 2 * 2 + differ 0 (y % 2)
xor_zero_digit y = omega arith

pub xor_digit : (x y : ℕ) → bit_xor x y ≡ bit_xor (x / 2) (y / 2) * 2 + differ (x % 2) (y % 2)
xor_digit zero y = omega (arith, bit_xor-bitwise 0 y, bit_xor-bitwise 0 (y / 2), xor_zero_digit y)
xor_digit (suc x) y =
    bit_xor-bitwise (suc x) y
    ∙ lowest_digit (λ b. b) differ x y
    ∙ omega (arith, bit_xor-bitwise (suc x / 2) (y / 2))

or_zero_below : (bound x : ℕ) → x ≤ bound → bit_or x 0 ≡ x
or_zero_below zero zero h = refl
or_zero_below zero (suc x) h = absurd (omega arith)
or_zero_below (suc bound) zero h = refl
or_zero_below (suc bound) (suc x) h =
    omega (arith, or_digit (suc x) 0, or_zero_below bound (suc x / 2) (omega arith))

and_zero_below : (bound x : ℕ) → x ≤ bound → bit_and x 0 ≡ 0
and_zero_below zero zero h = refl
and_zero_below zero (suc x) h = absurd (omega arith)
and_zero_below (suc bound) zero h = refl
and_zero_below (suc bound) (suc x) h =
    omega (arith, and_digit (suc x) 0, and_zero_below bound (suc x / 2) (omega arith))

double_shift : (x k : ℕ) → x * 2 ^ suc k ≡ x * 2 ^ k * 2
double_shift x k = omega (arith, ap (λ (t : ℕ). x * t) (pow-suc 2 k))

-- `(x << k) | y` is a sum where `y` fits in `k` bits.
pub or_shifted : (k x y : ℕ) → y < 2 ^ k → bit_or (x * 2 ^ k) y ≡ x * 2 ^ k + y
or_shifted zero x y h =
    ap (bit_or (x * 1)) {x = y} {y = 0} (omega arith)
    ∙ omega (arith, or_zero_below (x * 1) (x * 1) (omega arith))
or_shifted (suc k) x y h =
    or_digit (x * 2 ^ suc k) y
    ∙ ap (λ t. bit_or t (y / 2) * 2 + max (x * 2 ^ suc k % 2) (y % 2)) {x = x * 2 ^ suc k / 2}
        {y = x * 2 ^ k} (omega (arith, double_shift x k))
    ∙ omega (arith, double_shift x k, or_shifted k x (y / 2) (omega (arith, pow-suc 2 k)))

low_digit_mod : (k x : ℕ) → x % 2 ^ suc k ≡ x / 2 % 2 ^ k * 2 + x % 2
low_digit_mod k x =
    let low : ℕ = x / 2 % 2 ^ k * 2 + x % 2 in
    let high : ℕ = x / 2 / 2 ^ k in
    let fits = mod-lt (x / 2) (one-le-pow k 2 (omega arith)) in
    ap (λ t. t % 2 ^ suc k) {x = x} {y = low + high * 2 ^ suc k}
      (omega (arith, div-add-mod' (x / 2) (2 ^ k), double_shift high k))
    ∙ add-mul-mod_self_right low high (2 ^ suc k)
    ∙ mod-eq_of_lt (omega (arith, pow-suc 2 k))

-- A mask of `k` low bits is the remainder.
pub and_low : (k x : ℕ) → bit_and x (2 ^ k - 1) ≡ x % 2 ^ k
and_low zero x = omega (arith, and_zero_below x x (omega arith))
and_low (suc k) x =
    let pos = one-le-pow k 2 (omega arith) in
    and_digit x (2 ^ suc k - 1)
    ∙ ap (λ t. bit_and (x / 2) t * 2 + min (x % 2) ((2 ^ suc k - 1) % 2)) {x = (2 ^ suc k - 1) / 2}
        {y = 2 ^ k - 1} (omega (arith, pow-suc 2 k))
    ∙ omega (arith, low_digit_mod k x, and_low k (x / 2), pow-suc 2 k)

parity : (x : ℕ) → (x % 2 ≡ 0) ⊎ (x % 2 ≡ 1)
parity x = grind arith

differ_twice : (x y : ℕ) → differ (differ (x % 2) (y % 2)) (y % 2) ≡ x % 2
differ_twice x y = elim (parity x) [
  | inl e ↦ elim (parity y) [ inl f ↦ rw (e, f) | inr f ↦ rw (e, f) ]
  | inr e ↦ elim (parity y) [ inl f ↦ rw (e, f) | inr f ↦ rw (e, f) ]
]

differ-lt : (x y : ℕ) → differ (x % 2) (y % 2) < 2
differ-lt x y = elim (parity x) [
  | inl e ↦ elim (parity y) [ inl f ↦ rw (e, f) (omega arith) | inr f ↦ rw (e, f) (omega arith) ]
  | inr e ↦ elim (parity y) [ inl f ↦ rw (e, f) (omega arith) | inr f ↦ rw (e, f) (omega arith) ]
]

xor_halves :
    (x y : ℕ)
    → (bit_xor x y / 2 ≡ bit_xor (x / 2) (y / 2)) × (bit_xor x y % 2 ≡ differ (x % 2) (y % 2))
xor_halves x y = omega (arith, xor_digit x y, differ-lt x y)

-- The exclusive or of two numbers of `k` bits has `k` bits.
pub xor-lt : (k x y : ℕ) → x < 2 ^ k → y < 2 ^ k → bit_xor x y < 2 ^ k
xor-lt zero zero zero h g = omega arith
xor-lt zero (suc x) y h g = absurd (omega arith)
xor-lt zero zero (suc y) h g = absurd (omega arith)
xor-lt (suc k) x y h g =
    let double = pow-suc 2 k in
    let (half, low) = xor_halves x y in
    omega (arith, differ-lt x y, xor-lt k (x / 2) (y / 2) (omega arith) (omega arith))

-- `^` with the same mask twice gives the number back.
pub xor_twice : (k x y : ℕ) → x < 2 ^ k → y < 2 ^ k → bit_xor (bit_xor x y) y ≡ x
xor_twice zero zero zero h g = refl
xor_twice zero (suc x) y h g = absurd (omega arith)
xor_twice zero zero (suc y) h g = absurd (omega arith)
xor_twice (suc k) x y h g =
    let double = pow-suc 2 k in
    let (half, low) = xor_halves x y in
    xor_digit (bit_xor x y) y
    ∙ rw (half, low, differ_twice)
        (omega (arith, xor_twice k (x / 2) (y / 2) (omega arith) (omega arith)))

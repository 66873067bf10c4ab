-- ===== src/Value.antt =====
-- The values of points: C++ `double`.
-- A finite value is exact: its sign, its whole part and its fraction in units of 2 ^ -1074, the
-- smallest step between doubles. Only comparisons and `std::modf` are made of it. -0 is `finite
-- true 0 0` and equals 0, as in C++.
use iec104_python.Base.{ℕ, suc, Bool, true, false, not, ◌==◌, ltb, ◌&&◌, ◌||◌, ℤ, pos, negsuc}

pub data Double : Type 0 where
  nan infinity neg_infinity : Double
  finite : (negative : Bool) → (whole fraction : ℕ) → Double

abbrev pub int : ℤ → Double
int (pos n) = finite false n 0
int (negsuc n) = finite true (suc n) 0

abbrev magnitude_lt : ℕ → ℕ → ℕ → ℕ → Bool
magnitude_lt a f b g = ltb a b || (a == b && ltb f g)

abbrev is_zero : ℕ → ℕ → Bool
is_zero a f = a == 0 && f == 0

abbrev finite_eq : Bool → Bool → ℕ → ℕ → ℕ → ℕ → Bool
finite_eq true true a f b g = a == b && f == g
finite_eq false false a f b g = a == b && f == g
finite_eq _ _ a f b g = is_zero a f && is_zero b g

abbrev finite_lt : Bool → Bool → ℕ → ℕ → ℕ → ℕ → Bool
finite_lt true true a f b g = magnitude_lt b g a f
finite_lt true false a f b g = not (is_zero a f && is_zero b g)
finite_lt false true a f b g = false
finite_lt false false a f b g = magnitude_lt a f b g

-- `x == y`
abbrev pub double_eq : Double → Double → Bool
double_eq infinity infinity = true
double_eq neg_infinity neg_infinity = true
double_eq (finite s a f) (finite t b g) = finite_eq s t a f b g
double_eq _ _ = false

-- `x < y`
abbrev pub double_lt : Double → Double → Bool
double_lt nan _ = false
double_lt infinity _ = false
double_lt neg_infinity infinity = true
double_lt neg_infinity (finite t b g) = true
double_lt neg_infinity _ = false
double_lt (finite s a f) infinity = true
double_lt (finite s a f) (finite t b g) = finite_lt s t a f b g
double_lt (finite s a f) _ = false

-- `x <= y`
abbrev pub double_le : Double → Double → Bool
double_le x y = double_lt x y || double_eq x y

-- `std::modf(x, &int_part) != 0.0`
abbrev pub has_fraction : Double → Bool
has_fraction nan = true
has_fraction (finite s a f) = not (f == 0)
has_fraction _ = false

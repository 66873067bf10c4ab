-- ===== src/Point/Domain.antt =====
-- Which values a point of each type accepts as good.
use iec104_python.Base.{
  ℕ, suc, zero, ◌≡◌, ◌↔◌, ◌⊎◌, refl, true, false, inl, inr, Bool-cases, arith, ℤ, pos, negsuc, ◌≤ℤ◌,
}
use iec104_python.Value.{Double, nan, finite, int, double_eq, double_le}
use iec104_python.Point.Data.{DataPoint}
use iec104_python.Point.Update.{
  ValueKind, single, double, command_double, step, bits, normalized, scaled, short_float,
  integrated, unchecked, kind_of, is_rejected, set_value, set_value_ex,
}

-- The value is the whole number of some integer of the range.
abbrev pub IsWhole : (lo hi : ℤ) → Double → Type 0
IsWhole lo hi x = (n : ℤ) × (double_eq x (int n) ≡ true) × (lo ≤ℤ n) × (n ≤ℤ hi)

-- The value lies in the range, or is not a number.
abbrev pub IsWithin : (lo hi : ℤ) → Double → Type 0
IsWithin lo hi x = (x ≡ nan) ⊎ ((double_le (int lo) x ≡ true) × (double_le x (int hi) ≡ true))

-- The range of each kind of point: that of the messages of `setValueEx`, but for step positions that of
-- the comments on their messages and of the Python documentation.
abbrev pub InDomain : ValueKind → Double → Type 0
InDomain single x = IsWhole (pos 0) (pos 1) x
InDomain double x = IsWhole (pos 0) (pos 3) x
InDomain command_double x = IsWhole (pos 1) (pos 2) x
InDomain step x = IsWhole (negsuc 63) (pos 63) x
InDomain bits x = IsWhole (pos 0) (pos 4294967295) x
InDomain normalized x = IsWithin (negsuc 0) (pos 1) x
InDomain scaled x = IsWithin (negsuc 65535) (pos 65535) x
InDomain short_float x = Unit {0}
InDomain integrated x = IsWhole (negsuc 65535) (pos 65535) x
InDomain unchecked x = Unit {0}

-- What is accepted is that range, but for step positions, where -64 is not accepted and 64 is.
abbrev pub IsAccepted : ValueKind → Double → Type 0
IsAccepted step x =
    (InDomain step x × (double_eq x (int (negsuc 63)) ≡ false))
    ⊎ (double_eq x (int (pos 64)) ≡ true)
IsAccepted k x = InDomain k x

-- The whole number nearest to 0 from a finite value.
abbrev truncate : Double → ℤ
truncate (finite false a f) = pos a
truncate (finite true zero f) = pos 0
truncate (finite true (suc a) f) = negsuc a
truncate _ = pos 0

IsAccepted-is_rejected : (k : ValueKind) (x : Double) → IsAccepted k x → is_rejected k x ≡ false
unfolding is_rejected
IsAccepted-is_rejected single x (pos n, e, l, h) = ground arith
IsAccepted-is_rejected single x (negsuc n, e, l, h) = ground arith
IsAccepted-is_rejected double x (pos n, e, l, h) = ground arith
IsAccepted-is_rejected double x (negsuc n, e, l, h) = ground arith
IsAccepted-is_rejected command_double x (pos n, e, l, h) = ground arith
IsAccepted-is_rejected command_double x (negsuc n, e, l, h) = ground arith
IsAccepted-is_rejected step x (inl ((pos n, e, l, h), other)) = ground arith
IsAccepted-is_rejected step x (inl ((negsuc n, e, l, h), other)) = ground arith
IsAccepted-is_rejected step x (inr e) = ground arith
IsAccepted-is_rejected bits x (pos n, e, l, h) = ground arith
IsAccepted-is_rejected bits x (negsuc n, e, l, h) = ground arith
IsAccepted-is_rejected integrated x (pos n, e, l, h) = ground arith
IsAccepted-is_rejected integrated x (negsuc n, e, l, h) = ground arith
IsAccepted-is_rejected normalized x d = ground arith
IsAccepted-is_rejected scaled x d = ground arith
IsAccepted-is_rejected short_float x d = refl
IsAccepted-is_rejected unchecked x d = refl

is_rejected-IsAccepted : (k : ValueKind) (x : Double) → is_rejected k x ≡ false → IsAccepted k x
unfolding is_rejected
is_rejected-IsAccepted single x h = (truncate x, ground arith, ground arith, ground arith)
is_rejected-IsAccepted double x h = (truncate x, ground arith, ground arith, ground arith)
is_rejected-IsAccepted command_double x h = (truncate x, ground arith, ground arith, ground arith)
is_rejected-IsAccepted step x h = elim (Bool-cases (double_eq x (int (pos 64)))) [
  | inl e ↦ inr e
  | inr e ↦ inl ((truncate x, ground arith, ground arith, ground arith), ground arith)
]
is_rejected-IsAccepted bits x h = (truncate x, ground arith, ground arith, ground arith)
is_rejected-IsAccepted integrated x h = (truncate x, ground arith, ground arith, ground arith)
is_rejected-IsAccepted normalized x h = ground arith
is_rejected-IsAccepted scaled x h = ground arith
is_rejected-IsAccepted short_float x h = tt
is_rejected-IsAccepted unchecked x h = tt

pub is_rejected_iff : (k : ValueKind) (x : Double) → (is_rejected k x ≡ false) ↔ IsAccepted k x
is_rejected_iff k x = (is_rejected-IsAccepted k x, IsAccepted-is_rejected k x)

-- Setting a value without quality bits leaves the quality good exactly if the value is accepted, and
-- Invalid (0x80) otherwise. What is accepted is the range of the point's type, but for step positions:
-- of their documented range, -64 to 63, -64 is refused, and 64 is accepted too. For the single, double,
-- command, step, bit string and counter kinds the range is one of whole numbers, which leaves out NaN
-- and the infinities; for normalised and scaled values it is an interval together with NaN; short floats
-- and all other types accept any value.
pub set_value-quality :
    (now : ℕ) (x : Double) (p : DataPoint)
    → (((set_value now x p).quality ≡ 0) ↔ IsAccepted (kind_of p.type) x)
      × (((set_value now x p).quality ≡ 0) ⊎ ((set_value now x p).quality ≡ 128))
unfolding set_value set_value_ex
set_value-quality now x p =
    let k = kind_of p.type in
    (
      (
        λ q. is_rejected-IsAccepted k x (ground arith),
        λ d. ground (arith, IsAccepted-is_rejected k x d),
      ),
      ground arith,
    )

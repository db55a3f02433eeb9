-- ===== src/Decimal.antt =====
-- Decimal text: `std::to_string` of an unsigned integer, and `std::from_chars` into one of fewer
-- than `bound` values, which reads the longest run of digits and fails on none or on overflow.
pub mod RoundTrip
use thunderden.Base.{
  ℕ, zero, suc, ◌+◌, ◌-◌, ◌*◌, ◌/◌, ◌%◌, Bool, false, ◌==◌, ◌++◌, [], ◌∷◌, Option, none, some, ltb,
  if◌then◌else◌, is_empty, Bytes, is_digit,
}

unfoldable pub digits_of : ℕ → ℕ → Bytes
digits_of zero n = []
digits_of (suc fuel) n =
    let more = digits_of fuel (n / 10) ++ ((48 + n % 10) ∷ []) in
    if ltb n 10 then (48 + n) ∷ [] else more

-- A number has fewer digits than its successor.
unfoldable pub to_string : ℕ → Bytes
unfolding digits_of
to_string n = digits_of (suc n) n

unfoldable pub span_digits : Bytes → Bytes × Bytes
span_digits [] = ([], [])
span_digits (c ∷ s) = if is_digit c then (c ∷ (span_digits s).0, (span_digits s).1) else ([], c ∷ s)

unfoldable pub digits_value : ℕ → Bytes → ℕ
digits_value acc [] = acc
digits_value acc (d ∷ ds) = digits_value (acc * 10 + (d - 48)) ds

unfoldable pub from_chars : ℕ → Bytes → Option (ℕ × Bytes)
unfolding span_digits digits_value
from_chars bound s =
    let (ds, rest) = span_digits s in
    if is_empty ds
    then none
    else if ltb (digits_value 0 ds) bound
    then some (digits_value 0 ds, rest)
    else none

-- `text.front() == '0'`, false of the empty text.
abbrev pub starts_zero : Bytes → Bool
starts_zero [] = false
starts_zero (c ∷ s) = c == 48

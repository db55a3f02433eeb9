-- ===== src/Decimal/RoundTrip.antt =====
-- Printing and reading decimal numbers.
use thunderden.Base.{
  ℕ, zero, suc, ◌+◌, ◌-◌, ◌*◌, ◌/◌, ◌%◌, ◌<◌, ◌≤◌, ◌≡◌, refl, sym, ◌∙◌, Bool, true, false, ◌++◌, [],
  ◌∷◌, some, is_empty, Bytes, is_digit, all, append_assoc, arith, append-nil, all-append,
  is_empty-append_cons, lt→ltb, length,
}
use native.Mathlib.Decide.{dec_lt}
use thunderden.Decimal.{digits_of, to_string, span_digits, digits_value, from_chars, starts_zero}

digits_of_fuel : (f g n : ℕ) → n < f → n < g → digits_of f n ≡ digits_of g n
unfolding digits_of
digits_of_fuel zero g n h k = absurd (omega arith)
digits_of_fuel (suc f) zero n h k = absurd (omega arith)
digits_of_fuel (suc f) (suc g) n h k = ground (arith, digits_of_fuel f g (n / 10))

digits_of_long :
    (f n : ℕ) → 10 ≤ n → digits_of (suc f) n ≡ digits_of f (n / 10) ++ ((48 + n % 10) ∷ [])
unfolding digits_of
digits_of_long f n h = ground arith

pub to_string_step :
    (a d : ℕ) → 0 < a → d < 10 → to_string (a * 10 + d) ≡ to_string a ++ ((48 + d) ∷ [])
unfolding to_string
to_string_step a d ha hd =
    let q : (a * 10 + d) / 10 ≡ a = omega arith in
    let r : (a * 10 + d) % 10 ≡ d = omega arith in
    rw (digits_of_long (a * 10 + d) (a * 10 + d) (omega arith), q, r)
      (rw (digits_of_fuel (a * 10 + d) (suc a) a (omega arith) (omega arith)) refl)

pub to_string_small : (d : ℕ) → d < 10 → to_string d ≡ (48 + d) ∷ []
unfolding to_string digits_of
to_string_small d h = ground arith

-- A run of digits that goes on from a positive number is what that number's text goes on with.
pub to_string-digits_value :
    (ds : Bytes) (acc : ℕ)
    → 0 < acc
    → all is_digit ds ≡ true
    → to_string (digits_value acc ds) ≡ to_string acc ++ ds
unfolding digits_value
to_string-digits_value [] acc h k = sym (append-nil _)
to_string-digits_value (d ∷ ds) acc h k =
    let digit : (d - 48 < 10) × (48 + (d - 48) ≡ d) = ground arith in
    to_string-digits_value ds (acc * 10 + (d - 48)) (omega arith) (ground arith)
    ∙ rw (to_string_step acc (d - 48) h digit.0, digit.1, append_assoc) refl

pub digits_value-append :
    (s t : Bytes) (acc : ℕ) → digits_value acc (s ++ t) ≡ digits_value (digits_value acc s) t
unfolding digits_value
digits_value-append [] t acc = refl
digits_value-append (d ∷ s) t acc = digits_value-append s t (acc * 10 + (d - 48))

abbrev IsText : ℕ → Bytes → Type 0
IsText n s = (all is_digit s ≡ true) × (digits_value 0 s ≡ n) × (is_empty s ≡ false)

digits_of-IsText : (f n : ℕ) → n < f → IsText n (digits_of f n)
unfolding digits_of
digits_of-IsText zero n h = absurd (omega arith)
digits_of-IsText (suc f) n h = elim (dec_lt n 10) [
  | yes a ↦ unfold digits_value in ground arith
  | no a ↦
      let (d, v, e) = digits_of-IsText f (n / 10) (omega arith) in
      let s = digits_of f (n / 10) in
      let last : Bytes = (48 + n % 10) ∷ [] in
      rw (digits_of_long f n (omega arith)) (
        ground (arith, all-append is_digit s last),
        digits_value-append s last 0 ∙ rw v (unfold digits_value in omega arith),
        is_empty-append_cons s [] (48 + n % 10),
      )
]

-- The text of `n` is a run of digits of that value, and is not empty.
pub to_string-IsText : (n : ℕ) → IsText n (to_string n)
unfolding to_string
to_string-IsText n = digits_of-IsText (suc n) n (omega arith)

pub span_digits-shorter : (s : Bytes) → length (span_digits s).1 ≤ length s
unfolding span_digits
span_digits-shorter [] = omega arith
span_digits-shorter (c ∷ s) = ground (arith, span_digits-shorter s)

abbrev pub starts_digit : Bytes → Bool
starts_digit [] = false
starts_digit (c ∷ s) = is_digit c

pub span_digits-append :
    (s rest : Bytes)
    → all is_digit s ≡ true
    → starts_digit rest ≡ false
    → span_digits (s ++ rest) ≡ (s, rest)
unfolding span_digits
span_digits-append [] [] h k = refl
span_digits-append [] (c ∷ rest) h k = rw k refl
span_digits-append (c ∷ s) rest h k = ground (arith, span_digits-append s rest)

pub from_chars-to_string :
    (bound n : ℕ) (rest : Bytes)
    → n < bound
    → starts_digit rest ≡ false
    → from_chars bound (to_string n ++ rest) ≡ some (n, rest)
unfolding from_chars
from_chars-to_string bound n rest h k =
    let (d, v, e) = to_string-IsText n in
    rw (span_digits-append (to_string n) rest d k) (rw (e, v, lt→ltb n bound h))

pub span_digits_parts :
    (s : Bytes)
    → (s ≡ (span_digits s).0 ++ (span_digits s).1) × (all is_digit (span_digits s).0 ≡ true)
unfolding span_digits
span_digits_parts [] = (refl, refl)
span_digits_parts (c ∷ s) = ground (arith, span_digits_parts s)

-- A run of digits with no leading zero is the text of its value.
pub to_string-canonical :
    (s : Bytes)
    → all is_digit s ≡ true
    → is_empty s ≡ false
    → starts_zero s ≡ false
    → to_string (digits_value 0 s) ≡ s
unfolding digits_value
to_string-canonical [] h e z = cc
to_string-canonical (d ∷ ds) h e z =
    let digit : (0 < d - 48) × (d - 48 < 10) × (48 + (d - 48) ≡ d) = ground arith in
    let zero_times : 0 * 10 + (d - 48) ≡ d - 48 = omega arith in
    rw zero_times (
      to_string-digits_value ds (d - 48) digit.0 (ground arith)
      ∙ rw (to_string_small (d - 48) digit.1, digit.2) refl)

starts_zero-append : (s t : Bytes) → is_empty s ≡ false → starts_zero (s ++ t) ≡ starts_zero s
starts_zero-append [] t h = cc
starts_zero-append (c ∷ s) t h = refl

starts_zero-digits_of : (f n : ℕ) → n < f → 0 < n → starts_zero (digits_of f n) ≡ false
unfolding digits_of
starts_zero-digits_of zero n h k = absurd (omega arith)
starts_zero-digits_of (suc f) n h k = elim (dec_lt n 10) [
  | yes a ↦ ground arith
  | no a ↦
      rw
        (
          digits_of_long f n (omega arith),
          starts_zero-append (digits_of f (n / 10)) ((48 + n % 10) ∷ [])
              (digits_of-IsText f (n / 10) (omega arith)).2,
        )
        (starts_zero-digits_of f (n / 10) (omega arith) (omega arith))
]

-- The text of a positive number has no leading zero.
pub starts_zero-to_string : (n : ℕ) → 0 < n → starts_zero (to_string n) ≡ false
unfolding to_string
starts_zero-to_string n h = starts_zero-digits_of (suc n) n (omega arith) h

pub from_chars-inversion :
    (bound n : ℕ) (s rest : Bytes)
    → from_chars bound s ≡ some (n, rest)
    → (ds : Bytes) × (s ≡ ds ++ rest)
      × (all is_digit ds ≡ true)
      × (is_empty ds ≡ false)
      × (digits_value 0 ds ≡ n)
      × (n < bound)
unfolding from_chars
from_chars-inversion bound n s rest e =
    let ds = (span_digits s).0 in
    let (split, digits) = span_digits_parts s in
    (ds, ground (arith, split), digits, ground arith, ground arith, ground arith)

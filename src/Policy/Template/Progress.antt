-- ===== src/Policy/Template/Progress.antt =====
-- Each round of the loop over a policy's text takes a character at least, so that fuel for the
-- text's length is enough: more fuel changes nothing.
use thunderden.Base.{
  ℕ, zero, suc, ◌+◌, ◌^◌, ◌≤◌, ◌<◌, ◌≡◌, refl, true, false, not, ◌&&◌, ◌||◌, [], ◌∷◌, ◌++◌, ltb,
  leb, ◌==◌, List, length, is_empty, Result, ok, err, or_throw, get_elem?, Bytes, codes,
  starts_with, Ensures, returns, Ensures-bind, Ensures-require, Ensures-if, Ensures-value, arith,
  Result-cases, inl, inr, drop, length-drop, if◌then◌else◌, Bool-cases,
}
use thunderden.Decimal.{from_chars, span_digits, starts_zero}
use thunderden.Decimal.RoundTrip.{span_digits-shorter}
use thunderden.Keys.{hardened}
use thunderden.Policy.{Reference}
use thunderden.Policy.KeyText.{number, take_token}
use thunderden.Policy.Template.{
  Scan, has_index, branches, new_paths, run_of_lower, nest, reference, plain, round, scan,
  is_policy_char, expansion, with_reference, with_char,
}

abbrev Shorter {ℓ} : {A : Type ℓ} → Bytes → A × Bytes → Type 0
Shorter s r = length r.1 ≤ length s

number-Shorter : (s : Bytes) → Ensures (Shorter {A = ℕ} s) (number s)
unfolding number
number-Shorter s =
    let digits = (span_digits s).0 in
    Ensures-require (not (is_empty digits) && (length digits == 1 || not (starts_zero digits))) _
      λ _. Ensures-bind (or_throw (from_chars (2 ^ 32) digits) _) λ (value, end) _.
        Ensures-require (ltb value hardened) _
          λ _. returns {a = (value, (span_digits s).1)} (span_digits-shorter s)

take_token-shorter :
    (token s : Bytes) → Ensures (λ (r : Bytes). length r ≤ length s) (take_token token s)
unfolding take_token
take_token-shorter token s =
    Ensures-require (starts_with s token) _
      λ _. returns {a = drop (length token) s} (omega (arith, length-drop (length token) s))

branches-shorter : (s : Bytes) → Ensures (λ (r : ℕ × ℕ × Bytes). length r.2 ≤ length s) (branches s)
unfolding branches
branches-shorter s =
    Ensures-if (starts_with s (codes "**"))
      (λ _. returns {a = (0, 1, drop 2 s)} (omega (arith, length-drop 2 s)))
      (λ _. Ensures-bind (take_token (codes "<") s) λ s1 e1.
        Ensures-bind (number s1) λ (receive, s2) e2.
          Ensures-bind (take_token (codes ";") s2) λ s3 e3.
            Ensures-bind (number s3) λ (change, s4) e4.
              Ensures-bind (take_token (codes ">/*") s4) λ s5 e5.
                returns {a = (receive, change, s5)} (
                  omega (
                    arith,
                    Ensures-value (take_token-shorter (codes "<") s) s1 e1,
                    Ensures-value (number-Shorter s1) (receive, s2) e2,
                    Ensures-value (take_token-shorter (codes ";") s2) s3 e3,
                    Ensures-value (number-Shorter s3) (change, s4) e4,
                    Ensures-value (take_token-shorter (codes ">/*") s4) s5 e5,
                  )))

module _ (key_texts : List Bytes) where
  reference-shorter :
      (s : Scan) (after : Bytes)
      → Ensures (λ (s' : Scan). length s'.rest ≤ length after) (reference key_texts s after)
  unfolding reference with_reference
  reference-shorter s after = Ensures-bind (number after) λ (index, s1) e1.
      Ensures-bind (or_throw (get_elem? key_texts index) "Unknown policy key") λ text _.
        Ensures-require (has_index index s.seen || index == length s.seen) _ λ _.
          Ensures-bind (take_token (codes "/") s1) λ s2 e2.
            Ensures-bind (branches s2) λ (receive, change, s3) e3.
              Ensures-require (new_paths index receive change s.paths) _ λ _.
                Ensures-require (leb (length s.references + 1) 128) _ λ _.
                  Ensures-require (leb (length (s.expanded ++ expansion text receive change)) 65536)
                    _
                    λ _.
                      let r : Reference = record {
                        key = index;
                        receive = receive;
                        change = change;
                      } in
                      returns
                        {a = with_reference s after s3 r
                          (s.expanded ++ expansion text receive change)}
                        (omega (
                          arith,
                          Ensures-value (number-Shorter after) (index, s1) e1,
                          Ensures-value (take_token-shorter (codes "/") s1) s2 e2,
                          Ensures-value (branches-shorter s2) (receive, change, s3) e3,
                        ))

  round-shorter :
      (s : Scan) (rest : Bytes)
      → is_empty rest ≡ false
      → Ensures (λ (s' : Scan). length s'.rest < length rest) (round key_texts s rest)
  unfolding round plain with_char
  round-shorter s [] h = cc
  round-shorter s (c ∷ after) h =
      Ensures-if (c == b'@') (λ _. weaken (reference key_texts s after) (reference-shorter s after))
        (λ _. Ensures-require (is_policy_char c) _ λ _. Ensures-bind (nest c s.nesting) λ nesting _.
          let wrappers : ℕ = if c == b':' then s.wrappers + run_of_lower s.before else s.wrappers in
          Ensures-require (leb wrappers 64 || not (c == b':')) _
            λ _. returns {a = with_char s c after nesting wrappers} (omega arith))
    where
      weaken :
          (m : Result Scan)
          → Ensures (λ (s' : Scan). length s'.rest ≤ length after) m
          → Ensures (λ (s' : Scan). length s'.rest < suc (length after)) m
      weaken (ok s') k = returns {a = s'} (omega (arith, Ensures-value k s' refl))
      weaken (err e) k = Ensures.throws

  none_left : (s : Bytes) → length s ≤ 0 → is_empty s ≡ true
  none_left [] h = refl
  none_left (c ∷ s) h = absurd (omega arith)

  -- The loop's result does not depend on its fuel, once that is the length of the text left.
  pub scan_enough :
      (f g : ℕ) (s : Scan)
      → length s.rest ≤ f
      → length s.rest ≤ g
      → scan key_texts f s ≡ scan key_texts g s
  unfolding scan
  scan_enough zero zero s h k = refl
  scan_enough zero (suc g) s h k = rw (none_left s.rest h, scan) refl
  scan_enough (suc f) zero s h k = rw (none_left s.rest k, scan) refl
  scan_enough (suc f) (suc g) s h k = elim (Bool-cases (is_empty s.rest)) [
    | inl e ↦ rw (e, scan) refl
    | inr e ↦ elim (Result-cases (round key_texts s s.rest)) [
      | inl (s', r) ↦
          let less = Ensures-value (round-shorter s s.rest e) s' r in
          rw (e, scan, r) (scan_enough f g s' (omega arith) (omega arith))
      | inr (m, r) ↦ rw (e, scan, r) refl
    ]
  ]

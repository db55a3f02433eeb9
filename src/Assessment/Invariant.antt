-- ===== src/Assessment/Invariant.antt =====
-- src/assessment_progress.cpp, Record: what holds of the progress after any bytes of the worker.
use mathlib.Core.Path.{subst}
use thunderden.Base.{
  ℕ, ◌+◌, ◌-◌, ◌≤◌, ◌≡◌, sym, ap, ◌∙◌, ◌⊎◌, inl, inr, true, false, not, ◌&&◌, ◌||◌, [], ◌∷◌, ◌++◌,
  Option, some, is_some, not-is_some, leb, ◌==◌, ==_iff, if◌then◌else◌, leb→le, and-true, length,
  get_or, ok, ◌>>◌, require, Bytes, arith, Bool-cases, Ensures, returns, Ensures-bind,
  Ensures-require, Ensures-if, Ensures-value, Ensures-weaken, append-nil,
}
use thunderden.Assessment.{
  Wire, Progress, Update, record_size, max_records, test_samples, group, current, parse, set_result,
  is_input, is_check, is_result, is_counter, input_update, check_update, take_record, feed,
}
use thunderden.Assessment.Chunks.{HasRoom, feed_byte, feed_bytes, feed_chunks}

module _ (wire : Wire) where
  pub record Inv (p : Progress wire) : Type 0 where
    pub few : p.records ≤ max_records
    pub known_alphabet : p.alphabet ≤ 3
    pub known_test : p.test ≤ 10
    pub not_six : (p.test == 6) ≡ false
    pub counted : (p.test ≡ 0) ⊎ ((1 ≤ p.total) × (p.processed ≤ p.total))

  -- The group of checks never moves backwards, and a result that is there stays.
  pub record Advances (p q : Progress wire) : Type 0 where
    pub forward : current wire p ≤ current wire q
    pub kept : (b t : ℕ) (e : wire.Double) → p.results b t ≡ some e → q.results b t ≡ some e

  set_result-kept :
      (x y : ℕ) (estimate : wire.Double) (results : ℕ → ℕ → Option wire.Double)
      → not (is_some (results x y)) ≡ true
      → (b t : ℕ) (e : wire.Double) → results b t ≡ some e
      → set_result wire x y estimate results b t ≡ some e
  unfolding set_result
  set_result-kept x y estimate results unset b t e h = elim (Bool-cases (b == x && t == y)) [
    | inr other ↦ rw (other) h
    | inl here ↦
        let (bx, ty) = and-true (b == x) (t == y) here in
        let at : results x y ≡ some e =
          subst (λ n. results n y ≡ some e) ((==_iff b x).0 bx)
            (subst (λ n. results b n ≡ some e) ((==_iff t y).0 ty) h) in
        (let bad = not-is_some (results x y) unset in cc)
  ]

  -- The parts of the test on a record that the invariant rests on.
  check_facts :
      (p : Progress wire) (u : Update wire)
      → is_check wire p u ≡ true
      → (1 ≤ u.test) × (u.test ≤ 10) × (1 ≤ u.total) × (u.processed ≤ u.total)
  unfolding is_check
  check_facts p u h =
      let (_, h1) = and-true (leb 2 p.alphabet) _ h in
      let (_, h2) = and-true (leb 1 u.kind) _ h1 in
      let (_, h3) = and-true (leb u.kind 3) _ h2 in
      let (a, h4) = and-true (leb 1 u.test) _ h3 in
      let (b, h5) = and-true (leb u.test 10) _ h4 in
      let (_, h6) = and-true (leb 1 u.branch) _ h5 in
      let (_, h7) = and-true (leb u.branch 2) _ h6 in
      let (_, h8) = and-true (not (u.branch == 2) || p.alphabet == 3) _ h7 in
      let (_, h9) =
        and-true (not (p.alphabet == 3 && (u.branch == 1 && (leb 2 u.test && leb u.test 4)))) _
          h8 in
      let (c, h10) = and-true (u.total == (if u.branch == 1 then test_samples else 1000000)) _ h9 in
      let (d, _) = and-true (leb u.processed u.total) _ h10 in
      let total_is = (==_iff u.total (if u.branch == 1 then test_samples else 1000000)).0 c in
      (
        leb→le 1 u.test a,
        leb→le u.test 10 b,
        ground (arith, total_is),
        leb→le u.processed u.total d,
      )

  is_result-unset :
      (p : Progress wire) (u : Update wire)
      → is_result wire p u ≡ true
      → not (is_some (p.results (u.branch - 1) (u.test - 1))) ≡ true
  unfolding is_result
  is_result-unset p u h =
      let (_, h1) = and-true (u.processed == u.total) _ h in
      let (_, h2) = and-true (wire.is_at_least_minus_one u.estimate) _ h1 in
      let (_, h3) =
        and-true (wire.is_minus_one u.estimate || wire.is_at_least_zero u.estimate) _ h2 in
      (and-true (wire.is_at_most u.estimate (if u.branch == 2 || p.alphabet == 2 then 1 else 8)) _
        h3).1

  checked :
      (p : Progress wire) (u : Update wire)
      → Inv p
      → Ensures (λ (q : Progress wire). Inv q × Advances p q) (check_update wire p u)
  unfolding check_update
  checked p u inv = Ensures-require (is_check wire p u) _ λ c.
      Ensures-require (leb (current wire p) (group u.test)) _ λ forward.
        Ensures-bind
          (if u.kind == 3
            then (require (is_result wire p u) _
                >> ok (set_result wire (u.branch - 1) (u.test - 1) u.estimate p.results))
            else (require (is_counter wire u) _ >> ok p.results))
          λ results e.
            let (low, high, some_total, within) = check_facts p u c in
            returns (
              record {
                few = inv.few;
                known_alphabet = inv.known_alphabet;
                known_test = ground (arith, high);
                not_six = ground (arith, high);
                counted = inr (some_total, within);
              },
              record {
                forward = ground (arith, leb→le (current wire p) (group u.test) forward);
                kept =
                    Ensures-value
                      {P = λ (rs : ℕ → ℕ → Option wire.Double).
                        (b t : ℕ) (x : wire.Double) → p.results b t ≡ some x → rs b t ≡ some x}
                      (Ensures-if (u.kind == 3)
                        (λ _. Ensures-require (is_result wire p u) _ λ r. returns (
                          set_result-kept (u.branch - 1) (u.test - 1) u.estimate p.results
                            (is_result-unset p u r)))
                        (λ _. Ensures-require (is_counter wire u) _ λ _. returns (λ b t x h. h)))
                      results e;
              },
            )

  input_kept :
      (p : Progress wire) (u : Update wire)
      → Inv p
      → Ensures (λ (q : Progress wire). Inv q × Advances p q) (input_update wire p u)
  unfolding input_update is_input
  input_kept p u inv = Ensures-require (is_input wire p u) _ λ c.
      let (_, h1) = and-true (p.alphabet == 0) _ c in
      let (_, h2) = and-true (u.test == 0) _ h1 in
      let (_, h3) = and-true (leb 1 u.branch) _ h2 in
      let (d, _) = and-true (leb u.branch 3) _ h3 in
      returns (
        record {
          few = inv.few;
          known_alphabet = leb→le u.branch 3 d;
          known_test = inv.known_test;
          not_six = inv.not_six;
          counted = inv.counted;
        },
        record { forward = omega arith; kept = λ b t e h. h },
      )

  record_kept :
      (p : Progress wire)
      → Inv p
      → Ensures (λ (q : Progress wire). Inv q × Advances p q) (take_record wire p)
  unfolding take_record
  record_kept p inv =
      Ensures-require (leb (p.records + 1) max_records && get_or p.pending 3 0 == 0) _ λ c.
        let (few, _) = and-true (leb (p.records + 1) max_records) _ c in
        let p' : Progress wire = record p { records = p.records + 1; pending = [] } in
        let inv' : Inv p' = record {
          few = leb→le (p.records + 1) max_records few;
          known_alphabet = inv.known_alphabet;
          known_test = inv.known_test;
          not_six = inv.not_six;
          counted = inv.counted;
        } in
        Ensures-if ((parse wire p.pending).kind == 0)
          (λ _.
            Ensures-weaken (λ q (i, a). (i, record { forward = a.forward; kept = a.kept }))
              (input_kept p' (parse wire p.pending) inv'))
          (λ _.
            Ensures-weaken (λ q (i, a). (i, record { forward = a.forward; kept = a.kept }))
              (checked p' (parse wire p.pending) inv'))

  byte_kept :
      (p : Progress wire) (c : ℕ)
      → Inv p
      → Ensures (λ (q : Progress wire). Inv q × Advances p q) (feed_byte wire p c)
  byte_kept p c inv =
      let p' : Progress wire = record p { pending = p.pending ++ (c ∷ []) } in
      let inv' : Inv p' = record {
        few = inv.few;
        known_alphabet = inv.known_alphabet;
        known_test = inv.known_test;
        not_six = inv.not_six;
        counted = inv.counted;
      } in
      Ensures-if (length p'.pending == record_size)
        (λ _.
          Ensures-weaken (λ q (i, a). (i, record { forward = a.forward; kept = a.kept }))
            (record_kept p' inv'))
        (λ _. returns (inv', record { forward = omega arith; kept = λ b t e h. h }))

  bytes_kept :
      (p : Progress wire) (s : Bytes)
      → Inv p
      → Ensures (λ (q : Progress wire). Inv q × Advances p q) (feed_bytes wire p s)
  bytes_kept p [] inv = returns (inv, record { forward = omega arith; kept = λ b t e h. h })
  bytes_kept p (c ∷ s) inv = Ensures-bind (feed_byte wire p c) λ q e.
      let (inv', first) = Ensures-value (byte_kept p c inv) q e in
      Ensures-weaken
        (λ r (i, a). (
          i,
          record {
            forward = omega (arith, first.forward, a.forward);
            kept = λ b t x h. a.kept b t x (first.kept b t x h);
          },
        ))
        (bytes_kept q s inv')

  -- From a progress in its invariant, whatever bytes are read, the progress is again in it: at most 4096 records, a known
  -- alphabet and test, and, once a check has begun, a total of at least one that bounds the count, so that
  -- the percentage is defined. The checks never move backwards, and no result is replaced or lost.
  pub feed_keeps :
      (p q : Progress wire) (s : Bytes)
      → Inv p
      → HasRoom wire p
      → feed wire p s ≡ ok q
      → Inv q × Advances p q
  feed_keeps p q s inv room e = Ensures-value (bytes_kept p s inv) q (
      sym (ap (feed_bytes wire p) (append-nil s))
      ∙ (sym (feed_chunks wire p s [] room).0 ∙ (ap (feed wire p) (append-nil s) ∙ e)))

-- ===== src/Transaction/Review/Outputs.antt =====
-- src/transaction.cpp, the constructor of ReviewedTransaction: the outputs that are shown.
use thunderden.Base.{
  ℕ, ◌+◌, ◌≤◌, ◌≡◌, refl, List, [], ◌∷◌, Option, none, some, if◌then◌else◌, is_some, length, ok,
  arith, Ensures, returns, Ensures-bind, Ensures-value, ok-injective,
}
use thunderden.Core.{Core}
use thunderden.Policy.{Position, Policy}
use thunderden.Transaction.Library.{Bitcoin, TxOut, PsbtOutput, Psbts}
use thunderden.Transaction.{max_money, add_amount}
use thunderden.Transaction.Locate.{locate}
use thunderden.Transaction.Read.Fee.{add_amount_exact}
use thunderden.Transaction.Review.{OutputReview, review_outputs}

module _ (core : Core) (bitcoin : Bitcoin core) (lib : Psbts core bitcoin) where
  -- The outputs shown, in order, with the amount, the script and the position of each, and the sum of the amounts that
  -- the wallet recognizes.
  pub data ShowsOutputs (policy : Policy core)
      : List (TxOut core)
        → List (PsbtOutput core bitcoin)
        → List (OutputReview core bitcoin)
        → Type 0 where
    none_left : ShowsOutputs policy [] [] []
    shows :
        {output : TxOut core} {outputs : List (TxOut core)} {m : PsbtOutput core bitcoin}
        {more : List (PsbtOutput core bitcoin)} {r : OutputReview core bitcoin}
        {rs : List (OutputReview core bitcoin)}
        → r.amount ≡ output.value
        → r.script ≡ output.script
        → locate core policy output.script m.hd_keypaths m.tap_paths ≡ ok r.position
        → ShowsOutputs policy outputs more rs
        → ShowsOutputs policy (output ∷ outputs) (m ∷ more) (r ∷ rs)

  abbrev pub sum_recognized : List (OutputReview core bitcoin) → ℕ
  sum_recognized [] = 0
  sum_recognized (r ∷ rs) = (if is_some r.position then r.amount else 0) + sum_recognized rs

  pub review_outputs_lem :
      (policy : Policy core) (outputs : List (TxOut core)) (more : List (PsbtOutput core bitcoin))
      (total : ℕ)
      → length outputs ≡ length more
      → total ≤ max_money
      → Ensures
          (λ (x : List (OutputReview core bitcoin) × ℕ).
            ShowsOutputs policy outputs more x.0
            × (x.1 ≡ total + sum_recognized x.0)
            × (x.1 ≤ max_money))
          (review_outputs core bitcoin lib policy outputs more total)
  unfolding review_outputs
  review_outputs_lem policy [] [] total same low = returns (none_left, omega arith, low)
  review_outputs_lem policy [] (m ∷ more) total same low =
      (let bad : ⊥ = omega (arith, same) in absurd bad)
  review_outputs_lem policy (o ∷ outputs) [] total same low =
      (let bad : ⊥ = omega (arith, same) in absurd bad)
  review_outputs_lem policy (o ∷ outputs) (m ∷ more) total same low =
      Ensures-bind (locate core policy o.script m.hd_keypaths m.tap_paths) λ position a.
        Ensures-bind (if is_some position then add_amount total o.value else ok total) λ total' b.
          let (exact, high) = counted total o.value total' position low b in
          Ensures-bind (review_outputs core bitcoin lib policy outputs more total') λ x c.
            let (shown, sum, top) =
              Ensures-value
                (review_outputs_lem policy outputs more total' (omega (arith, same)) high) x c in
            returns (shows refl refl a shown, omega (arith, sum, exact), top)
    where
      counted :
          (total amount total' : ℕ) (position : Option Position)
          → total ≤ max_money
          → (if is_some position then add_amount total amount else ok total) ≡ ok total'
          → (total' ≡ total + (if is_some position then amount else 0)) × (total' ≤ max_money)
      counted total amount total' none low e =
          let same : total ≡ total' = ok-injective total total' e in
          (omega (arith, same), omega (arith, same, low))
      counted total amount total' (some p) low e =
          let (exact, high, _) = add_amount_exact total amount total' low e in (exact, high)

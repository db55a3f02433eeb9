-- ===== src/Transaction/Review/Authorized.antt =====
-- src/transaction.cpp, the constructor of ReviewedTransaction: what a review is of.
use thunderden.Base.{
  ◌≡◌, refl, ap, ◌∙◌, true, false, [], ok, Bytes, Ensures, returns, Ensures-bind, Ensures-require,
}
use thunderden.Core.{Core}
use thunderden.Keys.{Keys}
use thunderden.Policy.{Policy}
use thunderden.Policy.Owner.{authorized, is_default}
use thunderden.Transaction.Library.{Bitcoin, Psbts}
use thunderden.Transaction.Read.{PsbtData}
use thunderden.Transaction.Review.{
  Progress, ReviewedTransaction, review_inputs, review_outputs, review_transaction, estimate,
  any_input, is_recognized,
}

module _ (core : Core) (bitcoin : Bitcoin core) (lib : Psbts core bitcoin) where
  -- A review keeps the policy, the tag and the request that it was made for, and the tag authorizes the policy.
  abbrev pub ReviewOf :
      PsbtData core bitcoin lib
      → Policy core
      → Keys core
      → Bytes
      → ReviewedTransaction core bitcoin lib
      → Type 0
  ReviewOf request policy session tag t =
      (t.request ≡ request)
      × (t.policy ≡ policy)
      × (t.tag ≡ tag)
      × (authorized core policy session tag ≡ ok true)

  pub review-authorized :
      (request : PsbtData core bitcoin lib) (policy : Policy core) (session : Keys core)
      (tag chain : Bytes)
      → Ensures
          (ReviewOf request policy session tag)
          (review_transaction core bitcoin lib request policy session tag chain)
  unfolding review_transaction is_recognized
  review-authorized request policy session tag chain =
      Ensures-bind (authorized core policy session tag) λ allowed a. Ensures-require allowed _ λ b.
        Ensures-bind (is_default core policy session) λ standard _.
          let psbt = request.psbt in
          let start : Progress core bitcoin lib = record {
            public_psbt = psbt;
            recognized_inputs = 0;
            unrecognized_inputs = 0;
            fee_unverified = false;
            inputs = [];
          } in
          Ensures-bind
            (review_inputs core bitcoin lib policy request 0 psbt.tx.inputs psbt.inputs
              request.utxos start)
            λ s _.
              Ensures-require (any_input core bitcoin lib (is_recognized core bitcoin lib) s.inputs)
                _
                λ _.
                  Ensures-bind
                    (review_outputs core bitcoin lib policy psbt.tx.outputs psbt.outputs 0)
                    λ x _.
                      Ensures-bind (estimate core bitcoin lib policy s.public_psbt 0 s.inputs)
                        λ vsize _. returns (refl, refl, refl, a ∙ ap ok b)

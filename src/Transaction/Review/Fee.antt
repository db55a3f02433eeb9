-- ===== src/Transaction/Review/Fee.antt =====
-- src/transaction.cpp, the constructor of ReviewedTransaction: the inputs that are shown, and the fee.
use mathlib.Core.Path.{subst}
use thunderden.Base.{
  ℕ, ◌+◌, ◌≤◌, ◌≡◌, refl, sym, ap, ◌∙◌, ◌⊎◌, inl, inr, Bool, true, false, not, List, [], ◌∷◌, ◌++◌,
  length, ok, Bytes, arith, append_assoc, append-nil, Bool-cases, Ensures, returns, Ensures-bind,
  Ensures-require, Ensures-value, Ensures-weaken,
}
use thunderden.Core.{Core}
use thunderden.Keys.{Keys}
use thunderden.Policy.{Policy}
use thunderden.Policy.Owner.{authorized, is_default}
use thunderden.Transaction.Library.{Bitcoin, TxOut, TxIn, PsbtInput, Psbts}
use thunderden.Transaction.{max_money}
use thunderden.Transaction.Read.{PsbtData}
use thunderden.Transaction.Review.{
  InputReview, Progress, ReviewedTransaction, review_input, review_inputs, review_outputs,
  review_transaction, estimate, any_input, is_recognized,
}
use thunderden.Transaction.Review.Inputs.{own_amount, Shows, Guarded, Round, review_input_lem}
use thunderden.Transaction.Review.Outputs.{ShowsOutputs, sum_recognized, review_outputs_lem}

module _ (core : Core) (bitcoin : Bitcoin core) (lib : Psbts core bitcoin) where
  -- The inputs shown, in order: each with its facts, and guarded where the fee counts as verified.
  pub data ShowsInputs (policy : Policy core) (request : PsbtData core bitcoin lib)
      (verified : Bool)
      : List (TxIn core bitcoin)
        → List (PsbtInput core bitcoin)
        → List (TxOut core)
        → List (InputReview core bitcoin)
        → Type 0 where
    no_more : ShowsInputs policy request verified [] [] [] []
    shows :
        {txin : TxIn core bitcoin} {txins : List (TxIn core bitcoin)}
        {input : PsbtInput core bitcoin} {inputs : List (PsbtInput core bitcoin)}
        {utxo : TxOut core} {utxos : List (TxOut core)} {r : InputReview core bitcoin}
        {rs : List (InputReview core bitcoin)}
        → Shows core bitcoin policy lib txin input utxo r
        → (verified ≡ false) ⊎ Guarded core bitcoin lib policy request input utxo r
        → ShowsInputs policy request verified txins inputs utxos rs
        → ShowsInputs policy request verified
            (txin ∷ txins)
            (input ∷ inputs)
            (utxo ∷ utxos)
            (r ∷ rs)

  abbrev pub sum_own : List (InputReview core bitcoin) → ℕ
  sum_own [] = 0
  sum_own (r ∷ rs) = own_amount core bitcoin r + sum_own rs

  -- What the loop leaves: it has appended the inputs shown and added up those of the policy.
  abbrev pub Reviewed :
      Policy core
      → PsbtData core bitcoin lib
      → List (TxIn core bitcoin)
      → List (PsbtInput core bitcoin)
      → List (TxOut core)
      → Progress core bitcoin lib
      → Progress core bitcoin lib
      → Type 0
  Reviewed policy request txins inputs utxos s s' =
      (more : List (InputReview core bitcoin)) × (s'.inputs ≡ s.inputs ++ more)
      × ((s'.fee_unverified ≡ true) ⊎ (s.fee_unverified ≡ false))
      × ShowsInputs policy request (not s'.fee_unverified) txins inputs utxos more
      × (s'.recognized_inputs ≡ s.recognized_inputs + sum_own more)

  -- A flag that only rises: what holds where it ends low.
  low-start :
      (s a b : Bool) {G : Type 0}
      → (a ≡ true) ⊎ ((s ≡ false) × G)
      → (b ≡ true) ⊎ (a ≡ false)
      → (b ≡ true) ⊎ (s ≡ false)
  low-start s a b first (inl up) = inl up
  low-start s a b (inr (low, g)) (inr h) = inr low
  low-start s a b (inl up) (inr h) = cc

  low-guard :
      (s a b : Bool) {G : Type 0}
      → (a ≡ true) ⊎ ((s ≡ false) × G)
      → (b ≡ true) ⊎ (a ≡ false)
      → (not b ≡ false) ⊎ G
  low-guard s a b first (inl up) = inl (ap not up)
  low-guard s a b (inr (low, g)) (inr h) = inr g
  low-guard s a b (inl up) (inr h) = cc

  joined :
      (policy : Policy core) (request : PsbtData core bitcoin lib) (txin : TxIn core bitcoin)
      (input : PsbtInput core bitcoin) (utxo : TxOut core) (txins : List (TxIn core bitcoin))
      (inputs : List (PsbtInput core bitcoin)) (utxos : List (TxOut core))
      (s a b : Progress core bitcoin lib)
      → Round core bitcoin lib policy request txin input utxo s a
      → Reviewed policy request txins inputs utxos a b
      → Reviewed policy request (txin ∷ txins) (input ∷ inputs) (utxo ∷ utxos) s b
  joined policy request txin input utxo txins inputs utxos s a b r (more, us, mono, shown, sum) = (
    r.seen ∷ more,
    us ∙ ap (λ x. x ++ more) r.appended ∙ append_assoc s.inputs (r.seen ∷ []) more,
    low-start s.fee_unverified a.fee_unverified b.fee_unverified r.guarded mono,
    shows r.shown (low-guard s.fee_unverified a.fee_unverified b.fee_unverified r.guarded mono)
        shown,
    omega (arith, sum, r.counted),
  )

  review_inputs_lem :
      (policy : Policy core) (request : PsbtData core bitcoin lib) (index : ℕ)
      (txins : List (TxIn core bitcoin)) (inputs : List (PsbtInput core bitcoin))
      (utxos : List (TxOut core)) (s : Progress core bitcoin lib)
      → length txins ≡ length inputs
      → length inputs ≡ length utxos
      → s.recognized_inputs ≤ max_money
      → Ensures
          (Reviewed policy request txins inputs utxos s)
          (review_inputs core bitcoin lib policy request index txins inputs utxos s)
  unfolding review_inputs
  review_inputs_lem policy request index (txin ∷ txins) (input ∷ inputs) (utxo ∷ utxos) s l l' low =
      Ensures-bind (review_input core bitcoin lib policy request index txin input utxo s) λ a e.
        let r : Round core bitcoin lib policy request txin input utxo s a =
          Ensures-value
            (review_input_lem core bitcoin lib policy request index txin input utxo s low) a e in
        Ensures-weaken
          (λ b rest. joined policy request txin input utxo txins inputs utxos s a b r rest)
          (review_inputs_lem policy request (index + 1) txins inputs utxos a (omega (arith, l))
            (omega (arith, l')) r.in_range)
  review_inputs_lem policy request index [] [] [] s l l' low =
      returns ([], sym (append-nil s.inputs), Bool-cases s.fee_unverified, no_more, omega arith)
  review_inputs_lem policy request index [] (input ∷ inputs) utxos s l l' low =
      (let bad : ⊥ = omega (arith, l) in absurd bad)
  review_inputs_lem policy request index (txin ∷ txins) [] utxos s l l' low =
      (let bad : ⊥ = omega (arith, l) in absurd bad)
  review_inputs_lem policy request index [] [] (utxo ∷ utxos) s l l' low =
      (let bad : ⊥ = omega (arith, l') in absurd bad)
  review_inputs_lem policy request index (txin ∷ txins) (input ∷ inputs) [] s l l' low =
      (let bad : ⊥ = omega (arith, l') in absurd bad)

  -- What a review tells of a request.
  abbrev pub Discloses :
      Policy core → PsbtData core bitcoin lib → ReviewedTransaction core bitcoin lib → Type 0
  Discloses policy request t =
      (t.policy ≡ policy)
      × (t.request ≡ request)
      × (t.review.fee ≡ request.fee)
      × ShowsInputs policy request (not t.review.fee_unverified) request.psbt.tx.inputs
          request.psbt.inputs request.utxos t.review.inputs
      × (t.review.recognized_inputs ≡ sum_own t.review.inputs)
      × ShowsOutputs core bitcoin lib policy request.psbt.tx.outputs request.psbt.outputs
          t.review.outputs
      × (t.review.recognized_outputs ≡ sum_recognized core bitcoin lib t.review.outputs)

  -- A review shows every input of a request, in order, with its position in the policy, amount and state, and
  -- every output with its position, amount and script; the amounts of the policy are the exact sums of
  -- what is shown, and the fee is that of the request. (A request has one entry for each input and output.)
  pub review_tells :
      (request : PsbtData core bitcoin lib) (policy : Policy core) (session : Keys core)
      (tag chain : Bytes) (t : ReviewedTransaction core bitcoin lib)
      → length request.psbt.tx.inputs ≡ length request.psbt.inputs
      → length request.psbt.inputs ≡ length request.utxos
      → length request.psbt.tx.outputs ≡ length request.psbt.outputs
      → review_transaction core bitcoin lib request policy session tag chain ≡ ok t
      → Discloses policy request t
  unfolding review_transaction is_recognized
  review_tells request policy session tag chain t li lu lo =
      Ensures-value {P = Discloses policy request}
        (Ensures-bind (authorized core policy session tag) λ allowed _.
          Ensures-require allowed _ λ _. Ensures-bind (is_default core policy session) λ standard _.
            let psbt = request.psbt in
            let start : Progress core bitcoin lib = record {
              public_psbt = psbt;
              recognized_inputs = 0;
              unrecognized_inputs = 0;
              fee_unverified = false;
              inputs = [];
            } in
            Ensures-bind
              (review_inputs core bitcoin lib policy request 0 psbt.tx.inputs psbt.inputs
                request.utxos start)
              λ s a.
                Ensures-require
                  (any_input core bitcoin lib (is_recognized core bitcoin lib) s.inputs) _
                  λ _.
                    Ensures-bind
                      (review_outputs core bitcoin lib policy psbt.tx.outputs psbt.outputs 0)
                      λ x b.
                        Ensures-bind (estimate core bitcoin lib policy s.public_psbt 0 s.inputs)
                          λ vsize _.
                            let (more, us, _, shown, sum) =
                              Ensures-value
                                (review_inputs_lem policy request 0 psbt.tx.inputs psbt.inputs
                                  request.utxos start li lu (omega arith))
                                s a in
                            let (outs, sum_out, _) =
                              Ensures-value
                                (review_outputs_lem core bitcoin lib policy psbt.tx.outputs
                                  psbt.outputs 0 lo (omega arith))
                                x b in
                            returns (
                              refl,
                              refl,
                              refl,
                              subst
                                  (ShowsInputs policy request (not s.fee_unverified)
                                    request.psbt.tx.inputs request.psbt.inputs request.utxos)
                                  (sym us) shown,
                              omega (arith, sum, ap sum_own us),
                              outs,
                              omega (arith, sum_out),
                            ))
        t

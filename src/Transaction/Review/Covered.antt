-- ===== src/Transaction/Review/Covered.antt =====
-- src/transaction.cpp, ReadPSBT and ReviewedTransaction: the amounts that a signature rests on.
use mathlib.Core.Path.{subst}
use mathlib.Core.Option.{some-injective}
use thunderden.Base.{
  ℕ, zero, suc, ◌+◌, ◌≤◌, ◌≡◌, refl, sym, ap, ◌∙◌, ◌⊎◌, inl, inr, true, false, List, [], ◌∷◌,
  Option, some, is_some, length, get_elem?, Result, ok, Bytes, arith, Bool-cases,
}
use thunderden.Core.{Core}
use thunderden.Keys.{Keys}
use thunderden.Policy.{Position, Policy}
use thunderden.Policy.Positions.{public_provider}
use thunderden.Transaction.Library.{Bitcoin, TxOut, TxIn, PsbtInput, Psbt, Psbts}
use thunderden.Transaction.{witness_version}
use thunderden.Transaction.Read.{PsbtData, read_psbt}
use thunderden.Transaction.Read.Fee.{count_missing, Spends, read_psbt_fee}
use thunderden.Transaction.Review.{InputReview, ReviewedTransaction, review_transaction}
use thunderden.Transaction.Review.Inputs.{Guarded}
use thunderden.Transaction.Review.Fee.{ShowsInputs, no_more, shows, review_tells}
use thunderden.Transaction.Sign.{is_open}

module _ (core : Core) (bitcoin : Bitcoin core) (lib : Psbts core bitcoin) where
  none_missing :
      (inputs : List (PsbtInput core bitcoin)) (j : ℕ) (other : PsbtInput core bitcoin)
      → count_missing core bitcoin lib inputs ≡ 0
      → get_elem? inputs j ≡ some other
      → is_some other.non_witness_utxo ≡ true
  none_missing [] j other zero_missing at = cc
  none_missing (i ∷ inputs) zero other zero_missing at =
      elim (Bool-cases (is_some i.non_witness_utxo)) [
        | inl whole ↦ cc
        | inr part ↦ (let bad : ⊥ = omega (arith, rw (part) at zero_missing) in absurd bad)
      ]
  none_missing (i ∷ inputs) (suc j) other zero_missing at =
      none_missing inputs j other (omega (arith, zero_missing)) at

  one_missing :
      (inputs : List (PsbtInput core bitcoin)) (i j : ℕ) (own other : PsbtInput core bitcoin)
      → count_missing core bitcoin lib inputs ≤ 1
      → get_elem? inputs i ≡ some own
      → is_some own.non_witness_utxo ≡ false
      → get_elem? inputs j ≡ some other
      → (is_some other.non_witness_utxo ≡ true) ⊎ (i ≡ j)
  one_missing [] i j own other few at part at' = cc
  one_missing (x ∷ inputs) zero zero own other few at part at' = inr refl
  one_missing (x ∷ inputs) zero (suc j) own other few at part at' =
      let here : is_some x.non_witness_utxo ≡ false = cc in
      inl (none_missing inputs j other (omega (arith, rw (here) at few)) at')
  one_missing (x ∷ inputs) (suc i) zero own other few at part at' =
      elim (Bool-cases (is_some x.non_witness_utxo)) [
        | inl whole ↦ inl cc
        | inr here ↦
            let bad : true ≡ false =
              sym (none_missing inputs i own (omega (arith, rw (here) at few)) at) ∙ part in
            cc
      ]
  one_missing (x ∷ inputs) (suc i) (suc j) own other few at part at' =
      elim (one_missing inputs i j own other (omega (arith, few)) at part at') [
        | inl whole ↦ inl whole
        | inr same ↦ inr (ap suc same)
      ]

  shown_at :
      (policy : Policy core) (request : PsbtData core bitcoin lib)
      (txins : List (TxIn core bitcoin)) (inputs : List (PsbtInput core bitcoin))
      (utxos : List (TxOut core)) (rs : List (InputReview core bitcoin)) (i : ℕ)
      (seen : InputReview core bitcoin)
      → ShowsInputs core bitcoin lib policy request true txins inputs utxos rs
      → get_elem? rs i ≡ some seen
      → (input : PsbtInput core bitcoin) × (utxo : TxOut core) × (get_elem? inputs i ≡ some input)
        × (get_elem? utxos i ≡ some utxo)
        × Guarded core bitcoin lib policy request input utxo seen
  shown_at policy request _ _ _ _ i seen no_more at = cc
  shown_at policy request _ _ _ _ zero seen
        (shows {input = input} {utxo = utxo} {r = r} facts guard rest) at =
      let same : r ≡ seen = some-injective r seen at in
      (
        input,
        utxo,
        refl,
        refl,
        subst (Guarded core bitcoin lib policy request input utxo) same (kept guard),
      )
    where
      kept : {G : Type 0} → (true ≡ false) ⊎ G → G
      kept (inl bad) = cc
      kept (inr g) = g
  shown_at policy request _ _ _ _ (suc i) seen
        (shows {txins = txins} {inputs = inputs} {utxos = utxos} {rs = rs} facts guard rest) at =
      shown_at policy request txins inputs utxos rs i seen rest at

  Spends-length :
      (psbt : Psbt core bitcoin) (k : ℕ) (inputs : List (PsbtInput core bitcoin))
      (utxos : List (TxOut core))
      → Spends core bitcoin lib psbt k inputs utxos
      → length inputs ≡ length utxos
  Spends-length psbt k [] [] h = refl
  Spends-length psbt k [] (u ∷ us) h = absurd h
  Spends-length psbt k (i ∷ is) [] h = absurd h
  Spends-length psbt k (i ∷ is) (u ∷ us) h = ap suc (Spends-length psbt (k + 1) is us h.1)

  -- Where a request that was read (with one entry for each input and output) was reviewed and its fee
  -- counts as verified, a signature of an open input rests on no amount that the sender could have
  -- made up. For every input of the request, one of these holds: the open input is recognized as
  -- Taproot, whose signatures cover all amounts; the other input comes with the whole transaction that
  -- it spends; or it is the open input itself, recognized as SegWit v0, whose signatures cover its own
  -- amount.
  pub fee_covered :
      (raw : Bytes) (request : PsbtData core bitcoin lib) (policy : Policy core)
      (session : Keys core) (tag chain : Bytes) (t : ReviewedTransaction core bitcoin lib) (i j : ℕ)
      (seen : InputReview core bitcoin) (other : PsbtInput core bitcoin)
      → read_psbt core bitcoin lib raw ≡ ok request
      → length request.psbt.tx.inputs ≡ length request.psbt.inputs
      → length request.psbt.tx.outputs ≡ length request.psbt.outputs
      → review_transaction core bitcoin lib request policy session tag chain ≡ ok t
      → t.review.fee_unverified ≡ false
      → get_elem? t.review.inputs i ≡ some seen
      → is_open core bitcoin lib seen ≡ true
      → get_elem? request.psbt.inputs j ≡ some other
      → (p : Position) × (provider : core.Provider) × (script : core.Script) × (utxo : TxOut core)
        × (version : Option ℕ) × (seen.position ≡ some p)
        × (get_elem? request.utxos i ≡ some utxo)
        × (◌≡◌ {A = Result (core.Provider × core.Script)}
            (public_provider core policy p)
            (ok (provider, script)))
        × (witness_version core bitcoin utxo.script provider ≡ ok version)
        × ((version ≡ some 1)
            ⊎ ((is_some other.non_witness_utxo ≡ true) ⊎ ((version ≡ some 0) × (i ≡ j))))
  unfolding is_open
  fee_covered raw request policy session tag chain t i j seen other read li lo reviewed verified at
        open_here at' =
      let (_, _, missing, _, spends) = read_psbt_fee core bitcoin lib raw request read in
      let lu = Spends-length request.psbt 0 request.psbt.inputs request.utxos spends in
      let (_, _, _, shown, _, _, _) =
        review_tells core bitcoin lib request policy session tag chain t li lu lo reviewed in
      let (input, utxo, a, b, guard) =
        shown_at policy request request.psbt.tx.inputs request.psbt.inputs request.utxos
          t.review.inputs i seen (rw (verified) at shown) at in
      elim guard [
        | inl shut ↦ cc
        | inr (p, provider, script, version, own, c, d, covers) ↦ (
          p,
          provider,
          script,
          utxo,
          version,
          own,
          b,
          c,
          d,
          elim covers [
            | inl taproot ↦ inl taproot
            | inr (inl whole) ↦
                inr (inl (none_missing request.psbt.inputs j other (sym missing ∙ whole) at'))
            | inr (inr (segwit, part, one)) ↦
                elim (one_missing request.psbt.inputs i j input other (omega (arith, missing, one))
                  a part at') [ inl whole ↦ inr (inl whole) | inr same ↦ inr (inr (segwit, same)) ]
          ],
        )
      ]

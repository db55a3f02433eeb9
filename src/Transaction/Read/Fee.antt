-- ===== src/Transaction/Read/Fee.antt =====
-- src/transaction.cpp, ReadPSBT: the amounts of a request.
use thunderden.Base.{
  >>-eq-ok, or_throw-eq-ok, returns, Ensures-value, Ensures-bind, Ensures-require, Ensures-then,
  leb→le, ℕ, ◌+◌, ◌-◌, ◌%◌, ◌^◌, ◌≤◌, ◌≡◌, sym, ap, ◌∙◌, true, not, ◌&&◌, List, [], ◌∷◌, ◌++◌, none,
  some, leb, ◌==◌, if◌then◌else◌, is_some, is_empty, length, ok, or_throw, Bytes, arith, and-true,
  >>=-eq-ok, require-eq-ok, ok-injective, append_assoc, append-nil,
}
use mathlib.Core.Path.{subst}
use thunderden.Core.{Core}
use thunderden.Transaction.Library.{Bitcoin, TxOut, PsbtInput, Psbt, Psbts}
use thunderden.Transaction.{max_money, is_money, add_amount, max_psbt_bytes, txout_eq}
use thunderden.Transaction.Read.{
  PsbtData, Gathered, previous_output, check_xpubs, check_input, gather, add_outputs, check_final,
  read_psbt,
}

-- An addition of amounts in range is exact, and its result is in range.
pub add_amount_exact :
    (total amount t : ℕ)
    → total ≤ max_money
    → add_amount total amount ≡ ok t
    → (t ≡ total + amount) × (t ≤ max_money) × (amount ≤ max_money)
unfolding add_amount
add_amount_exact total amount t h e =
    let (c, e1) = require-eq-ok (is_money amount && is_money ((total + amount) % 2 ^ 64)) _ _ e in
    let (a, b) = and-true (is_money amount) (is_money ((total + amount) % 2 ^ 64)) c in
    let small : amount ≤ max_money = leb→le amount max_money a in
    let kept : (total + amount) % 2 ^ 64 ≤ max_money =
      leb→le ((total + amount) % 2 ^ 64) max_money b in
    let same : (total + amount) % 2 ^ 64 ≡ t = ok-injective ((total + amount) % 2 ^ 64) t e1 in
    (omega (arith, h, small, same), omega (arith, kept, same), small)

module _ (core : Core) where
  abbrev pub sum_values : List (TxOut core) → ℕ
  sum_values [] = 0
  sum_values (o ∷ l) = o.value + sum_values l

  sum-append : (a b : List (TxOut core)) → sum_values (a ++ b) ≡ sum_values a + sum_values b
  sum-append [] b = omega arith
  sum-append (o ∷ a) b = omega (arith, sum-append a b)

  add_outputs_sum :
      (bitcoin : Bitcoin core) (lib : Psbts core bitcoin) (outputs : List (TxOut core))
      (total t : ℕ)
      → total ≤ max_money
      → add_outputs core bitcoin lib total outputs ≡ ok t
      → t ≡ total + sum_values outputs
  unfolding add_outputs
  add_outputs_sum bitcoin lib [] total t low e = omega (arith, ok-injective total t e)
  add_outputs_sum bitcoin lib (o ∷ l) total t low e =
      let (total', a, e1) = >>=-eq-ok (add_amount total o.value) _ e in
      let (exact, high, _) = add_amount_exact total o.value total' low a in
      let rest = add_outputs_sum bitcoin lib l total' t high e1 in omega (arith, exact, rest)

  module _ (bitcoin : Bitcoin core) (lib : Psbts core bitcoin) where
    -- The inputs that come without the whole transaction that made them.
    abbrev pub count_missing : List (PsbtInput core bitcoin) → ℕ
    count_missing [] = 0
    count_missing (i ∷ l) = (if is_some i.non_witness_utxo then 0 else 1) + count_missing l

    -- Each output spent is the one that Core takes from the request, in order.
    abbrev pub Spends :
        Psbt core bitcoin → ℕ → List (PsbtInput core bitcoin) → List (TxOut core) → Type 0
    Spends psbt index [] [] = Unit {0}
    Spends psbt index [] (u ∷ us) = ⊥
    Spends psbt index (i ∷ is) [] = ⊥
    Spends psbt index (i ∷ is) (u ∷ us) =
        (lib.input_utxo psbt index ≡ some u) × Spends psbt (index + 1) is us

    utxo_of :
        (psbt : Psbt core bitcoin) (index : ℕ) (input : PsbtInput core bitcoin) (u : TxOut core)
        → previous_output core bitcoin lib psbt index input ≡ ok u
        → lib.input_utxo psbt index ≡ some u
    unfolding previous_output
    utxo_of psbt index input u e =
        let (v, a, e1) = >>=-eq-ok (or_throw (lib.input_utxo psbt index) _) _ e in
        let (_, e2) =
          require-eq-ok
            (elim input.witness_utxo [ none ↦ true | some w ↦ txout_eq core bitcoin w v ]) _ _ e1 in
        let (_, e3) = require-eq-ok (is_money v.value) _ _ e2 in
        let (_, e4) = require-eq-ok (not (bitcoin.is_unspendable v.script)) _ _ e3 in
        or_throw-eq-ok (lib.input_utxo psbt index) _ v a ∙ ap some (ok-injective v u e4)

    gather_adds :
        (psbt : Psbt core bitcoin) (inputs : List (PsbtInput core bitcoin)) (index : ℕ)
        (g r : Gathered core bitcoin lib)
        → g.total ≤ max_money
        → gather core bitcoin lib psbt index g inputs ≡ ok r
        → (more : List (TxOut core)) × (r.utxos ≡ g.utxos ++ more)
          × (r.total ≡ g.total + sum_values more)
          × (r.total ≤ max_money)
          × (r.missing ≡ g.missing + count_missing inputs)
          × Spends psbt index inputs more
    unfolding gather
    gather_adds psbt [] index g r low e =
        let same : g ≡ r = ok-injective g r e in
        (
          [],
          ap (λ x. x.utxos) (sym same) ∙ sym (append-nil g.utxos),
          omega (arith, ap (λ x. x.total) (sym same)),
          omega (arith, low, ap (λ x. x.total) (sym same)),
          omega (arith, ap (λ x. x.missing) (sym same)),
          tt,
        )
    gather_adds psbt (i ∷ inputs) index g r low e =
        let (u, a, e1) = >>=-eq-ok (previous_output core bitcoin lib psbt index i) _ e in
        let (total, b, e2) = >>=-eq-ok (add_amount g.total u.value) _ e1 in
        let (exact, high, _) = add_amount_exact g.total u.value total low b in
        let (_, e3) = >>-eq-ok (check_input core bitcoin lib i) _ e2 in
        let here : ℕ = if is_some i.non_witness_utxo then 0 else 1 in
        let g' : Gathered core bitcoin lib = record {
          utxos = g.utxos ++ (u ∷ []);
          total = total;
          missing = g.missing + here;
        } in
        let (more, us, sum, top, miss, spends) = gather_adds psbt inputs (index + 1) g' r high e3 in
        (
          u ∷ more,
          us ∙ append_assoc g.utxos (u ∷ []) more,
          omega (arith, sum, exact),
          top,
          omega (arith, miss),
          (utxo_of psbt index i u a, spends),
        )

    -- The amounts of a request: its fee and its count of missing previous transactions.
    abbrev pub FeeOf : Psbt core bitcoin → List (TxOut core) → ℕ → ℕ → Type 0
    FeeOf psbt utxos fee missing =
        (fee + sum_values psbt.tx.outputs ≡ sum_values utxos)
        × (sum_values utxos ≤ max_money)
        × (missing ≡ count_missing psbt.inputs)
        × (length psbt.inputs ≤ 128)
        × Spends psbt 0 psbt.inputs utxos

    abbrev pub nothing : Gathered core bitcoin lib
    nothing = record { utxos = []; total = 0; missing = 0 }

    gathered_amounts :
        (psbt : Psbt core bitcoin) (g : Gathered core bitcoin lib) (paid : ℕ)
        → leb (length psbt.inputs) 128 && leb (length psbt.outputs) 128 ≡ true
        → gather core bitcoin lib psbt 0 nothing psbt.inputs ≡ ok g
        → add_outputs core bitcoin lib 0 psbt.tx.outputs ≡ ok paid
        → leb paid g.total ≡ true
        → FeeOf psbt g.utxos (g.total - paid) g.missing
    gathered_amounts psbt g paid few gathered added enough =
        let (more, us, sum, top, miss, spends) =
          gather_adds psbt psbt.inputs 0 nothing g (omega arith) gathered in
        let out = add_outputs_sum bitcoin lib psbt.tx.outputs 0 paid (omega arith) added in
        let le : paid ≤ g.total = leb→le paid g.total enough in
        let (inputs, _) =
          and-true (leb (length psbt.inputs) 128) (leb (length psbt.outputs) 128) few in
        let same = ap sum_values us in
        (
          omega (arith, sum, same, out, le),
          omega (arith, sum, same, top),
          omega (arith, miss),
          leb→le (length psbt.inputs) 128 inputs,
          subst (Spends psbt 0 psbt.inputs) (sym us) spends,
        )

    -- The fee of a request that is read is what its inputs spend over what its outputs pay, without overflow:
    -- the fee and the outputs sum to the outputs spent, which are at most MAX_MONEY. The outputs spent are
    -- those that Core takes for each input in turn, of at most 128, and the inputs without the transaction
    -- that they spend are counted.
    pub read_psbt_fee :
        (raw : Bytes) (d : PsbtData core bitcoin lib)
        → read_psbt core bitcoin lib raw ≡ ok d
        → FeeOf d.psbt d.utxos d.fee d.missing_previous
    unfolding read_psbt
    read_psbt_fee raw = Ensures-value (
        Ensures-require (not (is_empty raw) && leb (length raw) max_psbt_bytes) _ λ _.
          Ensures-bind (or_throw (lib.decode raw) _) λ psbt _.
            Ensures-require (psbt.version == 0) _ λ _.
              Ensures-require (leb (length psbt.inputs) 128 && leb (length psbt.outputs) 128) _
                λ few. Ensures-then (check_xpubs core bitcoin lib 0 psbt.xpubs) (
                  Ensures-require (lib.is_valid_tx psbt.tx) _ λ _.
                    Ensures-bind (gather core bitcoin lib psbt 0 nothing psbt.inputs) λ g gathered.
                      Ensures-bind (add_outputs core bitcoin lib 0 psbt.tx.outputs) λ paid added.
                        Ensures-require (leb paid g.total) _ λ enough.
                          Ensures-bind
                            (check_final core bitcoin lib psbt (lib.precompute psbt) 0 true
                              psbt.inputs g.utxos)
                            λ _ _.
                              returns (gathered_amounts psbt g paid few gathered added enough)))

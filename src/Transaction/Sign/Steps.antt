-- ===== src/Transaction/Sign/Steps.antt =====
-- src/transaction.cpp, ReviewedTransaction::Sign: the loop that signs as a relation between requests.
use thunderden.Base.{
  ℕ, zero, suc, ◌+◌, ◌<◌, ◌≡◌, ◌≢◌, refl, sym, ap, ◌∙◌, inl, inr, true, false, List, [], ◌∷◌,
  Option, some, get_elem?, Result, ok, or_throw, arith, Ensures, Ensures-weaken, returns,
  Ensures-bind, Ensures-require, Ensures-value, Bool-cases, or_throw-eq-ok,
}
use thunderden.Core.{Core}
use thunderden.Keys.{Keys}
use thunderden.Policy.{Position}
use thunderden.Policy.Positions.{private_provider}
use thunderden.Transaction.Library.{
  Bitcoin, TxOut, PsbtInput, Psbt, Psbts, SignStatus, signed, incomplete, failed,
}
use thunderden.Transaction.{signing_rule}
use thunderden.Transaction.Review.{InputReview, ReviewedTransaction}
use thunderden.Transaction.Sign.{is_open, added_signatures, sign_one, sign_inputs}

module _ (core : Core) (bitcoin : Bitcoin core) (lib : Psbts core bitcoin) where
  -- One call of the signer: an open input, the private keys of its own position in the policy, and the
  -- signing rule of the output that it spends.
  abbrev pub SignsOne :
      ReviewedTransaction core bitcoin lib
      → Keys core
      → ℕ
      → InputReview core bitcoin
      → Psbt core bitcoin
      → Psbt core bitcoin
      → Type 0
  SignsOne t session index r before after =
      (position : Position) × (provider : core.Provider) × (utxo : TxOut core) × (r.position
        ≡ some position)
      × (private_provider core t.policy position session ≡ ok provider)
      × (get_elem? t.request.utxos index ≡ some utxo)
      × ((lib.sign_input provider before index t.request.txdata
            (some (signing_rule core bitcoin utxo))).0
          ≢ failed)
      × ((lib.sign_input provider before index t.request.txdata
            (some (signing_rule core bitcoin utxo))).1
          ≡ after)

  -- The rounds of the loop with the signatures they count: an input that is not open is passed over, and a
  -- round counts what its input has over the same input of the request.
  pub data Rounds (t : ReviewedTransaction core bitcoin lib) (session : Keys core)
      : ℕ
        → List (InputReview core bitcoin)
        → Psbt core bitcoin
        → Psbt core bitcoin
        → ℕ
        → Type 0 where
    done : {index : ℕ} {psbt : Psbt core bitcoin} → Rounds t session index [] psbt psbt 0
    pass :
        {index n : ℕ} {r : InputReview core bitcoin} {rs : List (InputReview core bitcoin)}
        {a c : Psbt core bitcoin}
        → is_open core bitcoin lib r ≡ false
        → Rounds t session (index + 1) rs a c n
        → Rounds t session index (r ∷ rs) a c n
    round :
        {index n : ℕ} {r : InputReview core bitcoin} {rs : List (InputReview core bitcoin)}
        {a b c : Psbt core bitcoin}
        → (before after : PsbtInput core bitcoin) → is_open core bitcoin lib r ≡ true
        → SignsOne t session index r a b
        → get_elem? t.request.psbt.inputs index ≡ some before
        → get_elem? b.inputs index ≡ some after
        → Rounds t session (index + 1) rs b c n
        → Rounds t session index (r ∷ rs) a c (added_signatures core bitcoin lib before after + n)

  not-failed :
      (s : SignStatus core bitcoin) → elim s [ failed ↦ false | _ ↦ true ] ≡ true → s ≢ failed
  not-failed signed e = λ h. cc
  not-failed incomplete e = λ h. cc
  not-failed failed e = cc

  sign_one_lem :
      (t : ReviewedTransaction core bitcoin lib) (session : Keys core) (index : ℕ)
      (r : InputReview core bitcoin) (psbt : Psbt core bitcoin) (added : ℕ)
      → Ensures
          (λ (x : Psbt core bitcoin × ℕ).
            SignsOne t session index r psbt x.0
            × ((before : PsbtInput core bitcoin) × (after : PsbtInput core bitcoin) × (get_elem?
                    t.request.psbt.inputs index
                  ≡ some before)
                × (get_elem? x.0.inputs index ≡ some after)
                × (x.1 ≡ added + added_signatures core bitcoin lib before after)))
          (sign_one core bitcoin lib t session index r psbt added)
  unfolding sign_one
  sign_one_lem t session index r psbt added = Ensures-bind (or_throw r.position _) λ position a.
      Ensures-bind (private_provider core t.policy position session) λ provider b.
        Ensures-bind (or_throw (get_elem? t.request.utxos index) _) λ utxo c.
          let x =
            lib.sign_input provider psbt index t.request.txdata
              (some (signing_rule core bitcoin utxo)) in
          Ensures-require (elim x.0 [ failed ↦ false | _ ↦ true ]) _
            λ d. Ensures-bind (or_throw (get_elem? t.request.psbt.inputs index) _) λ before was.
              Ensures-bind (or_throw (get_elem? x.1.inputs index) _) λ after now. returns (
                (
                  position,
                  provider,
                  utxo,
                  or_throw-eq-ok r.position _ position a,
                  b,
                  or_throw-eq-ok (get_elem? t.request.utxos index) _ utxo c,
                  not-failed _ d,
                  refl,
                ),
                (
                  before,
                  after,
                  or_throw-eq-ok (get_elem? t.request.psbt.inputs index) _ before was,
                  or_throw-eq-ok (get_elem? x.1.inputs index) _ after now,
                  refl,
                ),
              )

  -- The loop goes through its rounds, and adds what they count.
  pub sign_inputs_rounds :
      (t : ReviewedTransaction core bitcoin lib) (session : Keys core) (index : ℕ)
      (rs : List (InputReview core bitcoin)) (psbt : Psbt core bitcoin) (added : ℕ)
      → Ensures
          (λ (x : Psbt core bitcoin × ℕ).
            (n : ℕ) × (x.1 ≡ added + n) × Rounds t session index rs psbt x.0 n)
          (sign_inputs core bitcoin lib t session index rs psbt added)
  unfolding sign_inputs
  sign_inputs_rounds t session index [] psbt added = returns (0, omega arith, done)
  sign_inputs_rounds t session index (r ∷ rs) psbt added =
      elim (Bool-cases (is_open core bitcoin lib r)) [
        | inl yes_open ↦
            let m : Result (Psbt core bitcoin × ℕ) =
              sign_one core bitcoin lib t session index r psbt added in
            rw (yes_open) (
              Ensures-bind m λ a e.
                let (one, (before, after, was, now, count)) =
                  Ensures-value (sign_one_lem t session index r psbt added) a e in
                Ensures-weaken
                  (λ b (n, total, steps). (
                    added_signatures core bitcoin lib before after + n,
                    omega (arith, total, count),
                    round before after yes_open one was now steps,
                  ))
                  (sign_inputs_rounds t session (index + 1) rs a.0 a.1))
        | inr shut ↦ rw (shut) (
            Ensures-weaken (λ b (n, total, steps). (n, total, pass shut steps))
              (sign_inputs_rounds t session (index + 1) rs psbt added))
      ]

  -- What the signer of Core documents: it changes the input it is called for and no other.
  abbrev pub SignsLocally : Type 0
  SignsLocally =
      (provider : core.Provider) (psbt : Psbt core bitcoin) (index : ℕ) (txdata : lib.TxData)
      (rule : Option ℕ) (j : ℕ)
      → index ≢ j
      → get_elem? (lib.sign_input provider psbt index txdata rule).1.inputs j
        ≡ get_elem? psbt.inputs j

  signs-one_keeps :
      (local : SignsLocally) (t : ReviewedTransaction core bitcoin lib) (session : Keys core)
      (index j : ℕ) (r : InputReview core bitcoin) (a b : Psbt core bitcoin)
      → index ≢ j
      → SignsOne t session index r a b
      → get_elem? b.inputs j ≡ get_elem? a.inputs j
  signs-one_keeps local t session index j r a b other
        (position, provider, utxo, _, _, _, _, after) =
      ap (λ (x : Psbt core bitcoin). get_elem? x.inputs j) (sym after)
      ∙ local provider a index t.request.txdata (some (signing_rule core bitcoin utxo)) j other

  -- An earlier input is left alone.
  rounds_before :
      (local : SignsLocally) (t : ReviewedTransaction core bitcoin lib) (session : Keys core)
      (index j : ℕ) (rs : List (InputReview core bitcoin)) (a b : Psbt core bitcoin) (n : ℕ)
      → j < index
      → Rounds t session index rs a b n
      → get_elem? b.inputs j ≡ get_elem? a.inputs j
  rounds_before local t session index j _ a _ _ lt done = refl
  rounds_before local t session index j _ a b n lt (pass {rs = rs} shut rest) =
      rounds_before local t session (index + 1) j rs a b n (omega (arith, lt)) rest
  rounds_before local t session index j _ a c _ lt
        (round {n = n} {r = r} {rs = rs} {b = b} _ _ yes_open one _ _ rest) =
      rounds_before local t session (index + 1) j rs b c n (omega (arith, lt)) rest
      ∙ signs-one_keeps local t session index j r a b (λ e. omega (arith, lt, e)) one

  pub rounds_keep :
      (local : SignsLocally) (t : ReviewedTransaction core bitcoin lib) (session : Keys core)
      (index k : ℕ) (rs : List (InputReview core bitcoin)) (a b : Psbt core bitcoin) (n : ℕ)
      (r : InputReview core bitcoin)
      → Rounds t session index rs a b n
      → get_elem? rs k ≡ some r
      → is_open core bitcoin lib r ≡ false
      → get_elem? b.inputs (index + k) ≡ get_elem? a.inputs (index + k)
  rounds_keep local t session index k _ a _ _ r done at closed = cc
  rounds_keep local t session index zero _ a b n r (pass {rs = rs} shut rest) at closed =
      rounds_before local t session (index + 1) (index + 0) rs a b n (omega arith) rest
  rounds_keep local t session index (suc k) _ a b n r (pass {rs = rs} shut rest) at closed =
      let e : index + 1 + k ≡ index + suc k = omega arith in
      rw e at (rounds_keep local t session (index + 1) k rs a b n r rest at closed)
  rounds_keep local t session index zero _ a c _ r
        (round {n = n} {r = x} {rs = rs} {b = b} _ _ yes_open one _ _ rest) at closed =
      cc
  rounds_keep local t session index (suc k) _ a c _ r
        (round {n = n} {r = x} {rs = rs} {b = b} _ _ yes_open one _ _ rest) at closed =
      let e : index + 1 + k ≡ index + suc k = omega arith in
      (rw e at (rounds_keep local t session (index + 1) k rs b c n r rest at closed))
      ∙ signs-one_keeps local t session index (index + suc k) x a b (λ e'. omega (arith, e')) one

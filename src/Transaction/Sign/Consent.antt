-- ===== src/Transaction/Sign/Consent.antt =====
-- src/transaction.cpp, ReviewedTransaction::Sign: what holds of a request that was signed.
use thunderden.Base.{
  ℕ, ◌+◌, ◌*◌, ◌≤◌, ◌≡◌, refl, ap, ◌∙◌, ◌⊎◌, inl, inr, Bool, true, false, not, ◌&&◌, ◌||◌, Option,
  none, some, leb, ltb, length, get_elem?, Result, ok, or_throw, text_eq, Bytes, arith, leb→le,
  ltb→lt, Ensures, returns, Ensures-bind, Ensures-require, Ensures-value, Bool-cases, >>=-eq-ok,
  require-eq-ok, is_some, or_throw-eq-ok,
}
use thunderden.Core.{Core}
use thunderden.Keys.{Keys}
use thunderden.Policy.Owner.{authorized}
use thunderden.Transaction.Library.{Bitcoin, Psbt, Psbts}
use thunderden.Transaction.{max_psbt_bytes}
use thunderden.Transaction.Review.{InputReview, TransactionReview, ReviewedTransaction, any_input}
use thunderden.Transaction.Sign.{
  SigningResult, is_open, sign_inputs, verify_from, sign_approved, sign,
}
use thunderden.Transaction.Sign.Added.{AddsSignature, rounds-AddsSignature}
use thunderden.Transaction.Sign.Steps.{Rounds, sign_inputs_rounds, SignsLocally, rounds_keep}

module _ (core : Core) (bitcoin : Bitcoin core) (lib : Psbts core bitcoin) where
  -- What the code promises of the reply: it comes from the request by rounds of the signer, which count the
  -- reported signatures and of which one adds a signature that the request does not have, the same unsigned transaction and a bounded size, and final scripts only when they verify.
  abbrev pub SignedFrom : ReviewedTransaction core bitcoin lib → Keys core → SigningResult → Type 0
  SignedFrom t session r =
      (psbt : Psbt core bitcoin) × (lib.serialize psbt ≡ r.psbt)
      × Rounds core bitcoin lib t session 0 t.review.inputs t.request.psbt psbt r.added_signatures
      × AddsSignature core bitcoin lib t session 0 t.review.inputs t.request.psbt psbt
      × (1 ≤ r.added_signatures)
      × (text_eq (lib.tx_hash psbt.tx) (lib.tx_hash t.request.psbt.tx) ≡ true)
      × (length r.psbt ≤ 2 * max_psbt_bytes)
      × ((r.complete ≡ false)
          ⊎ (verify_from core bitcoin lib (lib.finalize psbt).1 0 (lib.finalize psbt).1.inputs
                t.request.txdata
              ≡ true))

  pub sign_approved_lem :
      (t : ReviewedTransaction core bitcoin lib) (session : Keys core)
      → Ensures (SignedFrom t session) (sign_approved core bitcoin lib t session)
  unfolding sign_approved
  sign_approved_lem t session =
      Ensures-bind (sign_inputs core bitcoin lib t session 0 t.review.inputs t.request.psbt 0)
        λ x a. Ensures-require (ltb 0 x.1) _ λ b.
          Ensures-require (text_eq (lib.tx_hash x.0.tx) (lib.tx_hash t.request.psbt.tx)) _ λ c.
            let y = lib.finalize x.0 in
            Ensures-require
              (not y.0 || verify_from core bitcoin lib y.1 0 y.1.inputs t.request.txdata) _
              λ d. Ensures-require (leb (length (lib.serialize x.0)) (2 * max_psbt_bytes)) _ λ e.
                let (n, count, rounds) =
                  Ensures-value
                    (sign_inputs_rounds core bitcoin lib t session 0 t.review.inputs t.request.psbt
                      0)
                    x a in
                let total : n ≡ x.1 = omega (arith, count) in
                let all_rounds = rw total at rounds in
                returns (
                  x.0,
                  refl,
                  all_rounds,
                  rounds-AddsSignature core bitcoin lib t session 0 t.review.inputs t.request.psbt
                      x.0 x.1 all_rounds (ltb→lt 0 x.1 b),
                  ltb→lt 0 x.1 b,
                  c,
                  leb→le (length (lib.serialize x.0)) (2 * max_psbt_bytes) e,
                  complete-or (y.0) _ d,
                )
    where
      complete-or : (a b : Bool) → not a || b ≡ true → (a ≡ false) ⊎ (b ≡ true)
      complete-or true b h = inr h
      complete-or false b h = inl refl

  -- The user's consent to a signature: the callback was there and said yes to this very review, and the
  -- network was the same before and after it.
  abbrev pub Consented :
      ReviewedTransaction core bitcoin lib
      → Bytes
      → Bytes
      → Option (TransactionReview core bitcoin → Bool)
      → Type 0
  Consented t chain chain_after approve =
      (callback : (TransactionReview core bitcoin → Bool)) × (approve ≡ some callback)
      × (callback t.review ≡ true)
      × (text_eq chain t.review.network ≡ true)
      × (text_eq chain_after t.review.network ≡ true)

  not-true : (b : Bool) → not b ≡ true → b ≡ false
  not-true true h = cc
  not-true false h = refl

  same-value :
      (a b : SigningResult)
      → ◌≡◌ {A = Result (Option SigningResult)} (ok (some a)) (ok (some b))
      → ◌≡◌ {A = Result SigningResult} (ok a) (ok b)
  same-value a b h = cc

  sign-some :
      (t : ReviewedTransaction core bitcoin lib) (session : Keys core) (chain chain_after : Bytes)
      (approve : Option (TransactionReview core bitcoin → Bool)) (r : SigningResult)
      → sign core bitcoin lib t session chain chain_after approve ≡ ok (some r)
      → (Consented t chain chain_after approve
          × (authorized core t.policy session t.tag ≡ ok true)
          × (t.review.fee_unverified ≡ false)
          × (any_input core bitcoin lib (is_open core bitcoin lib) t.review.inputs ≡ true))
        × (sign_approved core bitcoin lib t session ≡ ok r)
  unfolding sign
  sign-some t session chain chain_after approve r h =
      let (net, h1) = require-eq-ok (text_eq chain t.review.network) _ _ h in
      let (allowed, a, h2) = >>=-eq-ok (authorized core t.policy session t.tag) _ h1 in
      let (yes_seed, h3) = require-eq-ok allowed _ _ h2 in
      let (left, h4) =
        require-eq-ok (any_input core bitcoin lib (is_open core bitcoin lib) t.review.inputs) _ _
          h3 in
      let (fee, h5) = require-eq-ok (not t.review.fee_unverified) _ _ h4 in
      let (callback, c, h6) = >>=-eq-ok (or_throw approve _) _ h5 in
      elim (Bool-cases (callback t.review)) [
        | inl agreed ↦
            let h7 = rw (agreed) at h6 in
            let (again, h8) = require-eq-ok (text_eq chain_after t.review.network) _ _ h7 in
            let (result, d, h9) = >>=-eq-ok (sign_approved core bitcoin lib t session) _ h8 in
            (
              (
                (callback, or_throw-eq-ok approve _ callback c, agreed, net, again),
                a ∙ ap ok yes_seed,
                not-true _ fee,
                left,
              ),
              d ∙ same-value result r h9,
            )
        | inr refused ↦ (let h7 = rw (refused) at h6 in cc)
      ]

  -- A request is signed only for a seed that the policy authorizes, with the user's consent to its review, when
  -- the fee was verified and an input of the wallet is open.
  pub sign_consent :
      (t : ReviewedTransaction core bitcoin lib) (session : Keys core) (chain chain_after : Bytes)
      (approve : Option (TransactionReview core bitcoin → Bool)) (r : SigningResult)
      → sign core bitcoin lib t session chain chain_after approve ≡ ok (some r)
      → Consented t chain chain_after approve
        × (authorized core t.policy session t.tag ≡ ok true)
        × (t.review.fee_unverified ≡ false)
        × (any_input core bitcoin lib (is_open core bitcoin lib) t.review.inputs ≡ true)
  sign_consent t session chain chain_after approve r h =
      (sign-some t session chain chain_after approve r h).0

  -- A reply comes from the reviewed request: rounds of the signer, each on an open input with the private keys of
  -- the input's own position only, lead from the request to a transaction that serializes to the reply; one of
  -- them leaves its input with a signature that the same input of the request does not have: an entry for a key
  -- or a Taproot leaf, or the signature of the Taproot key; the reported number is the sum of what the rounds
  -- count and is at least one; the reply has the unsigned transaction of the request by its hash, and at most
  -- twice the size of the largest request; when it is reported complete, all its final scripts verify.
  pub sign_reply :
      (t : ReviewedTransaction core bitcoin lib) (session : Keys core) (chain chain_after : Bytes)
      (approve : Option (TransactionReview core bitcoin → Bool)) (r : SigningResult)
      → sign core bitcoin lib t session chain chain_after approve ≡ ok (some r)
      → SignedFrom t session r
  sign_reply t session chain chain_after approve r h =
      Ensures-value (sign_approved_lem t session) r
        (sign-some t session chain chain_after approve r h).1

  closed-input :
      (seen : InputReview core bitcoin)
      → (seen.position ≡ none) ⊎ (seen.finalized ≡ true)
      → is_open core bitcoin lib seen ≡ false
  unfolding is_open
  closed-input seen (inl foreign) = rw (foreign) refl
  closed-input seen (inr final) = rw (final) (drop-both (is_some seen.position))
    where
      drop-both : (b : Bool) → b && false ≡ false
      drop-both true = refl
      drop-both false = refl

  -- When the signer of Core changes no input but the one it is called for, an input that the review shows as
  -- foreign or as final comes back in the reply as it was in the request.
  pub sign_keeps :
      (local : SignsLocally core bitcoin lib) (t : ReviewedTransaction core bitcoin lib)
      (session : Keys core) (chain chain_after : Bytes)
      (approve : Option (TransactionReview core bitcoin → Bool)) (r : SigningResult) (index : ℕ)
      (seen : InputReview core bitcoin)
      → sign core bitcoin lib t session chain chain_after approve ≡ ok (some r)
      → get_elem? t.review.inputs index ≡ some seen
      → (seen.position ≡ none) ⊎ (seen.finalized ≡ true)
      → (psbt : Psbt core bitcoin) × (lib.serialize psbt ≡ r.psbt)
        × (get_elem? psbt.inputs index ≡ get_elem? t.request.psbt.inputs index)
  sign_keeps local t session chain chain_after approve r index seen h at closed =
      let (psbt, a, rounds, _, _, _, _, _) = sign_reply t session chain chain_after approve r h in
      let shut : is_open core bitcoin lib seen ≡ false = closed-input seen closed in
      let e : 0 + index ≡ index = omega arith in
      (
        psbt,
        a,
        rw e at (
            rounds_keep core bitcoin lib local t session 0 index t.review.inputs t.request.psbt psbt
              r.added_signatures seen rounds at shut),
      )

-- ===== src/QrCommands/Signing.antt =====
-- src/qr_commands.cpp, the command that signs, with the review and the signing of src/transaction.cpp.
use thunderden.Base.{
  ◌≡◌, sym, ap, ◌∙◌, inl, inr, Bool, true, false, Option, none, some, Result, ok, ◌>>=◌, Bytes,
  Option-cases, >>=-eq-ok, >>-eq-ok,
}
use thunderden.Cbor
use thunderden.Cbor.Writer.{CborLite}
use thunderden.Core.{Core}
use thunderden.Keys.{Keys}
use thunderden.Policy.{Policy}
use thunderden.Policy.Owner.{authorized}
use thunderden.QrCommands.{
  Signed, QrApproval, Signer, signed_body, sign_transaction, read_authorized, max_psbt_bytes,
}
use thunderden.Transaction.Library.{Bitcoin, Psbts}
use thunderden.Transaction.Read.{PsbtData, read_psbt}
use thunderden.Transaction.Review.{
  TransactionReview, ReviewedTransaction, review_transaction, review_raw,
}
use thunderden.Transaction.Sign.{SigningResult, sign}
use thunderden.Transaction.Sign.Consent.{Consented, SignedFrom, sign_consent, sign_reply}

module _ (core : Core) (bitcoin : Bitcoin core) (psbts : Psbts core bitcoin) (lib : CborLite)
    (base : Signer core) where
  abbrev signed_of : SigningResult → Signed
  signed_of r = record {
    psbt = r.psbt;
    added_signatures = r.added_signatures;
    complete = r.complete;
  }

  -- The review and its signing, on the one selected network.
  unfoldable pub sign_request :
      Policy core
      → Keys core
      → Bytes
      → Bytes
      → Option (TransactionReview core bitcoin → Bool)
      → Result (Option Signed)
  sign_request policy keys proof raw approve = do
    t ← review_raw core bitcoin psbts policy keys proof raw base.chain
    r ← sign core bitcoin psbts t keys base.chain base.chain approve
    ok (elim r [ none ↦ none | some x ↦ some (signed_of x) ])

  -- The interface of the commands, filled by the transaction's code.
  abbrev pub signer : Signer core
  signer = record {
    Review = TransactionReview core bitcoin;
    chain = base.chain;
    mainnet = base.mainnet;
    public_key_review = base.public_key_review;
    policy_review = base.policy_review;
    policy_details = base.policy_details;
    address_review = base.address_review;
    address_of = base.address_of;
    sign = sign_request;
  }

  -- What stands behind the body of a reply to the signing command.
  abbrev pub IsBacked : Keys core → QrApproval (TransactionReview core bitcoin) → Bytes → Type 0
  IsBacked keys approve body =
      (policy : Policy core) × (proof : Bytes) × (raw : Bytes) × (request : PsbtData core bitcoin
        psbts)
      × (t : ReviewedTransaction core bitcoin psbts) × (r : SigningResult) × (read_psbt core bitcoin
            psbts raw
          ≡ ok request)
      × (review_transaction core bitcoin psbts request policy keys proof base.chain ≡ ok t)
      × Consented core bitcoin psbts t base.chain base.chain approve.transaction
      × (authorized core t.policy keys t.tag ≡ ok true)
      × (t.review.fee_unverified ≡ false)
      × SignedFrom core bitcoin psbts t keys r
      × (body ≡ signed_body core lib signer (signed_of r))

  request_signed :
      (policy : Policy core) (keys : Keys core) (proof raw : Bytes)
      (approve : Option (TransactionReview core bitcoin → Bool)) (s : Signed)
      → sign_request policy keys proof raw approve ≡ ok (some s)
      → (request : PsbtData core bitcoin psbts) × (t : ReviewedTransaction core bitcoin psbts)
        × (r : SigningResult) × (read_psbt core bitcoin psbts raw ≡ ok request)
        × (review_transaction core bitcoin psbts request policy keys proof base.chain ≡ ok t)
        × (sign core bitcoin psbts t keys base.chain base.chain approve ≡ ok (some r))
        × (signed_of r ≡ s)
  unfolding sign_request review_raw
  request_signed policy keys proof raw approve s e =
      let (t, a, e1) =
        >>=-eq-ok (review_raw core bitcoin psbts policy keys proof raw base.chain) _ e in
      let (request, b, c) = >>=-eq-ok (read_psbt core bitcoin psbts raw) _ a in
      let (o, d, e2) =
        >>=-eq-ok (sign core bitcoin psbts t keys base.chain base.chain approve) _ e1 in
      elim (Option-cases o) [
        | inl declined ↦ (let bad = rw (declined) at e2 in cc)
        | inr (r, yes_signed) ↦
            (let same = rw (yes_signed) at e2 in (request, t, r, b, c, d ∙ ap ok yes_signed, cc))
      ]

  -- The signing command answers with a body only after the whole of the transaction's checks: the request was read and
  -- reviewed under a policy that the proof authorizes, its fee was verified, the user said yes to that
  -- review, and the body is the reply that signing made of it.
  pub command_signed :
      (keys : Keys core) (approve : QrApproval (TransactionReview core bitcoin)) (s body : Bytes)
      → sign_transaction core lib signer keys approve s ≡ ok (some body)
      → IsBacked keys approve body
  unfolding sign_transaction
  command_signed keys approve s body e =
      let (_, _, e1) = >>=-eq-ok (Cbor.tuple 3 s) _ e in
      let (x, _, e2) = >>=-eq-ok (read_authorized core lib signer keys _) _ e1 in
      let (y, _, e3) = >>=-eq-ok (Cbor.bytes max_psbt_bytes x.2) _ e2 in
      let (_, e4) = >>-eq-ok (Cbor.end y.1) _ e3 in
      let (o, a, e5) = >>=-eq-ok (sign_request x.0 keys x.1 y.0 approve.transaction) _ e4 in
      elim (Option-cases o) [
        | inl declined ↦ (let bad = rw (declined) at e5 in cc)
        | inr (signed, yes_signed) ↦
            let same = rw (yes_signed) at e5 in
            let (request, t, r, b, c, d, f) =
              request_signed x.0 keys x.1 y.0 approve.transaction signed (a ∙ ap ok yes_signed) in
            let (consent, seed, fee, _) =
              sign_consent core bitcoin psbts t keys base.chain base.chain approve.transaction r
                d in
            (
              x.0,
              x.1,
              y.0,
              request,
              t,
              r,
              b,
              c,
              consent,
              seed,
              fee,
              sign_reply core bitcoin psbts t keys base.chain base.chain approve.transaction r d,
              same_body (signed_body core lib signer signed) body same
                  ∙ ap (signed_body core lib signer) (sym f),
            )
      ]
    where
      same_body :
          (a b : Bytes) → ◌≡◌ {A = Result (Option Bytes)} (ok (some a)) (ok (some b)) → b ≡ a
      same_body a b h = cc

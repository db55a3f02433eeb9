-- ===== src/Transaction/Sign.antt =====
-- src/transaction.cpp, ReviewedTransaction::Sign: signing what the user approved.
pub mod Steps
pub mod Added
pub mod Consent
use thunderden.Base.{
  ℕ, zero, suc, ◌+◌, ◌*◌, Bool, true, false, not, ◌&&◌, ◌||◌, List, [], ◌∷◌, Option, none, some,
  leb, ltb, if◌then◌else◌, is_some, is_empty, length, get_elem?, Result, ok, err, ◌>>=◌, ◌>>◌,
  require, or_throw, text_eq, Bytes,
}
use thunderden.Core.{Core}
use thunderden.Keys.{Keys}
use thunderden.Policy.Owner.{authorized}
use thunderden.Policy.Positions.{private_provider}
use thunderden.Transaction.Library.{
  Bitcoin, TxOut, PsbtInput, Psbt, Psbts, SignStatus, signed, incomplete, failed,
}
use thunderden.Transaction.{max_psbt_bytes, signing_rule}
use thunderden.Transaction.Read.{PsbtData}
use thunderden.Transaction.Review.{InputReview, TransactionReview, ReviewedTransaction, any_input}

pub record SigningResult : Type 0 where
  pub psbt : Bytes
  pub added_signatures : ℕ
  pub complete : Bool

abbrev pub find_entry : {A : Type 0} → Bytes → List (Bytes × A) → Option A
find_entry key [] = none
find_entry key ((k, v) ∷ m) = if text_eq k key then some v else find_entry key m

-- ChangedEntries, with the values' equality.
unfoldable pub changed_entries :
    {A : Type 0} → (A → A → Bool) → List (Bytes × A) → List (Bytes × A) → ℕ
changed_entries same before [] = 0
changed_entries same before ((key, value) ∷ after) =
    (elim (find_entry key before) [ none ↦ 1 | some old ↦ if same old value then 0 else 1 ])
    + changed_entries same before after

unfoldable pub same_signature : Bytes × Bytes → Bytes × Bytes → Bool
same_signature a b = text_eq a.0 b.0 && text_eq a.1 b.1

module _ (core : Core) (bitcoin : Bitcoin core) (lib : Psbts core bitcoin) where
  unfoldable pub is_open : InputReview core bitcoin → Bool
  is_open r = is_some r.position && not r.finalized

  unfoldable pub added_signatures : PsbtInput core bitcoin → PsbtInput core bitcoin → ℕ
  added_signatures before after =
      changed_entries same_signature before.partial_sigs after.partial_sigs
      + (changed_entries text_eq before.tap_script_sigs after.tap_script_sigs
          + (if not (is_empty after.tap_key_sig)
                && not (text_eq after.tap_key_sig before.tap_key_sig)
              then 1
              else 0))

  -- One open input: only the keys of its own position reach the signer.
  unfoldable pub sign_one :
      ReviewedTransaction core bitcoin lib
      → Keys core
      → ℕ
      → InputReview core bitcoin
      → Psbt core bitcoin
      → ℕ
      → Result (Psbt core bitcoin × ℕ)
  sign_one t session index r psbt added = do
    position ← or_throw r.position "Input position"
    provider ← private_provider core t.policy position session
    utxo ← or_throw (get_elem? t.request.utxos index) "Input index"
    let (status, psbt') =
        lib.sign_input provider psbt index t.request.txdata (some (signing_rule core bitcoin utxo))
    require (elim status [ failed ↦ false | _ ↦ true ]) "Core signing failed"
    before ← or_throw (get_elem? t.request.psbt.inputs index) "Input index"
    after ← or_throw (get_elem? psbt'.inputs index) "Input index"
    ok (psbt', added + added_signatures before after)

  unfoldable pub sign_inputs :
      ReviewedTransaction core bitcoin lib
      → Keys core
      → ℕ
      → List (InputReview core bitcoin)
      → Psbt core bitcoin
      → ℕ
      → Result (Psbt core bitcoin × ℕ)
  sign_inputs t session index [] psbt added = ok (psbt, added)
  sign_inputs t session index (r ∷ reviews) psbt added = do
    (psbt', added') ← if is_open r then sign_one t session index r psbt added else ok (psbt, added)
    sign_inputs t session (index + 1) reviews psbt' added'

  unfoldable pub verify_from :
      Psbt core bitcoin → ℕ → List (PsbtInput core bitcoin) → lib.TxData → Bool
  verify_from psbt index [] txdata = true
  verify_from psbt index (i ∷ inputs) txdata =
      lib.is_verified psbt index txdata && verify_from psbt (index + 1) inputs txdata

  -- What is done once the user has approved.
  unfoldable pub sign_approved :
      ReviewedTransaction core bitcoin lib → Keys core → Result SigningResult
  sign_approved t session = do
    (psbt, added) ← sign_inputs t session 0 t.review.inputs t.request.psbt 0
    require (ltb 0 added) "No new local signature was added"
    require (text_eq (lib.tx_hash psbt.tx) (lib.tx_hash t.request.psbt.tx))
        "Unsigned transaction changed"
    let (complete, finalized) = lib.finalize psbt
    require (not complete || verify_from finalized 0 finalized.inputs t.request.txdata)
        "Final script verification failed"
    require (leb (length (lib.serialize psbt)) (2 * max_psbt_bytes))
        "Signed PSBT size limit exceeded"
    ok (record { psbt = lib.serialize psbt; added_signatures = added; complete = complete })

  -- The network is read again after the user has answered.
  unfoldable pub sign :
      ReviewedTransaction core bitcoin lib
      → Keys core
      → Bytes
      → Bytes
      → Option (TransactionReview core bitcoin → Bool)
      → Result (Option SigningResult)
  sign t session chain chain_after approve = do
    require (text_eq chain t.review.network) "Network changed after review"
    allowed ← authorized core t.policy session t.tag
    require allowed "Seed changed after review"
    require (any_input core bitcoin lib is_open t.review.inputs)
        "Nothing more to sign for this wallet"
    require (not t.review.fee_unverified) "Cannot verify transaction fee."
    callback ← or_throw approve "Missing transaction approval callback"
    if callback t.review
        then (do
          require (text_eq chain_after t.review.network) "Network changed during approval"
          result ← sign_approved t session
          ok (some result))
        else ok none

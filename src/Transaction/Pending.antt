-- ===== src/Transaction/Pending.antt =====
-- src/transaction.cpp, ReviewedTransaction::PendingInputCount: inputs that still want a signature of
-- this session, without any private key.
use thunderden.Base.{
  ℕ, ◌+◌, Bool, true, false, ◌&&◌, List, [], ◌∷◌, Option, none, some, ◌==◌, if◌then◌else◌, is_some,
  is_empty, length, get_elem?, Result, ok, ◌>>=◌, ◌>>◌, require, or_throw, text_eq, Bytes,
}
use thunderden.Core.{Core}
use thunderden.Keys.{Keys, root_fingerprint, public_at}
use thunderden.Policy.Owner.{authorized}
use thunderden.Policy.Positions.{Hint, public_provider}
use thunderden.Transaction.Library.{Bitcoin, TxOut, PsbtInput, Psbt, Psbts, signed}
use thunderden.Transaction.{witness_version}
use thunderden.Transaction.Review.{InputReview, ReviewedTransaction}
use thunderden.Transaction.Sign.{find_entry, is_open}

module _ (core : Core) (bitcoin : Bitcoin core) (lib : Psbts core bitcoin) where
  -- The key that stands at an origin of this session.
  unfoldable pub is_own_key : Keys core → Bytes → Hint → Result Bool
  is_own_key session pub_key origin =
      if text_eq (root_fingerprint core session) origin.fingerprint
      then (public_at core session origin.path >>= λ key. ok (text_eq (core.pubkey key) pub_key))
      else ok false

  -- The script that a signature of the input commits to.
  unfoldable pub script_code : TxOut core → PsbtInput core bitcoin → Option ℕ → Result core.Script
  script_code utxo input version =
      let code = if bitcoin.is_p2sh utxo.script then input.redeem_script else utxo.script in
      if elim version [ none ↦ false | some v ↦ v == 0 ]
      then (do
        (v, program) ← or_throw (bitcoin.witness_program code) "Missing witness program"
        ok (if length program == 20 then bitcoin.to_key_hash program else input.witness_script))
      else ok code

  -- Whether a signature of this session is missing; one that is there must be right.
  unfoldable pub missing_signature :
      Keys core
      → (Bytes → Bytes → Bool)
      → List (Bytes × (Bytes × Bytes))
      → List (Bytes × (Bytes × Hint))
      → Bool
      → Result Bool
  missing_signature session is_right sigs [] missing = ok missing
  missing_signature session is_right sigs ((key_id, (pub_key, origin)) ∷ origins) missing = do
    own ← is_own_key session pub_key origin
    missing' ←
        if own
        then elim (find_entry key_id sigs) [
          | none ↦ ok true
          | some (key, sig) ↦
              require (text_eq key pub_key && is_right pub_key sig)
                "Invalid existing signature for this wallet"
              >> ok missing
        ]
        else ok missing
    missing_signature session is_right sigs origins missing'

  -- One open input, with the public copy of the request that the calls complete.
  unfoldable pub pending_one :
      ReviewedTransaction core bitcoin lib
      → Keys core
      → ℕ
      → InputReview core bitcoin
      → Psbt core bitcoin
      → ℕ
      → Result (Psbt core bitcoin × ℕ)
  unfolding script_code missing_signature
  pending_one t session index r psbt pending = do
    position ← or_throw r.position "Input position"
    (provider, script) ← public_provider core t.policy position
    let (status, psbt') = lib.sign_input provider psbt index t.request.txdata r.signing_rule
    elim status [
      | signed ↦ ok (psbt', pending)
      | _ ↦ do
        input ← or_throw (get_elem? psbt'.inputs index) "Input index"
        utxo ← or_throw (get_elem? t.request.utxos index) "Input index"
        version ← witness_version core bitcoin utxo.script provider
        let taproot : Bool = elim version [ none ↦ false | some v ↦ v == 1 ]
        if taproot
            then (do
              require (is_some t.review.default_account) "Load a supported multisig wallet setup"
              require (is_empty input.tap_key_sig) "Invalid existing Taproot signature"
              ok (psbt', pending + 1))
            else (do
              code ← script_code utxo input version
              let segwit : Bool = elim version [ none ↦ false | some v ↦ v == 0 ]
              missing ←
                  missing_signature session
                    (λ key sig.
                      lib.is_ecdsa_signature psbt' index utxo.value t.request.txdata sig key code
                        segwit)
                    input.partial_sigs (bitcoin.origins provider) false
              ok (psbt', if missing then pending + 1 else pending))
    ]

  unfoldable pub pending_inputs :
      ReviewedTransaction core bitcoin lib
      → Keys core
      → ℕ
      → List (InputReview core bitcoin)
      → Psbt core bitcoin
      → ℕ
      → Result ℕ
  unfolding pending_one
  pending_inputs t session index [] psbt pending = ok pending
  pending_inputs t session index (r ∷ reviews) psbt pending = do
    (psbt', pending') ←
        if is_open core bitcoin lib r
        then pending_one t session index r psbt pending
        else ok (psbt, pending)
    pending_inputs t session (index + 1) reviews psbt' pending'

  unfoldable pub pending_input_count : ReviewedTransaction core bitcoin lib → Keys core → Result ℕ
  pending_input_count t session = do
    allowed ← authorized core t.policy session t.tag
    require allowed "Wallet policy is not authorized for this seed"
    pending_inputs t session 0 t.review.inputs t.request.psbt 0

-- ===== src/Transaction/Read.antt =====
-- src/transaction.cpp, PreviousOutput and ReadPSBT: a request is decoded and validated once.
pub mod Fee
use thunderden.Base.{
  ℕ, zero, suc, ◌+◌, ◌-◌, Bool, true, false, not, ◌&&◌, ◌||◌, List, [], ◌∷◌, ◌++◌, Option, none,
  some, leb, ◌==◌, if◌then◌else◌, is_some, is_empty, length, get_elem?, all, Result, ok, err, ◌>>=◌,
  ◌>>◌, require, or_throw, Bytes,
}
use thunderden.Core.{Core}
use thunderden.Policy.Positions.{Hint}
use thunderden.Transaction.Library.{Bitcoin, TxOut, PsbtInput, Psbt, Psbts, UnsignedTx}
use thunderden.Transaction.{
  is_money, add_amount, max_psbt_bytes, witness_version, external_scripts, txout_eq,
}

module _ (core : Core) (bitcoin : Bitcoin core) (lib : Psbts core bitcoin) where
  pub record PsbtData : Type 0 where
    pub psbt : Psbt core bitcoin
    pub utxos : List (TxOut core)
    pub txdata : lib.TxData
    pub fee : ℕ
    pub missing_previous : ℕ
    pub finalized : Bool

  unfoldable pub previous_output :
      Psbt core bitcoin → ℕ → PsbtInput core bitcoin → Result (TxOut core)
  previous_output psbt index input = do
    utxo ← or_throw (lib.input_utxo psbt index) "Missing or incorrect previous output"
    require (elim input.witness_utxo [ none ↦ true | some w ↦ txout_eq core bitcoin w utxo ])
        "Conflicting previous-output data"
    require (is_money utxo.value) "Amount out of range"
    require (not (bitcoin.is_unspendable utxo.script)) "Input spends an unspendable script"
    ok utxo

  -- The loop over the account keys that the request lists.
  unfoldable pub check_xpubs : ℕ → List (Hint × List core.ExtPubKey) → Result (Unit {0})
  check_xpubs count [] = ok tt
  check_xpubs count ((origin, keys) ∷ xpubs) = do
    require (leb (length origin.path) 32) "Account origin is too deep"
    require (leb (count + length keys) 32) "Too many account keys in this PSBT"
    check_xpubs (count + length keys) xpubs

  -- What the loop over the inputs gathers: outputs spent, their total, and how many come without the
  -- transaction that made them.
  pub record Gathered : Type 0 where
    pub utxos : List (TxOut core)
    pub total : ℕ
    pub missing : ℕ

  unfoldable pub check_input : PsbtInput core bitcoin → Result (Unit {0})
  check_input input = do
    require
        (is_empty input.musig2_participants
          && (is_empty input.musig2_pubnonces && is_empty input.musig2_partial_sigs))
        "MuSig2 is not supported"
    require
        (all
          (λ (s : Bytes × (Bytes × Bytes)). not (is_empty s.1.1) && lib.is_signature_encoding s.1.1)
          input.partial_sigs)
        "Invalid partial signature encoding"

  unfoldable pub gather :
      Psbt core bitcoin → ℕ → Gathered → List (PsbtInput core bitcoin) → Result Gathered
  gather psbt index g [] = ok g
  gather psbt index g (input ∷ inputs) = do
    utxo ← previous_output psbt index input
    total ← add_amount g.total utxo.value
    check_input input
    gather psbt (index + 1)
        (record {
          utxos = g.utxos ++ (utxo ∷ []);
          total = total;
          missing = g.missing + (if is_some input.non_witness_utxo then 0 else 1);
        })
        inputs

  unfoldable pub add_outputs : ℕ → List (TxOut core) → Result ℕ
  add_outputs total [] = ok total
  add_outputs total (output ∷ outputs) = do
    total' ← add_amount total output.value
    add_outputs total' outputs

  -- The last loop: whether all inputs are final, each final input verified.
  unfoldable pub check_final :
      Psbt core bitcoin
      → lib.TxData
      → ℕ
      → Bool
      → List (PsbtInput core bitcoin)
      → List (TxOut core)
      → Result Bool
  check_final psbt txdata index finalized [] utxos = ok finalized
  check_final psbt txdata index finalized (input ∷ inputs) [] = ok finalized
  check_final psbt txdata index finalized (input ∷ inputs) (utxo ∷ utxos) =
      let final = (do
        known ←
            if is_some input.non_witness_utxo
            then ok true
            else (witness_version core bitcoin utxo.script (external_scripts core bitcoin input)
                >>= λ version. ok (is_some version))
        require known
            "Full previous transactions are required for legacy or unrecognized input types"
        require (lib.is_verified psbt index txdata) "Invalid finalized input"
        check_final psbt txdata (index + 1) finalized inputs utxos) in
      let open' = check_final psbt txdata (index + 1) false inputs utxos in
      if lib.is_signed input then final else open'

  unfoldable pub read_psbt : Bytes → Result PsbtData
  read_psbt raw = do
    require (not (is_empty raw) && leb (length raw) max_psbt_bytes) "PSBT size limit exceeded"
    psbt ← or_throw (lib.decode raw) "Invalid PSBTv0"
    require (psbt.version == 0) "Invalid PSBTv0"
    require (leb (length psbt.inputs) 128 && leb (length psbt.outputs) 128)
        "Too many transaction inputs or outputs"
    check_xpubs 0 psbt.xpubs
    require (lib.is_valid_tx psbt.tx) "Invalid unsigned transaction"
    g ← gather psbt 0 (record { utxos = []; total = 0; missing = 0 }) psbt.inputs
    outputs_total ← add_outputs 0 psbt.tx.outputs
    require (leb outputs_total g.total) "Transaction spends more than its inputs"
    let txdata = lib.precompute psbt
    finalized ← check_final psbt txdata 0 true psbt.inputs g.utxos
    ok (record {
      psbt = psbt;
      utxos = g.utxos;
      txdata = txdata;
      fee = g.total - outputs_total;
      missing_previous = g.missing;
      finalized = finalized;
    })

-- ===== src/Transaction/Library.antt =====
-- What src/transaction.cpp takes from Bitcoin Core: scripts, transactions and partially signed
-- transactions. Each field is the call of that name; a call that returns false with no output is `none`.
use thunderden.Base.{ℕ, Bool, List, Option, Bytes}
use thunderden.Core.{Core}
use thunderden.Policy.Positions.{Hint}

-- Scripts, and the providers that scripts are found in.
pub record Bitcoin (core : Core) : Type 1 where
  pub Tx : Type 0
  pub OutPoint : Type 0
  pub Witness : Type 0
  pub is_empty_script : core.Script → Bool
  pub empty_script : core.Script
  pub is_p2sh : core.Script → Bool
  pub is_p2tr : core.Script → Bool
  pub is_unspendable : core.Script → Bool
  pub witness_program : core.Script → Option (ℕ × Bytes)
  -- GetScriptForDestination of ScriptHash, WitnessV0ScriptHash and PKHash.
  pub to_script_hash : core.Script → core.Script
  pub to_witness_hash : core.Script → core.Script
  pub to_key_hash : Bytes → core.Script
  -- Solver: the hash of a script-hash output; the threshold and the keys of a bare multisig script.
  pub script_hash : core.Script → Bytes
  pub multisig : core.Script → Option (ℕ × List Bytes)
  -- The data of a script that is one push, as a script.
  pub single_push : core.Script → Option core.Script
  -- ExtractDestination and EncodeDestination.
  pub address_of : core.Script → Option Bytes
  pub provider_of : List core.Script → core.Provider
  pub get_script : core.Provider → Bytes → Option core.Script
  pub origins : core.Provider → List (Bytes × (Bytes × Hint))
  pub empty_witness : Witness

module _ (core : Core) where
  -- CTxOut. An amount is a CAmount by its 64 bits, so a negative one is at least 2^63.
  pub record TxOut : Type 0 where
    pub value : ℕ
    pub script : core.Script

  module _ (bitcoin : Bitcoin core) where
    pub record TxIn : Type 0 where
      pub previous : bitcoin.OutPoint
      pub sequence : ℕ

    -- CMutableTransaction, without signatures.
    pub record UnsignedTx : Type 0 where
      pub version : ℕ
      pub locktime : ℕ
      pub inputs : List TxIn
      pub outputs : List TxOut

    -- PSBTInput: the fields that the program reads. Maps are lists of entries.
    pub record PsbtInput : Type 0 where
      pub non_witness_utxo : Option bitcoin.Tx
      pub witness_utxo : Option TxOut
      pub redeem_script : core.Script
      pub witness_script : core.Script
      pub final_script_sig : core.Script
      pub final_script_witness : bitcoin.Witness
      pub hd_keypaths : List (Bytes × Hint)
      pub tap_paths : List (Bytes × Hint)
      pub partial_sigs : List (Bytes × (Bytes × Bytes))
      pub tap_key_sig : Bytes
      pub tap_script_sigs : List (Bytes × Bytes)
      pub tap_internal_key : Bytes
      pub tap_merkle_root : Bytes
      pub tap_scripts : List (Bytes × List Bytes)
      pub ripemd160_preimages : List (Bytes × Bytes)
      pub sha256_preimages : List (Bytes × Bytes)
      pub hash160_preimages : List (Bytes × Bytes)
      pub hash256_preimages : List (Bytes × Bytes)
      pub sighash_type : Option ℕ
      pub musig2_participants : List Bytes
      pub musig2_pubnonces : List Bytes
      pub musig2_partial_sigs : List Bytes

    pub record PsbtOutput : Type 0 where
      pub hd_keypaths : List (Bytes × Hint)
      pub tap_paths : List (Bytes × Hint)

    pub record Psbt : Type 0 where
      pub version : ℕ
      pub tx : UnsignedTx
      pub inputs : List PsbtInput
      pub outputs : List PsbtOutput
      pub xpubs : List (Hint × List core.ExtPubKey)

    -- SignPSBTInput's outcome.
    pub data SignStatus : Type 0 where
      signed incomplete failed : SignStatus

    pub record Psbts : Type 1 where
      pub TxData : Type 0
      pub decode : Bytes → Option Psbt
      pub serialize : Psbt → Bytes
      -- Not a coinbase, and CheckTransaction.
      pub is_valid_tx : UnsignedTx → Bool
      pub input_utxo : Psbt → ℕ → Option TxOut
      pub precompute : Psbt → TxData
      pub is_signed : PsbtInput → Bool
      pub is_verified : Psbt → ℕ → TxData → Bool
      pub is_signature_encoding : Bytes → Bool
      -- SignPSBTInput with the data of the transaction and a rule, and with dummy signatures.
      pub sign_input : core.Provider → Psbt → ℕ → TxData → Option ℕ → SignStatus × Psbt
      pub sign_dummy : core.Provider → Psbt → ℕ → SignStatus × Psbt
      pub finalize : Psbt → Bool × Psbt
      pub tx_hash : UnsignedTx → Bytes
      -- GetVirtualTransactionSize of the transaction with the final scripts of the inputs.
      pub virtual_size : UnsignedTx → List (core.Script × bitcoin.Witness) → ℕ
      -- CheckECDSASignature for an input's output, with a key, a script and whether it is SegWit v0.
      pub is_ecdsa_signature : Psbt → ℕ → ℕ → TxData → Bytes → Bytes → core.Script → Bool → Bool
      -- Less-than of two public keys, IsFullyValid with IsCompressed, and ExtPubKey::Derive.
      pub key_lt : Bytes → Bytes → Bool
      pub is_compressed : Bytes → Bool
      pub derive_public : core.ExtPubKey → ℕ → Option core.ExtPubKey
      pub key_version : core.ExtPubKey → Bytes
      pub parent_fingerprint : core.ExtPubKey → Bytes

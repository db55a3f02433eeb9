-- ===== src/Transaction.antt =====
-- src/transaction.h and src/transaction.cpp: reading a transaction request, its review, and signing.
pub mod Library
pub mod Locate
pub mod Read
pub mod Review
pub mod Sign
pub mod Pending
pub mod Discover
pub mod Choices
pub mod Tests
use thunderden.Base.{
  ℕ, zero, suc, ◌+◌, ◌-◌, ◌*◌, ◌%◌, ◌^◌, Bool, true, false, not, ◌&&◌, ◌||◌, List, [], ◌∷◌, ◌++◌,
  Option, none, some, leb, ltb, ◌==◌, if◌then◌else◌, is_some, is_empty, length, get_elem?, all,
  Result, ok, err, ◌>>=◌, ◌>>◌, require, or_throw, text_eq, Bytes,
}
use thunderden.Core.{Core}
use thunderden.Policy.{Position}
use thunderden.Transaction.Library.{Bitcoin, TxOut, PsbtInput, Psbt, Psbts}

-- MAX_MONEY of Bitcoin Core: 21 million coins.
abbrev pub max_money : ℕ
max_money = 21000000 * 100000000

abbrev pub is_money : ℕ → Bool
is_money n = leb n max_money

-- `total += amount` on a CAmount, both in range.
unfoldable pub add_amount : ℕ → ℕ → Result ℕ
add_amount total amount = do
  require (is_money amount && is_money ((total + amount) % 2 ^ 64)) "Amount out of range"
  ok ((total + amount) % 2 ^ 64)

abbrev pub max_psbt_bytes : ℕ
max_psbt_bytes = 1024 * 1024

-- SIGHASH_DEFAULT and SIGHASH_ALL.
abbrev pub sighash_default : ℕ
sighash_default = 0

abbrev pub sighash_all : ℕ
sighash_all = 1

abbrev pub last_or : ℕ → Bytes → ℕ
last_or d [] = d
last_or d (c ∷ []) = c
last_or d (c ∷ (x ∷ s)) = last_or d (x ∷ s)

module _ (core : Core) (bitcoin : Bitcoin core) where
  -- The version of a recognized witness output, `none` for -1. A wrapped script must hash to the output.
  unfoldable pub witness_version : core.Script → core.Provider → Result (Option ℕ)
  witness_version output provider =
      let wrapped = bitcoin.is_p2sh output in
      let judge : core.Script → Option ℕ = λ script. elim (bitcoin.witness_program script) [
        | none ↦ none
        | some (version, program) ↦
            if version == 0 && (length program == 20 || length program == 32)
            then some 0
            else if not wrapped && (version == 1 && length program == 32)
            then some 1
            else none
      ] in
      if wrapped
      then elim (bitcoin.get_script provider (bitcoin.script_hash output)) [
        | none ↦ ok none
        | some script ↦
            require (core.script_eq (bitcoin.to_script_hash script) output) "Wrong redeem script"
            >> ok (judge script)
      ]
      else ok (judge output)

  -- The scripts that the request itself supplies, for an output that is not the policy's.
  unfoldable pub external_scripts : PsbtInput core bitcoin → core.Provider
  external_scripts input =
      let script =
        if bitcoin.is_empty_script input.redeem_script
          && not (bitcoin.is_empty_script input.final_script_sig)
        then elim (bitcoin.single_push input.final_script_sig) [
          | none ↦ input.redeem_script
          | some push ↦ push
        ]
        else input.redeem_script in
      bitcoin.provider_of (if bitcoin.is_empty_script script then [] else script ∷ [])

  unfoldable pub signing_rule : TxOut core → ℕ
  signing_rule output = if bitcoin.is_p2tr output.script then sighash_default else sighash_all

  unfoldable pub txout_eq : TxOut core → TxOut core → Bool
  txout_eq a b = a.value == b.value && core.script_eq a.script b.script

  -- The existing signatures of an input use its rule.
  unfoldable pub check_signatures : PsbtInput core bitcoin → ℕ → Result (Unit {0})
  check_signatures input rule = do
    require (elim input.sighash_type [ none ↦ true | some t ↦ t == rule ])
        "Unsupported signing rule"
    require
        (all (λ (s : Bytes × (Bytes × Bytes)). not (is_empty s.1.1) && last_or 256 s.1.1 == rule)
          input.partial_sigs)
        "Existing signature has an incompatible signing rule"
    if rule == sighash_default
        then (do
          require (is_empty input.partial_sigs) "Unexpected ECDSA signatures in Taproot input"
          require (is_empty input.tap_key_sig || length input.tap_key_sig == 64)
              "Existing Taproot signature has an incompatible signing rule"
          require (all (λ (s : Bytes × Bytes). length s.1 == 64) input.tap_script_sigs)
              "Existing Taproot signature has an incompatible signing rule")
        else require (is_empty input.tap_key_sig && is_empty input.tap_script_sigs)
            "Unexpected Taproot signatures"

  find_leaf : Bytes → List (Bytes × List Bytes) → Option (List Bytes)
  find_leaf leaf [] = none
  find_leaf leaf ((k, v) ∷ m) = if text_eq k leaf then some v else find_leaf leaf m

  has_bytes : List Bytes → Bytes → Bool
  has_bytes [] c = false
  has_bytes (x ∷ l) c = text_eq x c || has_bytes l c

  -- A script of the request is missing or the policy's own.
  abbrev absent_or_same : core.Script → core.Script → Bool
  absent_or_same script expected = bitcoin.is_empty_script script || core.script_eq script expected

  unfoldable pub check_leaves :
      List (Bytes × List Bytes) → List (Bytes × List Bytes) → Result (Unit {0})
  unfolding find_leaf has_bytes
  check_leaves expected [] = ok tt
  check_leaves expected ((leaf, controls) ∷ leaves) = do
    found ← or_throw (find_leaf leaf expected) "Taproot leaf is outside the wallet policy"
    require (all (has_bytes found) controls) "Taproot control block is outside the wallet policy"
    check_leaves expected leaves

  unfoldable pub check_scripts : PsbtInput core bitcoin → PsbtInput core bitcoin → Result (Unit {0})
  check_scripts input expected = do
    require (absent_or_same input.redeem_script expected.redeem_script) "Wrong redeem script"
    require (absent_or_same input.witness_script expected.witness_script) "Wrong witness script"
    require
        (is_empty input.tap_internal_key
          || text_eq input.tap_internal_key expected.tap_internal_key)
        "Wrong Taproot internal key"
    require
        (is_empty input.tap_merkle_root || text_eq input.tap_merkle_root expected.tap_merkle_root)
        "Wrong Taproot tree root"
    check_leaves expected.tap_scripts input.tap_scripts

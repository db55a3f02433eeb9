-- ===== src/Transaction/Choices.antt =====
-- src/transaction.cpp, FindSigningWallets: the wallets of this session that can sign a request.
pub mod Valid
use thunderden.Base.{
  ℕ, zero, suc, ◌+◌, ◌-◌, Bool, true, false, not, ◌&&◌, ◌||◌, List, [], ◌∷◌, ◌++◌, Option, none,
  some, leb, ltb, ◌==◌, if◌then◌else◌, is_some, is_empty, length, replicate, Result, ok, err, ◌>>=◌,
  ◌>>◌, require, text_eq, Bytes,
}
use thunderden.Core.{Core}
use thunderden.Keys.{Keys, hardened, root_fingerprint}
use thunderden.Policy.{Position, Policy}
use thunderden.Policy.Owner.{coin}
use thunderden.Policy.Positions.{Hint}
use thunderden.Policy.Standard.{default_policy}
use thunderden.Transaction.Library.{Bitcoin, TxOut, PsbtInput, Psbt, Psbts}
use thunderden.Transaction.Locate.{insert, locate}
use thunderden.Transaction.Read.{PsbtData, read_psbt}
use thunderden.Transaction.Review.{ReviewedTransaction, review_transaction}
use thunderden.Transaction.Pending.{pending_input_count}
use thunderden.Transaction.Discover.{Discovery, discover_multisig}

-- A purpose and an account, ordered as std::pair.
pub record Account : Type 0 where
  pub purpose : ℕ
  pub number : ℕ

pub account_lt : Account → Account → Bool
account_lt a b = ltb a.purpose b.purpose || (a.purpose == b.purpose && ltb a.number b.number)

-- The purpose of a hint's first step, if it is one of the four.
unfoldable pub purpose_of : ℕ → Option ℕ
purpose_of step =
    if step == hardened + 44
    then some 44
    else if step == hardened + 49
    then some 49
    else if step == hardened + 84
    then some 84
    else if step == hardened + 86
    then some 86
    else none

-- The account that a hint's path names: purpose, coin, account, branch and index.
unfoldable pub hinted_account : Bool → List ℕ → Option Account
unfolding purpose_of
hinted_account mainnet (a ∷ (b ∷ (c ∷ (d ∷ (e ∷ []))))) =
    if b == coin mainnet
      && (leb hardened c && (leb c (hardened + 100) && (leb d 1 && ltb e hardened)))
    then elim (purpose_of a) [
      | none ↦ none
      | some purpose ↦ some (record { purpose = purpose; number = c - hardened })
    ]
    else none
hinted_account mainnet path = none

module _ (core : Core) (bitcoin : Bitcoin core) (lib : Psbts core bitcoin) where
  pub record SigningChoice : Type 0 where
    pub transaction : ReviewedTransaction core bitcoin lib
    pub inputs : ℕ

  pub record SigningChoices : Type 0 where
    pub wallets : List SigningChoice
    pub needs_wallet : Bool
    pub multisig : Bool
    pub setup : Option (Policy core)

  -- ApprovedWallet.
  pub record ApprovedWallet : Type 0 where
    pub policy : Policy core
    pub proof : Bytes

  module _ (session : Keys core) (mainnet : Bool) (chain : Bytes) where
    unfoldable pub add_hints : List (Bytes × Hint) → List Account → Result (List Account)
    add_hints [] accounts = ok accounts
    add_hints ((key, hint) ∷ hints) accounts =
        let skip = add_hints hints accounts in
        let keep = λ (account : Account).
          require (leb (length (insert account_lt account accounts)) 8)
            "Too many signing accounts in one request"
          >> add_hints hints (insert account_lt account accounts) in
        if text_eq (root_fingerprint core session) hint.fingerprint
        then elim (hinted_account mainnet hint.path) [ none ↦ skip | some account ↦ keep account ]
        else skip

    unfoldable pub gather_accounts :
        List (PsbtInput core bitcoin) → List Account → Result (List Account)
    gather_accounts [] accounts = ok accounts
    gather_accounts (input ∷ inputs) accounts = do
      require (leb (length input.hd_keypaths + length input.tap_paths) 128)
          "Too many derivation hints"
      with_keys ← add_hints input.hd_keypaths accounts
      with_taproot ← add_hints input.tap_paths with_keys
      gather_accounts inputs with_taproot

    unfoldable pub any_located :
        Policy core → List (PsbtInput core bitcoin) → List (TxOut core) → Result Bool
    any_located policy (input ∷ inputs) (utxo ∷ utxos) = do
      position ← locate core policy utxo.script input.hd_keypaths input.tap_paths
      rest ← any_located policy inputs utxos
      ok (is_some position || rest)
    any_located policy inputs utxos = ok false

    -- The lambda `add`: a wallet that recognizes an input, and a choice if it has something to sign.
    unfoldable pub add_wallet :
        PsbtData core bitcoin lib → Policy core → Bytes → SigningChoices → Result SigningChoices
    add_wallet request policy proof c = do
      matches ← any_located policy request.psbt.inputs request.utxos
      if not matches then ok c else (do
        t ← review_transaction core bitcoin lib request policy session proof chain
        count ← pending_input_count core bitcoin lib t session
        ok (record c {
          needs_wallet = false;
          wallets =
              if count == 0
              then c.wallets
              else c.wallets ++ (record { transaction = t; inputs = count } ∷ []);
        }))

    unfoldable pub add_accounts :
        PsbtData core bitcoin lib → List Account → SigningChoices → Result SigningChoices
    add_accounts request [] c = ok c
    add_accounts request (a ∷ accounts) c = do
      policy ← default_policy core session a.purpose a.number mainnet
      c' ← add_wallet request policy (replicate 32 0) c
      add_accounts request accounts c'

    unfoldable pub add_loaded :
        PsbtData core bitcoin lib → Option ApprovedWallet → SigningChoices → Result SigningChoices
    add_loaded request none c = ok c
    add_loaded request (some wallet) c = add_wallet request wallet.policy wallet.proof c

    unfoldable pub loaded_policy : Option ApprovedWallet → Option (Policy core)
    loaded_policy none = none
    loaded_policy (some wallet) = some wallet.policy

    -- Only where no wallet can sign is a multisig wallet looked for.
    unfoldable pub add_discovery :
        PsbtData core bitcoin lib → Option ApprovedWallet → SigningChoices → Result SigningChoices
    unfolding loaded_policy
    add_discovery request loaded c = do
      d ←
          discover_multisig core bitcoin lib request session mainnet (loaded_policy loaded)
            (record {
              needs_wallet = c.needs_wallet;
              multisig = c.multisig;
              setup = c.setup;
              ambiguous = false;
            })
      ok (record c { needs_wallet = d.needs_wallet; multisig = d.multisig; setup = d.setup })

    unfoldable pub find_signing_wallets : Bytes → Option ApprovedWallet → Result SigningChoices
    find_signing_wallets raw loaded = do
      request ← read_psbt core bitcoin lib raw
      if request.finalized
          then ok (record { wallets = []; needs_wallet = false; multisig = false; setup = none })
          else (do
            accounts ← gather_accounts request.psbt.inputs []
            c ←
                add_accounts request accounts
                  (record { wallets = []; needs_wallet = true; multisig = false; setup = none })
            c' ← add_loaded request loaded c
            if is_empty c'.wallets then add_discovery request loaded c' else ok c')

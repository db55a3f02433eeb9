-- ===== src/Transaction/Discover.antt =====
-- src/transaction.cpp, DiscoverMultisig: the multisig wallet that a request describes.
pub mod Sound
mod Tests
use thunderden.Base.{
  ℕ, Bool, true, false, not, ◌&&◌, ◌||◌, List, [], ◌∷◌, ◌++◌, Option, none, some, leb, ltb, ◌==◌,
  if◌then◌else◌, is_some, is_empty, length, get_elem?, drop, Result, ok, ◌>>=◌, ◌>>◌, require,
  or_throw, text_eq, codes, Bytes,
}
use thunderden.Core.{Core}
use thunderden.Keys.{
  Keys, hardened, root_fingerprint, public_at, path_text, encode_public, version_bytes,
}
use thunderden.Policy.{Position, Policy}
use thunderden.Policy.Owner.{owned_keys, id}
use thunderden.Policy.Positions.{Hint, Steps, last_steps, script}
use thunderden.Policy.Standard.{path_eq, multisig_account_path, multisig_policy}
use thunderden.Transaction.Library.{Bitcoin, TxOut, PsbtInput, Psbts}
use thunderden.Transaction.Locate.{locate}
use thunderden.Transaction.Read.{PsbtData}
use thunderden.Transaction.Sign.{find_entry}

-- Operator < of std::string, and std::sort of a few texts.
unfoldable pub text_lt : Bytes → Bytes → Bool
text_lt a [] = false
text_lt [] (b ∷ bs) = true
text_lt (a ∷ as') (b ∷ bs) = ltb a b || (a == b && text_lt as' bs)

unfoldable pub insert_text : Bytes → List Bytes → List Bytes
insert_text t [] = t ∷ []
insert_text t (u ∷ l) = let rest = insert_text t l in if text_lt u t then u ∷ rest else t ∷ (u ∷ l)

unfoldable pub sort_texts : List Bytes → List Bytes
unfolding insert_text
sort_texts [] = []
sort_texts (t ∷ l) = insert_text t (sort_texts l)

unfoldable pub last_step : List ℕ → ℕ
last_step [] = 0
last_step (a ∷ []) = a
last_step (a ∷ (b ∷ l)) = last_step (b ∷ l)

abbrev is_path_length : ℕ → Bool
is_path_length n = leb 3 n && leb n 6

module _ (core : Core) (bitcoin : Bitcoin core) (lib : Psbts core bitcoin) where
  -- The part of SigningChoices that discovery changes, and whether two wallets were found.
  pub record Discovery : Type 0 where
    pub needs_wallet : Bool
    pub multisig : Bool
    pub setup : Option (Policy core)
    pub ambiguous : Bool

  module _ (request : PsbtData core bitcoin lib) (session : Keys core) (mainnet : Bool) where
    -- The lambda `local_hint`: a hint of the request for a key of this session.
    unfoldable pub local_hint : ℕ → List (Bytes × Hint) → Result Bool
    local_hint script_type [] = ok false
    local_hint script_type ((pub_key, hint) ∷ hints) =
        let rest = local_hint script_type hints in
        let own =
          (public_at core session hint.path >>= λ key.
          if text_eq (core.pubkey key) pub_key then ok true else rest) in
        elim (last_steps hint.path) [
          | none ↦ rest
          | some s ↦
              if is_path_length (length hint.path) && (leb s.branch 1 && ltb s.index hardened)
              then (if multisig_account_path s.account script_type mainnet
                    && text_eq (root_fingerprint core session) hint.fingerprint
                  then own
                  else rest)
              else rest
        ]

    -- The lambda for both layouts of a script hash.
    unfoldable pub either_hint : List (Bytes × Hint) → Result Bool
    either_hint hints =
        local_hint 0 hints >>= λ legacy. if legacy then ok true else local_hint 1 hints

    -- What an input's scripts say: nothing of a multisig wallet, too little to know one, or its script.
    pub data Reading : Type 0 where
      unrelated : Reading
      hinted : Bool → Reading
      script_of : core.Script → ℕ → Reading

    -- Behind the redeem script: `wrapped` for an output that is a script hash.
    unfoldable pub read_witness : PsbtInput core bitcoin → Bool → core.Script → Result Reading
    read_witness input wrapped redeemed = elim (bitcoin.witness_program redeemed) [
      | none ↦ ok (if wrapped then script_of redeemed 0 else unrelated)
      | some (version, program) ↦
          if not (version == 0) || not (length program == 32)
          then ok unrelated
          else if bitcoin.is_empty_script input.witness_script
          then (local_hint (if wrapped then 1 else 2) input.hd_keypaths >>= λ h. ok (hinted h))
          else (require (core.script_eq (bitcoin.to_witness_hash input.witness_script) redeemed)
                "Wrong witness script"
              >> ok (script_of input.witness_script (if wrapped then 1 else 2)))
    ]

    unfoldable pub read_scripts : PsbtInput core bitcoin → core.Script → Result Reading
    read_scripts input output =
        if bitcoin.is_p2sh output
        then (if bitcoin.is_empty_script input.redeem_script
            then (either_hint input.hd_keypaths >>= λ h. ok (hinted h))
            else (require (core.script_eq (bitcoin.to_script_hash input.redeem_script) output)
                  "Wrong redeem script"
                >> read_witness input true input.redeem_script))
        else read_witness input false output

    -- Whether a key of the script is this session's.
    unfoldable pub any_own : List (Bytes × Hint) → List Bytes → Result Bool
    any_own hints [] = ok false
    any_own hints (pub_key ∷ keys) = do
      here ← elim (find_entry pub_key hints) [
        | none ↦ ok false
        | some origin ↦
            if leb (length origin.path) 32
              && text_eq (root_fingerprint core session) origin.fingerprint
            then (public_at core session origin.path >>= λ key.
                ok (text_eq (core.pubkey key) pub_key))
            else ok false
      ]
      rest ← any_own hints keys
      ok (here || rest)

    unfoldable pub find_account :
        Bytes → List ℕ → List (Hint × List core.ExtPubKey) → Option (List core.ExtPubKey)
    find_account fingerprint path [] = none
    find_account fingerprint path ((origin, keys) ∷ m) =
        if text_eq origin.fingerprint fingerprint && path_eq origin.path path
        then some keys
        else find_account fingerprint path m

    -- The variables of the loop over the script's keys.
    pub record Cosigners : Type 0 where
      pub account_keys : List Bytes
      pub position : Option Position
      pub complete : Bool
      pub previous : Option Bytes

    -- The metadata of an account key against its origin, and the key that it derives.
    unfoldable pub check_account : core.ExtPubKey → Bytes → Steps → Bytes → Result (Unit {0})
    check_account account fingerprint s pub_key = do
      require
          (text_eq (lib.key_version account) (version_bytes core mainnet)
            && (core.depth account == length s.account
                && core.child account == last_step s.account))
          "Conflicting account key metadata"
      require (not (length s.account == 1) || text_eq (lib.parent_fingerprint account) fingerprint)
          "Conflicting parent fingerprint"
      branch ←
          or_throw (lib.derive_public account s.branch)
            "Account key does not derive the multisig input key"
      derived ←
          or_throw (lib.derive_public branch s.index)
            "Account key does not derive the multisig input key"
      require (text_eq (core.pubkey derived) pub_key)
          "Account key does not derive the multisig input key"

    unfoldable pub account_text : core.ExtPubKey → Bytes → List ℕ → Bytes
    account_text account fingerprint path =
        codes "["
        ++ (core.hex_str fingerprint
            ++ (drop 1 (path_text path) ++ (codes "]" ++ encode_public core account mainnet)))

    -- A key whose hint is there: its place in the wallet, and its account's key.
    unfoldable pub read_cosigner : ℕ → Bytes → Hint → Cosigners → Result Cosigners
    unfolding find_account
    read_cosigner script_type pub_key origin c = do
      require (is_path_length (length origin.path)) "Invalid multisig key path"
      s ← or_throw (last_steps origin.path) "Invalid multisig key path"
      require (leb s.branch 1 && ltb s.index hardened) "Invalid multisig receiving/change path"
      require
          (elim c.position [ none ↦ true | some p ↦ p.branch == s.branch && p.index == s.index ])
          "Cosigners describe different address positions"
      let placed : Cosigners = record c {
        position = some (record { branch = s.branch; index = s.index });
      }
      require (multisig_account_path s.account script_type mainnet)
          "Unsupported multisig account path"
      elim (find_account origin.fingerprint s.account request.psbt.xpubs) [
        | none ↦ ok (record placed { complete = false })
        | some accounts ↦ do
          require (length accounts == 1) "Ambiguous multisig account key"
          account ← or_throw (get_elem? accounts 0) "Ambiguous multisig account key"
          check_account account origin.fingerprint s pub_key
          ok (record placed {
            account_keys =
                c.account_keys ++ (account_text account origin.fingerprint s.account ∷ []);
          })
      ]

    unfoldable pub read_cosigners :
        ℕ → List (Bytes × Hint) → List Bytes → Cosigners → Result Cosigners
    read_cosigners script_type hints [] c = ok c
    read_cosigners script_type hints (pub_key ∷ keys) c = do
      require
          (lib.is_compressed pub_key
            && (elim c.previous [ none ↦ true | some k ↦ lib.key_lt k pub_key ]))
          "PSBT discovery requires distinct, sorted multisig keys"
      let next : Cosigners = record c { previous = some pub_key }
      c' ← elim (find_entry pub_key hints) [
        | none ↦ ok (record next { complete = false })
        | some origin ↦ read_cosigner script_type pub_key origin next
      ]
      read_cosigners script_type hints keys c'

    -- The wallet of complete cosigners, which must own a key here and have the input's script.
    unfoldable pub rebuild : ℕ → ℕ → Cosigners → core.Script → Result (Policy core)
    rebuild script_type threshold c output = do
      policy ← multisig_policy core script_type threshold (sort_texts c.account_keys) mainnet
      owned ← owned_keys core policy session
      require (not (is_empty owned)) "Reconstructed wallet does not match this input"
      position ← or_throw c.position "Reconstructed wallet does not match this input"
      s ← script core policy position.branch position.index
      require (core.script_eq s output) "Reconstructed wallet does not match this input"
      ok policy

    unfoldable pub add_setup : Policy core → Discovery → Discovery
    add_setup policy d = elim d.setup [
      | none ↦ record d { setup = some policy }
      | some q ↦
          if text_eq (id core q) (id core policy)
          then record d { setup = some policy }
          else record d { ambiguous = true }
    ]

    abbrev wanted : Discovery → Discovery
    wanted d = record d { multisig = true; needs_wallet = true }

    unfoldable pub discover_script :
        PsbtInput core bitcoin → core.Script → core.Script → ℕ → Discovery → Result Discovery
    discover_script input output code script_type d = elim (bitcoin.multisig code) [
      | none ↦ ok d
      | some (threshold, keys) ↦ do
        ours ← any_own input.hd_keypaths keys
        if not ours then ok d else (do
          c ←
              read_cosigners script_type input.hd_keypaths keys
                (record { account_keys = []; position = none; complete = true; previous = none })
          if not c.complete then ok (wanted d) else (do
            policy ← rebuild script_type threshold c output
            ok (add_setup policy (wanted d))))
    ]

    unfoldable pub discover_input :
        Option (Policy core) → PsbtInput core bitcoin → core.Script → Discovery → Result Discovery
    discover_input loaded input output d = if lib.is_signed input then ok d else (do
      known ← elim loaded [
        | none ↦ ok none
        | some policy ↦ locate core policy output input.hd_keypaths input.tap_paths
      ]
      if is_some known then ok d else (do
        reading ← read_scripts input output
        elim reading [
          | unrelated ↦ ok d
          | hinted h ↦ ok (if h then wanted d else d)
          | script_of code script_type ↦ discover_script input output code script_type d
        ]))

    unfoldable pub discover_inputs :
        Option (Policy core)
        → List (PsbtInput core bitcoin)
        → List (TxOut core)
        → Discovery
        → Result Discovery
    discover_inputs loaded (input ∷ inputs) (utxo ∷ utxos) d = do
      d' ← discover_input loaded input utxo.script d
      discover_inputs loaded inputs utxos d'
    discover_inputs loaded inputs utxos d = ok d

    -- Two wallets are no setup.
    unfoldable pub discover_multisig : Option (Policy core) → Discovery → Result Discovery
    discover_multisig loaded d = do
      d' ← discover_inputs loaded request.psbt.inputs request.utxos d
      ok (if d'.ambiguous then record d' { setup = none } else d')

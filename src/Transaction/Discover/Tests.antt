-- ===== src/Transaction/Discover/Tests.antt =====
-- A multisig wallet that a request describes by a redeem script of two keys and their accounts.
use thunderden.Base.{
  ℕ, ◌+◌, refl, true, false, List, [], ◌∷◌, ◌++◌, Option, none, some, replicate, is_empty, text_eq,
  if◌then◌else◌, Bytes,
}
use thunderden.Decimal.{to_string, digits_of, span_digits, digits_value, from_chars}
use thunderden.Keys.{
  hardened, path_text, steps_text, step_text, encode_public, public_at, derive, derive_from,
  root_fingerprint,
}
use thunderden.Policy.KeyText.{
  read_key, read_xpub, read_origin, origin_loop, take_token, number, harden,
}
use thunderden.Policy.Template.{
  scan, initial, round, reference, plain, nest, branches, new_paths, has_index, has_path, expansion,
  with_reference, with_char,
}
use thunderden.Policy.Build.{
  build, header, is_wrapper, read_keys, has_pubkey, has_key, same_keys, check_descriptor,
  check_descriptors, key_of, text_of,
}
use thunderden.Policy.Owner.{owned_keys, owned_from, owns}
use thunderden.Policy.Positions.{Hint, last_steps, script}
use thunderden.Policy.Standard.{
  multisig_policy, multisig_text, multisig_name, multisig_account_path, is_multisig_key,
  check_origins, last_or_zero,
}
use thunderden.Policy.Tests.{core, session, multisig}
use thunderden.Transaction.Library.{Bitcoin, TxOut, PsbtInput, Psbt, Psbts, incomplete}
use thunderden.Transaction.Read.{PsbtData}
use thunderden.Transaction.Discover.{
  Discovery, text_lt, insert_text, sort_texts, last_step, local_hint, either_hint, read_witness,
  read_scripts, any_own, find_account, check_account, account_text, read_cosigner, read_cosigners,
  rebuild, add_setup, discover_script, discover_input, discover_inputs, discover_multisig,
}
use thunderden.Transaction.Discover.Sound.{IsSound, proposed_wallet}

abbrev key_b : Bytes
key_b = (0x04 ∷ 0x88 ∷ 0xB2 ∷ 0x1E ∷ []) ++ (replicate 73 0 ++ (b'B' ∷ []))

abbrev zeros : Bytes
zeros = 0 ∷ 0 ∷ 0 ∷ 0 ∷ []

abbrev ones : Bytes
ones = 1 ∷ 1 ∷ 1 ∷ 1 ∷ []

abbrev bitcoin_m : Bitcoin core
bitcoin_m = record {
  Tx = ℕ;
  OutPoint = ℕ;
  Witness = Bytes;
  is_empty_script = is_empty;
  empty_script = [];
  is_p2sh = λ s. true;
  is_p2tr = λ s. false;
  is_unspendable = λ s. false;
  witness_program = λ s. none;
  to_script_hash = λ s. [];
  to_witness_hash = λ s. s;
  to_key_hash = λ s. s;
  script_hash = λ s. s;
  multisig = λ s. some (1, session.root ∷ (key_b ∷ []));
  single_push = λ s. none;
  address_of = λ s. none;
  provider_of = λ l. 0;
  get_script = λ p h. none;
  origins = λ p. [];
  empty_witness = [];
}

abbrev steps : List ℕ
steps = (hardened + 45) ∷ (0 ∷ (9 ∷ []))

abbrev account : List ℕ
account = (hardened + 45) ∷ []

abbrev blank_input : Option ℕ → List (Bytes × Hint) → PsbtInput core bitcoin_m
blank_input previous paths = record {
  non_witness_utxo = previous;
  witness_utxo = none;
  redeem_script = 1 ∷ [];
  witness_script = [];
  final_script_sig = [];
  final_script_witness = [];
  hd_keypaths = paths;
  tap_paths = [];
  partial_sigs = [];
  tap_key_sig = [];
  tap_script_sigs = [];
  tap_internal_key = [];
  tap_merkle_root = [];
  tap_scripts = [];
  ripemd160_preimages = [];
  sha256_preimages = [];
  hash160_preimages = [];
  hash256_preimages = [];
  sighash_type = none;
  musig2_participants = [];
  musig2_pubnonces = [];
  musig2_partial_sigs = [];
}

abbrev input : PsbtInput core bitcoin_m
input = blank_input (some 5) (
    (session.root, record { fingerprint = zeros; path = steps })
    ∷ ((key_b, record { fingerprint = ones; path = steps }) ∷ []))

abbrev utxo : TxOut core
utxo = record { value = 7000; script = [] }

abbrev psbt : Psbt core bitcoin_m
psbt = record {
  version = 0;
  tx = record { version = 2; locktime = 0; inputs = []; outputs = [] };
  inputs = input ∷ [];
  outputs = [];
  xpubs =
      (record { fingerprint = zeros; path = account }, session.root ∷ [])
      ∷ ((record { fingerprint = ones; path = account }, key_b ∷ []) ∷ []);
}

abbrev lib : Psbts core bitcoin_m
lib = record {
  TxData = Unit {0};
  decode = λ s. some psbt;
  serialize = λ p. [];
  is_valid_tx = λ t. true;
  input_utxo = λ p i. some utxo;
  precompute = λ p. tt;
  is_signed = λ i. false;
  is_verified = λ p i d. true;
  is_signature_encoding = λ s. true;
  sign_input = λ q p i d r. (incomplete, p);
  sign_dummy = λ q p i. (incomplete, p);
  finalize = λ p. (false, p);
  tx_hash = λ t. [];
  virtual_size = λ t l. 100;
  is_ecdsa_signature = λ p i n d k s c v. true;
  key_lt = λ a b. true;
  is_compressed = λ k. true;
  derive_public = λ k i. some k;
  key_version = λ k. 0x04 ∷ 0x88 ∷ 0xB2 ∷ 0x1E ∷ [];
  parent_fingerprint = λ k. if text_eq k key_b then ones else zeros;
}

abbrev request : PsbtData core bitcoin_m lib
request = record {
  psbt = psbt;
  utxos = utxo ∷ [];
  txdata = tt;
  fee = 0;
  missing_previous = 0;
  finalized = false;
}

abbrev before : Discovery core bitcoin_m lib
before = record { needs_wallet = true; multisig = false; setup = none; ambiguous = false }

abbrev after : Discovery core bitcoin_m lib
after = record { needs_wallet = true; multisig = true; setup = some multisig; ambiguous = false }

proposed_wallet_example :
    IsSound core bitcoin_m lib request session true (utxo ∷ []) (some multisig)
unfolding discover_multisig discover_inputs discover_input discover_script read_scripts read_witness
    local_hint either_hint any_own read_cosigners read_cosigner find_account check_account
    account_text last_step last_steps rebuild add_setup sort_texts insert_text text_lt script
    owned_keys owned_from owns public_at derive derive_from root_fingerprint path_text steps_text
    step_text to_string digits_of encode_public multisig_policy multisig_text multisig_name
    multisig_account_path is_multisig_key check_origins build header is_wrapper read_keys has_pubkey
    read_key read_xpub read_origin origin_loop take_token number harden scan initial round reference
    plain nest branches new_paths has_index has_path expansion with_reference with_char has_key
    same_keys check_descriptor check_descriptors key_of text_of span_digits digits_value from_chars
    last_or_zero
proposed_wallet_example =
    proposed_wallet core bitcoin_m lib request session true none before after refl refl

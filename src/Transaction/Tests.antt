-- ===== src/Transaction/Tests.antt =====
-- A request with two inputs: one of a multisig wallet, whose previous transaction is missing, and a foreign one that
-- comes whole. Bitcoin Core stands here as records of small functions.
use thunderden.Base.{
  ℕ, zero, suc, ◌+◌, ◌≡◌, ◌≢◌, refl, ap, ◌⊎◌, inl, Bool, true, false, not, List, [], ◌∷◌, ◌++◌,
  Option, none, some, if◌then◌else◌, leb, is_some, is_empty, length, get_elem?, replicate, Result,
  ok, codes, Bytes,
}
use thunderden.Keys.{
  hardened, verify_tag, public_at, derive, derive_from, root_fingerprint, registration_tag,
}
use thunderden.Policy.{Position}
use thunderden.Policy.Owner.{authorized, owned_keys, owned_from, owns, is_default, id}
use thunderden.Policy.Positions.{
  Hint, last_steps, names_account, ref_positions, all_positions, positions, public_provider, script,
  accounts, private_provider,
}
use thunderden.Policy.Tests.{core, session, multisig}
use thunderden.Transaction.Library.{Bitcoin, TxOut, PsbtInput, Psbt, Psbts, incomplete}
use thunderden.Transaction.{
  add_amount, witness_version, external_scripts, signing_rule, txout_eq, check_signatures,
  check_leaves, check_scripts,
}
use thunderden.Transaction.Locate.{position_lt, insert, insert_all, collect, pick, locate}
use thunderden.Transaction.Locate.Unique.{IsPicked, IsNamed, locate_unique}
use thunderden.Transaction.Read.{
  PsbtData, previous_output, check_xpubs, check_input, gather, add_outputs, check_final, read_psbt,
}
use thunderden.Transaction.Read.Fee.{FeeOf, read_psbt_fee}
use thunderden.Transaction.Review.{
  InputReview, TransactionReview, ReviewedTransaction, clean_input, restore_public, estimate,
  open_input, review_input, review_inputs, review_outputs, is_recognized, any_input,
  review_transaction,
}
use thunderden.Transaction.Review.Fee.{Discloses, review_tells}
use thunderden.Transaction.Review.Covered.{fee_covered}
use thunderden.Transaction.Sign.{
  SigningResult, changed_entries, same_signature, is_open, added_signatures, sign_one, sign_inputs,
  verify_from, sign_approved, sign,
}
use thunderden.Transaction.Sign.Steps.{SignsLocally}
use thunderden.Transaction.Sign.Consent.{
  Consented, SignedFrom, sign_consent, sign_reply, sign_keeps,
}
use thunderden.Transaction.Pending.{
  is_own_key, script_code, missing_signature, pending_one, pending_inputs, pending_input_count,
}
use thunderden.Transaction.Choices.{
  SigningChoices, ApprovedWallet, purpose_of, hinted_account, add_hints, gather_accounts,
  any_located, add_wallet, add_accounts, add_loaded, find_signing_wallets,
}
use thunderden.Transaction.Choices.Valid.{Found, wallets_offered}

abbrev pub hint : Hint
hint = record { fingerprint = 0 ∷ 0 ∷ 0 ∷ 0 ∷ []; path = (hardened + 45) ∷ 0 ∷ 9 ∷ [] }

abbrev pub bitcoin : Bitcoin core
bitcoin = record {
  Tx = ℕ;
  OutPoint = ℕ;
  Witness = Bytes;
  is_empty_script = is_empty;
  empty_script = [];
  is_p2sh = λ s. false;
  is_p2tr = λ s. false;
  is_unspendable = λ s. false;
  witness_program = λ s. if is_empty s then some (0, replicate 20 0) else none;
  to_script_hash = λ s. s;
  to_witness_hash = λ s. s;
  to_key_hash = λ s. s;
  script_hash = λ s. s;
  multisig = λ s. none;
  single_push = λ s. none;
  address_of = λ s. none;
  provider_of = λ l. 0;
  get_script = λ p h. none;
  origins = λ p. (codes "K", (session.root, hint)) ∷ [];
  empty_witness = [];
}

abbrev hints : List (Bytes × Hint)
hints = (codes "A", hint) ∷ []

abbrev blank : Option ℕ → List (Bytes × Hint) → PsbtInput core bitcoin
blank previous paths = record {
  non_witness_utxo = previous;
  witness_utxo = none;
  redeem_script = [];
  witness_script = [];
  final_script_sig = [];
  final_script_witness = [];
  hd_keypaths = paths;
  tap_paths = [];
  partial_sigs = [];
  tap_key_sig = [];
  tap_script_sigs = [];
  tap_internal_key = [];
  tap_merkle_root = [];
  tap_scripts = [];
  ripemd160_preimages = [];
  sha256_preimages = [];
  hash160_preimages = [];
  hash256_preimages = [];
  sighash_type = none;
  musig2_participants = [];
  musig2_pubnonces = [];
  musig2_partial_sigs = [];
}

abbrev own : PsbtInput core bitcoin
own = blank none hints

abbrev foreign : PsbtInput core bitcoin
foreign = blank (some 5) []

abbrev pub utxos : List (TxOut core)
utxos = record { value = 7000; script = [] } ∷ (record { value = 500; script = 1 ∷ [] } ∷ [])

abbrev paid : TxOut core
paid = record { value = 7400; script = 2 ∷ [] }

abbrev psbt : Psbt core bitcoin
psbt = record {
  version = 0;
  tx = record {
    version = 2;
    locktime = 0;
    inputs = record { previous = 10; sequence = 1 } ∷ (record { previous = 11; sequence = 2 } ∷ []);
    outputs = paid ∷ [];
  };
  inputs = own ∷ (foreign ∷ []);
  outputs = record { hd_keypaths = []; tap_paths = [] } ∷ [];
  xpubs = [];
}

-- A signature of the input at an index.
abbrev put_signature : ℕ → List (PsbtInput core bitcoin) → List (PsbtInput core bitcoin)
put_signature i [] = []
put_signature zero (x ∷ xs) =
    record x { partial_sigs = (codes "A", (codes "A", 9 ∷ (1 ∷ []))) ∷ [] } ∷ xs
put_signature (suc i) (x ∷ xs) = x ∷ put_signature i xs

abbrev signatures : List (PsbtInput core bitcoin) → Bytes
signatures [] = []
signatures (x ∷ xs) = length x.partial_sigs ∷ signatures xs

abbrev pub lib : Psbts core bitcoin
lib = record {
  TxData = Unit {0};
  decode = λ s. some psbt;
  serialize = λ p. signatures p.inputs;
  is_valid_tx = λ t. true;
  input_utxo = λ p i. get_elem? utxos i;
  precompute = λ p. tt;
  is_signed = λ i. not (is_empty i.final_script_sig);
  is_verified = λ p i d. true;
  is_signature_encoding = λ s. true;
  sign_input = λ q p i d r. (incomplete, record p { inputs = put_signature i p.inputs });
  sign_dummy = λ q p i. (incomplete, p);
  finalize = λ p. (false, p);
  tx_hash = λ t. [];
  virtual_size = λ t l. 100;
  is_ecdsa_signature = λ p i n d k s c v. true;
  key_lt = λ a b. false;
  is_compressed = λ k. true;
  derive_public = λ k i. some k;
  key_version = λ k. [];
  parent_fingerprint = λ k. [];
}

abbrev pub request : PsbtData core bitcoin lib
request = record {
  psbt = psbt;
  utxos = utxos;
  txdata = tt;
  fee = 100;
  missing_previous = 1;
  finalized = false;
}

read_psbt_fee_example : FeeOf core bitcoin lib psbt utxos 100 1
unfolding read_psbt gather check_xpubs check_input previous_output txout_eq add_amount add_outputs
    check_final
read_psbt_fee_example = read_psbt_fee core bitcoin lib (1 ∷ []) request refl

locate_unique_example :
    IsPicked core multisig []
      (IsNamed core multisig [] hints [])
      (some (record { branch = 0; index = 9 }))
unfolding locate collect pick insert_all insert position_lt positions last_steps all_positions
    ref_positions names_account script
locate_unique_example =
    locate_unique core multisig [] hints [] (some (record { branch = 0; index = 9 })) refl

abbrev position : Position
position = record { branch = 0; index = 9 }

abbrev seen_own : InputReview core bitcoin
seen_own = record {
  previous = 10;
  amount = 7000;
  sequence = 1;
  position = some position;
  finalized = false;
  signing_rule = some 1;
  full_previous = false;
}

abbrev seen_foreign : InputReview core bitcoin
seen_foreign = record {
  previous = 11;
  amount = 500;
  sequence = 2;
  position = none;
  finalized = false;
  signing_rule = none;
  full_previous = true;
}

abbrev tag : Bytes
tag = replicate 32 7

abbrev pub reviewed : ReviewedTransaction core bitcoin lib
reviewed = record {
  policy = multisig;
  tag = tag;
  request = request;
  review = record {
    policy_id = id core multisig;
    policy_name = multisig.name;
    policy_template = multisig.text;
    policy_descriptor = multisig.public_text ++ codes "#";
    signer = 0 ∷ 0 ∷ 0 ∷ 0 ∷ [];
    default_account = none;
    network = codes "main";
    version = 2;
    locktime = 0;
    fee = 100;
    recognized_inputs = 7000;
    recognized_outputs = 0;
    unrecognized_inputs = 1;
    fee_unverified = false;
    estimated_vsize = none;
    inputs = seen_own ∷ (seen_foreign ∷ []);
    outputs = record { amount = 7400; script = 2 ∷ []; address = []; position = none } ∷ [];
  };
}

review_tells_example : Discloses core bitcoin lib multisig request reviewed
unfolding review_transaction authorized is_default owned_keys owned_from owns public_at derive
    derive_from root_fingerprint verify_tag registration_tag review_inputs review_input locate
    collect pick insert_all insert position_lt positions last_steps all_positions ref_positions
    names_account script public_provider witness_version external_scripts signing_rule add_amount
    open_input check_signatures clean_input check_scripts check_leaves restore_public any_input
    is_recognized review_outputs estimate id
review_tells_example =
    review_tells core bitcoin lib request multisig session tag (codes "main") reviewed refl refl
      refl refl

abbrev reply : SigningResult
reply = record { psbt = 1 ∷ (0 ∷ []); added_signatures = 1; complete = false }

abbrev pub agree : TransactionReview core bitcoin → Bool
agree r = leb r.fee 1000

sign_consent_example :
    Consented core bitcoin lib reviewed (codes "main") (codes "main") (some agree)
    × (authorized core multisig session tag ≡ ok true)
    × (false ≡ false)
    × (any_input core bitcoin lib (is_open core bitcoin lib) reviewed.review.inputs ≡ true)
unfolding sign authorized owned_keys owned_from owns public_at derive derive_from root_fingerprint
    verify_tag registration_tag any_input is_open sign_approved sign_inputs sign_one
    private_provider public_provider accounts signing_rule added_signatures changed_entries
    same_signature verify_from id
sign_consent_example =
    sign_consent core bitcoin lib reviewed session (codes "main") (codes "main") (some agree) reply
      refl

sign_reply_example : SignedFrom core bitcoin lib reviewed session reply
unfolding sign authorized owned_keys owned_from owns public_at derive derive_from root_fingerprint
    verify_tag registration_tag any_input is_open sign_approved sign_inputs sign_one
    private_provider public_provider accounts signing_rule added_signatures changed_entries
    same_signature verify_from id
sign_reply_example =
    sign_reply core bitcoin lib reviewed session (codes "main") (codes "main") (some agree) reply
      refl

put_elsewhere :
    (i j : ℕ) (l : List (PsbtInput core bitcoin))
    → i ≢ j
    → get_elem? (put_signature i l) j ≡ get_elem? l j
put_elsewhere i j [] other = refl
put_elsewhere zero zero (x ∷ l) other = absurd (other refl)
put_elsewhere zero (suc j) (x ∷ l) other = refl
put_elsewhere (suc i) zero (x ∷ l) other = refl
put_elsewhere (suc i) (suc j) (x ∷ l) other = put_elsewhere i j l (λ e. other (ap suc e))

local : SignsLocally core bitcoin lib
local provider p index txdata rule j other = put_elsewhere index j p.inputs other

sign_keeps_example :
    (p : Psbt core bitcoin) × (lib.serialize p ≡ reply.psbt)
    × (get_elem? p.inputs 1 ≡ get_elem? psbt.inputs 1)
unfolding sign authorized owned_keys owned_from owns public_at derive derive_from root_fingerprint
    verify_tag registration_tag any_input is_open sign_approved sign_inputs sign_one
    private_provider public_provider accounts signing_rule added_signatures changed_entries
    same_signature verify_from id
sign_keeps_example =
    sign_keeps core bitcoin lib local reviewed session (codes "main") (codes "main") (some agree)
      reply 1 seen_foreign refl refl (inl refl)

fee_covered_example :
    (p : Position) × (provider : core.Provider) × (script : core.Script) × (utxo : TxOut core)
    × (version : Option ℕ) × (seen_own.position ≡ some p)
    × (get_elem? utxos 0 ≡ some utxo)
    × (◌≡◌ {A = Result (core.Provider × core.Script)}
        (public_provider core multisig p)
        (ok (provider, script)))
    × (witness_version core bitcoin utxo.script provider ≡ ok version)
    × ((version ≡ some 1)
        ⊎ ((is_some foreign.non_witness_utxo ≡ true) ⊎ ((version ≡ some 0) × (◌≡◌ {A = ℕ} 0 1))))
unfolding read_psbt gather check_xpubs check_input previous_output txout_eq add_outputs check_final
    review_transaction authorized is_default owned_keys owned_from owns public_at derive derive_from
    root_fingerprint verify_tag registration_tag review_inputs review_input locate collect pick
    insert_all insert position_lt positions last_steps all_positions ref_positions names_account
    script public_provider witness_version external_scripts signing_rule add_amount open_input
    check_signatures clean_input check_scripts check_leaves restore_public any_input is_recognized
    review_outputs estimate id is_open
fee_covered_example =
    fee_covered core bitcoin lib (1 ∷ []) request multisig session tag (codes "main") reviewed 0 1
      seen_own foreign refl refl refl refl refl refl refl refl

abbrev wallet : ApprovedWallet core bitcoin lib
wallet = record { policy = multisig; proof = tag }

abbrev choices : SigningChoices core bitcoin lib
choices = record {
  wallets = record { transaction = reviewed; inputs = 1 } ∷ [];
  needs_wallet = false;
  multisig = false;
  setup = none;
}

wallets_offered_example :
    Found core bitcoin lib session true (codes "main") (1 ∷ []) (some wallet) choices
unfolding find_signing_wallets gather_accounts add_hints hinted_account purpose_of add_accounts
    add_loaded add_wallet any_located pending_input_count pending_inputs pending_one
    missing_signature script_code is_own_key read_psbt gather check_xpubs check_input
    previous_output txout_eq add_outputs check_final review_transaction authorized is_default
    owned_keys owned_from owns public_at derive derive_from root_fingerprint verify_tag
    registration_tag review_inputs review_input locate collect pick insert_all insert position_lt
    positions last_steps all_positions ref_positions names_account script public_provider
    witness_version external_scripts signing_rule add_amount open_input check_signatures clean_input
    check_scripts check_leaves restore_public any_input is_recognized review_outputs estimate id
    is_open
wallets_offered_example =
    wallets_offered core bitcoin lib session true (codes "main") (1 ∷ []) (some wallet) choices refl

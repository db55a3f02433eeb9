-- ===== src/Transaction/Review.antt =====
-- src/transaction.cpp, Estimate and the constructor of ReviewedTransaction: what the user is shown.
pub mod Inputs
pub mod Fee
pub mod Outputs
pub mod Covered
pub mod Authorized
use thunderden.Base.{
  ℕ, zero, suc, ◌+◌, Bool, true, false, not, ◌&&◌, ◌||◌, List, [], ◌∷◌, ◌++◌, Option, none, some,
  leb, ltb, ◌==◌, if◌then◌else◌, is_some, is_empty, length, get_elem?, take, drop, Result, ok, err,
  ◌>>=◌, ◌>>◌, require, or_throw, Bytes, codes,
}
use thunderden.Core.{Core}
use thunderden.Keys.{Keys, root_fingerprint}
use thunderden.Policy.{Position, Policy, KeyInfo}
use thunderden.Policy.Owner.{authorized, is_default, first_origin, id}
use thunderden.Policy.Positions.{public_provider}
use thunderden.Transaction.Library.{
  Bitcoin, TxOut, TxIn, PsbtInput, PsbtOutput, Psbt, Psbts, SignStatus, signed, incomplete, failed,
  UnsignedTx,
}
use thunderden.Transaction.{
  add_amount, witness_version, external_scripts, signing_rule, check_signatures, check_scripts,
}
use thunderden.Transaction.Locate.{locate}
use thunderden.Transaction.Read.{PsbtData, read_psbt}

module _ (core : Core) (bitcoin : Bitcoin core) where
  pub record InputReview : Type 0 where
    pub previous : bitcoin.OutPoint
    pub amount : ℕ
    pub sequence : ℕ
    pub position : Option Position
    pub finalized : Bool
    pub signing_rule : Option ℕ
    pub full_previous : Bool

  pub record OutputReview : Type 0 where
    pub amount : ℕ
    pub script : core.Script
    pub address : Bytes
    pub position : Option Position

  pub record TransactionReview : Type 0 where
    pub policy_id : Bytes
    pub policy_name : Bytes
    pub policy_template : Bytes
    pub policy_descriptor : Bytes
    pub signer : Bytes
    pub default_account : Option (List ℕ)
    pub network : Bytes
    pub version : ℕ
    pub locktime : ℕ
    pub fee : ℕ
    pub recognized_inputs : ℕ
    pub recognized_outputs : ℕ
    pub unrecognized_inputs : ℕ
    pub fee_unverified : Bool
    pub estimated_vsize : Option ℕ
    pub inputs : List InputReview
    pub outputs : List OutputReview

  abbrev pub set_input :
      ℕ → PsbtInput core bitcoin → List (PsbtInput core bitcoin) → List (PsbtInput core bitcoin)
  set_input i v [] = []
  set_input zero v (x ∷ xs) = v ∷ xs
  set_input (suc i) v (x ∷ xs) = x ∷ set_input i v xs

  -- The existing signatures are cleared before the size is estimated.
  abbrev unsigned_input : PsbtInput core bitcoin → PsbtInput core bitcoin
  unsigned_input input = record input { partial_sigs = []; tap_key_sig = []; tap_script_sigs = [] }

  -- PSBTInput{} with both previous outputs copied.
  unfoldable pub clean_input : PsbtInput core bitcoin → PsbtInput core bitcoin
  clean_input input = record {
    non_witness_utxo = input.non_witness_utxo;
    witness_utxo = input.witness_utxo;
    redeem_script = bitcoin.empty_script;
    witness_script = bitcoin.empty_script;
    final_script_sig = bitcoin.empty_script;
    final_script_witness = bitcoin.empty_witness;
    hd_keypaths = [];
    tap_paths = [];
    partial_sigs = [];
    tap_key_sig = [];
    tap_script_sigs = [];
    tap_internal_key = [];
    tap_merkle_root = [];
    tap_scripts = [];
    ripemd160_preimages = [];
    sha256_preimages = [];
    hash160_preimages = [];
    hash256_preimages = [];
    sighash_type = none;
    musig2_participants = [];
    musig2_pubnonces = [];
    musig2_partial_sigs = [];
  }

  -- What the code copies back from the request: signatures and preimages.
  unfoldable pub restore_public :
      PsbtInput core bitcoin → PsbtInput core bitcoin → PsbtInput core bitcoin
  restore_public input clean = record clean {
    partial_sigs = input.partial_sigs;
    tap_key_sig = input.tap_key_sig;
    tap_script_sigs = input.tap_script_sigs;
    ripemd160_preimages = input.ripemd160_preimages;
    sha256_preimages = input.sha256_preimages;
    hash160_preimages = input.hash160_preimages;
    hash256_preimages = input.hash256_preimages;
  }

  module _ (lib : Psbts core bitcoin) where
    abbrev finals : List (PsbtInput core bitcoin) → List (core.Script × bitcoin.Witness)
    finals [] = []
    finals (x ∷ xs) = (x.final_script_sig, x.final_script_witness) ∷ finals xs

    unfoldable pub estimate :
        Policy core → Psbt core bitcoin → ℕ → List InputReview → Result (Option ℕ)
    estimate policy psbt index [] = ok (some (lib.virtual_size psbt.tx (finals psbt.inputs)))
    estimate policy psbt index (r ∷ reviews) =
        let skip = estimate policy psbt (index + 1) reviews in
        let dummy = λ (position : Position). (do
          (provider, script) ← public_provider core policy position
          input ← or_throw (get_elem? psbt.inputs index) "Input index"
          let (status, psbt') =
              lib.sign_dummy provider
                (record psbt { inputs = set_input index (unsigned_input input) psbt.inputs }) index
          elim status [
            | signed ↦ estimate policy psbt' (index + 1) reviews
            | incomplete ↦ ok none
            | failed ↦ ok none
          ]) in
        elim r.finalized [
          | true ↦ skip
          | false ↦ elim r.position [ none ↦ ok none | some p ↦ dummy p ]
        ]

    -- The variables of the loop over the inputs.
    pub record Progress : Type 0 where
      pub public_psbt : Psbt core bitcoin
      pub recognized_inputs : ℕ
      pub unrecognized_inputs : ℕ
      pub fee_unverified : Bool
      pub inputs : List InputReview

    -- The part of a round for an input of the policy that is still open.
    unfoldable pub open_input :
        PsbtData core bitcoin lib
        → ℕ
        → PsbtInput core bitcoin
        → TxOut core
        → core.Provider
        → Option ℕ
        → Progress
        → Result Progress
    open_input request index input utxo provider version s = do
      let rule = signing_rule core bitcoin utxo
      check_signatures core bitcoin input rule
      let unverified =
          not (elim version [ none ↦ false | some v ↦ v == 1 ])
          && ltb
              (if elim version [ none ↦ false | some v ↦ v == 0 ]
                  && not (is_some input.non_witness_utxo)
                then 1
                else 0)
              request.missing_previous
      let (status, processed) =
          lib.sign_input provider
            (record s.public_psbt {
              inputs = set_input index (clean_input input) s.public_psbt.inputs;
            })
            index request.txdata (some rule)
      require (elim status [ failed ↦ false | _ ↦ true ]) "Policy input cannot be processed"
      clean ← or_throw (get_elem? processed.inputs index) "Input index"
      check_scripts core bitcoin input clean
      ok (record s {
        public_psbt = record processed {
          inputs = set_input index (restore_public input clean) processed.inputs;
        };
        fee_unverified = s.fee_unverified || unverified;
      })

    unfoldable pub review_input :
        Policy core
        → PsbtData core bitcoin lib
        → ℕ
        → TxIn core bitcoin
        → PsbtInput core bitcoin
        → TxOut core
        → Progress
        → Result Progress
    review_input policy request index txin input utxo s = do
      position ← locate core policy utxo.script input.hd_keypaths input.tap_paths
      provider ← elim position [
        | none ↦ ok (external_scripts core bitcoin input)
        | some p ↦ (public_provider core policy p >>= λ (provider, script). ok provider)
      ]
      version ← witness_version core bitcoin utxo.script provider
      require (is_some input.non_witness_utxo || is_some version)
          "Full previous transactions are required for legacy or unrecognized input types"
      let finalized = lib.is_signed input
      let seen : InputReview = record {
        previous = txin.previous;
        amount = utxo.value;
        sequence = txin.sequence;
        position = position;
        finalized = finalized;
        signing_rule =
            if is_some position && not finalized
            then some (signing_rule core bitcoin utxo)
            else none;
        full_previous = is_some input.non_witness_utxo;
      }
      elim position [
        | none ↦ ok (record s {
          unrecognized_inputs = s.unrecognized_inputs + 1;
          inputs = s.inputs ++ (seen ∷ []);
        })
        | some p ↦ do
          total ← add_amount s.recognized_inputs utxo.value
          let counted : Progress = record s {
            recognized_inputs = total;
            inputs = s.inputs ++ (seen ∷ []);
          }
          if finalized
              then ok counted
              else open_input request index input utxo provider version counted
      ]

    unfoldable pub review_inputs :
        Policy core
        → PsbtData core bitcoin lib
        → ℕ
        → List (TxIn core bitcoin)
        → List (PsbtInput core bitcoin)
        → List (TxOut core)
        → Progress
        → Result Progress
    review_inputs policy request index (txin ∷ txins) (input ∷ inputs) (utxo ∷ utxos) s = do
      s' ← review_input policy request index txin input utxo s
      review_inputs policy request (index + 1) txins inputs utxos s'
    review_inputs policy request index txins inputs utxos s = ok s

    unfoldable pub review_outputs :
        Policy core
        → List (TxOut core)
        → List (PsbtOutput core bitcoin)
        → ℕ
        → Result (List OutputReview × ℕ)
    review_outputs policy (output ∷ outputs) (metadata ∷ more) total = do
      position ← locate core policy output.script metadata.hd_keypaths metadata.tap_paths
      total' ← if is_some position then add_amount total output.value else ok total
      (rest, sum) ← review_outputs policy outputs more total'
      let address : Bytes = elim (bitcoin.address_of output.script) [ none ↦ [] | some a ↦ a ]
      ok (
        record {
          amount = output.value;
          script = output.script;
          address = address;
          position = position;
        }
            ∷ rest,
        sum,
      )
    review_outputs policy outputs more total = ok ([], total)

    unfoldable pub is_recognized : InputReview → Bool
    is_recognized r = is_some r.position

    unfoldable pub any_input : (InputReview → Bool) → List InputReview → Bool
    any_input f [] = false
    any_input f (r ∷ rs) = f r || any_input f rs

    -- ReviewedTransaction: a policy with its tag, a request and the review of both.
    pub record ReviewedTransaction : Type 0 where
      pub policy : Policy core
      pub tag : Bytes
      pub request : PsbtData core bitcoin lib
      pub review : TransactionReview

    unfoldable pub review_transaction :
        PsbtData core bitcoin lib
        → Policy core
        → Keys core
        → Bytes
        → Bytes
        → Result ReviewedTransaction
    unfolding is_recognized
    review_transaction request policy session tag chain = do
      allowed ← authorized core policy session tag
      require allowed "Wallet policy is not authorized for this seed"
      standard ← is_default core policy session
      let psbt = request.psbt
      s ← review_inputs policy request 0 psbt.tx.inputs psbt.inputs request.utxos (record {
        public_psbt = psbt;
        recognized_inputs = 0;
        unrecognized_inputs = 0;
        fee_unverified = false;
        inputs = [];
      })
      require (any_input is_recognized s.inputs)
          "No inputs were verified as belonging to this policy"
      (outputs, recognized_outputs) ← review_outputs policy psbt.tx.outputs psbt.outputs 0
      vsize ← estimate policy s.public_psbt 0 s.inputs
      ok (record {
        policy = policy;
        tag = tag;
        request = request;
        review = record {
          policy_id = id core policy;
          policy_name = policy.name;
          policy_template = policy.text;
          policy_descriptor =
              policy.public_text ++ (codes "#" ++ core.descriptor_checksum policy.public_text);
          signer = root_fingerprint core session;
          default_account = if standard then some (first_origin core policy.keys) else none;
          network = chain;
          version = psbt.tx.version;
          locktime = psbt.tx.locktime;
          fee = request.fee;
          recognized_inputs = s.recognized_inputs;
          recognized_outputs = recognized_outputs;
          unrecognized_inputs = s.unrecognized_inputs;
          fee_unverified = s.fee_unverified;
          estimated_vsize = vsize;
          inputs = s.inputs;
          outputs = outputs;
        };
      })

    -- The constructor from the bytes of a request.
    unfoldable pub review_raw :
        Policy core → Keys core → Bytes → Bytes → Bytes → Result ReviewedTransaction
    review_raw policy session tag raw chain = do
      request ← read_psbt core bitcoin lib raw
      review_transaction request policy session tag chain

-- ===== src/QrCommands.antt =====
-- src/qr_commands.h, src/qr_commands.cpp and ApproveWallet of src/application.cpp: the commands that a
-- wallet app sends in a QR message. What the commands call of src/review.cpp and src/transaction.cpp is
-- an interface here. The selected network is that of the record Signer; it is read again where a
-- command has ended.
pub mod Answers
pub mod Grants
pub mod Commands
pub mod Consent
pub mod Signing
pub mod Tests
mod SigningTests
use thunderden.Base.{
  ℕ, zero, suc, ◌+◌, ◌*◌, Bool, true, false, not, ◌&&◌, List, [], ◌∷◌, ◌++◌, Option, none, some,
  ltb, leb, ◌==◌, if◌then◌else◌, is_some, length, is_empty, Result, ok, err, ◌>>=◌, ◌>>◌, require,
  or_throw, codes, text_eq, Bytes,
}
use thunderden.Cbor
use thunderden.Cbor.Writer
use thunderden.Cbor.Writer.{CborLite, CborWriter}
use thunderden.Core.{Core}
use thunderden.Keys.{Keys, public_at, encode_public, root_fingerprint, registration_tag}
use thunderden.Policy.{Position, Policy}
use thunderden.Policy.Build.{build}
use thunderden.Policy.Owner.{id, owned_keys, authorized}
use thunderden.Policy.Positions.{script}
use thunderden.Transport.{QrMessage, cbor_bytes, unwrap_bytes}

abbrev pub max_psbt_bytes : ℕ
max_psbt_bytes = 1024 * 1024

abbrev pub Lines : Type 0
Lines = List Bytes

-- SignedTransaction.
pub record Signed : Type 0 where
  pub psbt : Bytes
  pub added_signatures : ℕ
  pub complete : Bool

-- QRApproval: a callback may be missing.
pub record QrApproval (Review : Type 0) : Type 0 where
  pub export_key : Option (Lines → Bool)
  pub register_wallet : Option (Lines → Lines → Bool)
  pub address : Option (Lines → Lines → Bool)
  pub transaction : Option (Review → Bool)

-- The network, the texts to review, and the review and signing of a transaction.
pub record Signer (core : Core) : Type 1 where
  pub Review : Type 0
  pub chain : Bytes
  pub mainnet : Bool
  pub public_key_review : Keys core → List ℕ → Result Lines
  pub policy_review : Policy core → Keys core → Result Lines
  pub policy_details : Policy core → Keys core → Result Lines
  pub address_review : Policy core → Keys core → Position → Bytes → Result Lines
  pub address_of : core.Script → Option Bytes
  pub sign :
      Policy core → Keys core → Bytes → Bytes → Option (Review → Bool) → Result (Option Signed)

module _ (core : Core) (lib : CborLite) (signer : Signer core) where
  -- A callback's answer, or the exception where there is none.
  pub ask : Option (Lines → Bool) → Lines → Result Bool
  ask none lines = err "Missing local approval"
  ask (some callback) lines = ok (callback lines)

  pub ask_with : Option (Lines → Lines → Bool) → Lines → Lines → Result Bool
  ask_with none lines details = err "Missing local approval"
  ask_with (some callback) lines details = ok (callback lines details)

  unfoldable pub read_texts : ℕ → Bytes → Result (List Bytes × Bytes)
  read_texts zero s = ok ([], s)
  read_texts (suc n) s = do
    (key, s1) ← Cbor.text 512 s
    (keys, s2) ← read_texts n s1
    ok (key ∷ keys, s2)

  pub read_path : ℕ → Bytes → Result (List ℕ × Bytes)
  read_path zero s = ok ([], s)
  read_path (suc n) s = do
    (index, s1) ← Cbor.u_int Cbor.uint32_max s
    (path, s2) ← read_path n s1
    ok (index ∷ path, s2)

  unfoldable pub read_policy : Bytes → Result (Policy core × Bytes)
  read_policy s = do
    (u, s1) ← Cbor.tuple 3 s
    (name, s2) ← Cbor.text 64 s1
    (text, s3) ← Cbor.text 8192 s2
    (count, s4) ← Cbor.array 32 s3
    (keys, s5) ← read_texts count s4
    policy ← build core name text keys signer.mainnet
    ok (policy, s5)

  abbrev pub empty : CborWriter
  empty = record { written = [] }

  pub write_path : CborWriter → List ℕ → CborWriter
  write_path w [] = w
  write_path w (index ∷ path) = write_path (Writer.u_int lib w index) path

  pub wallet_details : Policy core → Lines
  wallet_details policy =
      (codes "Wallet ID: " ++ core.hex_str (id core policy))
      ∷ []
      ∷ codes "Full public descriptor:"
      ∷ (policy.public_text ++ (b'#' ∷ core.descriptor_checksum policy.public_text))
      ∷ []

  -- ApproveWallet: the registration tag where the user approves.
  pub approve_wallet :
      Policy core → Keys core → Option (Lines → Lines → Bool) → Result (Option Bytes)
  unfolding wallet_details
  approve_wallet policy keys approve = do
    require (not (is_empty policy.name))
        "This wallet does not contain a key from your recovery words"
    owned ← owned_keys core policy keys
    require (not (is_empty owned)) "This wallet does not contain a key from your recovery words"
    require (is_some approve) "Missing local approval"
    lines ← signer.policy_review policy keys
    answer ← ask_with approve lines (wallet_details policy)
    ok (if answer then some (registration_tag core keys (id core policy)) else none)

  -- Each command returns the body of its reply, or nothing where the user declines.
  pub ping : Bytes → Result (Option Bytes)
  ping s = do (u, s1) ← Cbor.tuple 0 s; Cbor.end s1; ok (some (Writer.array lib empty 0).written)

  pub export_key : Keys core → QrApproval signer.Review → Bytes → Result (Option Bytes)
  unfolding write_path
  export_key keys approve s = do
    (u, s1) ← Cbor.tuple 2 s
    (count, s2) ← Cbor.array 32 s1
    (path, s3) ← read_path count s2
    (display, s4) ← Cbor.u_int 1 s3
    Cbor.end s4
    key ← public_at core keys path
    lines ← signer.public_key_review keys path
    answer ← ask approve.export_key (
        (codes "Review the public key you're being asked to share." ∷ [] ∷ lines)
        ++ ([] ∷ codes "Extended public key:" ∷ encode_public core key signer.mainnet ∷ []))
    ok (
        if answer
        then some
            (Writer.text lib
              (write_path (Writer.array lib (Writer.array lib empty 2) (length path)) path)
              (encode_public core key signer.mainnet)).written
        else none)

  pub register : Keys core → QrApproval signer.Review → Bytes → Result (Option Bytes)
  register keys approve s = do
    (u, s1) ← Cbor.tuple 1 s
    (policy, s2) ← read_policy s1
    Cbor.end s2
    proof ← approve_wallet policy keys approve.register_wallet
    ok (elim proof [
      | none ↦ none
      | some tag ↦
          some
            (Writer.bytes lib (Writer.bytes lib (Writer.array lib empty 2) (id core policy))
              tag).written
    ])

  -- A policy with its proof, for the commands that use a registered wallet.
  unfoldable pub read_authorized : Keys core → Bytes → Result (Policy core × Bytes × Bytes)
  read_authorized keys s = do
    (policy, s1) ← read_policy s
    (proof, s2) ← Cbor.bytes 32 s1
    valid ← authorized core policy keys proof
    require valid "Invalid registration proof"
    ok (policy, proof, s2)

  pub show_address : Keys core → QrApproval signer.Review → Bytes → Result (Option Bytes)
  show_address keys approve s = do
    (u, s0) ← Cbor.tuple 4 s
    (policy, proof, s1) ← read_authorized keys s0
    (branch, s2) ← Cbor.u_int 1 s1
    (index, s3) ← Cbor.u_int 0x7fff_ffff s2
    Cbor.end s3
    output ← script core policy branch index
    address ← or_throw (signer.address_of output) "Invalid address"
    lines ← signer.address_review policy keys (record { branch = branch; index = index }) address
    details ← signer.policy_details policy keys
    answer ←
        ask_with approve.address
          (codes "Compare this full address with the one shown in your wallet app." ∷ [] ∷ lines)
          details
    ok (if answer then some (Writer.text lib (Writer.array lib empty 1) address).written else none)

  pub signed_body : Signed → Bytes
  signed_body r =
      (Writer.u_int lib
        (Writer.u_int lib (Writer.bytes lib (Writer.array lib empty 3) r.psbt) r.added_signatures)
        (if r.complete then 1 else 0)).written

  unfoldable pub sign_transaction :
      Keys core → QrApproval signer.Review → Bytes → Result (Option Bytes)
  unfolding signed_body
  sign_transaction keys approve s = do
    (u, s0) ← Cbor.tuple 3 s
    (policy, proof, s1) ← read_authorized keys s0
    (psbt, s2) ← Cbor.bytes max_psbt_bytes s1
    Cbor.end s2
    result ← signer.sign policy keys proof psbt approve.transaction
    ok (elim result [ none ↦ none | some r ↦ some (signed_body r) ])

  pub command : Keys core → QrApproval signer.Review → ℕ → Bytes → Result (Option Bytes)
  command keys approve operation s =
      if operation == 0
      then ping s
      else if operation == 1
      then export_key keys approve s
      else if operation == 2
      then register keys approve s
      else if operation == 3
      then show_address keys approve s
      else sign_transaction keys approve s

  -- The status of a finished command and its body. An exception is status 2, with no body.
  pub outcome : Result (Option Bytes) → ℕ × Bytes
  outcome (err message) = (2, [])
  outcome (ok none) = (1, [])
  outcome (ok (some body)) = (0, body)

  pub status_body : Keys core → QrApproval signer.Review → Bytes → ℕ → Bytes → ℕ × Bytes
  status_body keys approve network operation s =
      if not (text_eq network signer.chain)
      then (4, [])
      else if ltb 4 operation
      then (5, [])
      else outcome (command keys approve operation s)

  pub reply_head : Keys core → Bytes → ℕ → ℕ → CborWriter
  reply_head keys request operation status =
      Writer.u_int lib
        (Writer.u_int lib
          (Writer.text lib
            (Writer.bytes lib
              (Writer.text lib
                (Writer.bytes lib (Writer.u_int lib (Writer.array lib empty 8) 3) request)
                signer.chain)
              (root_fingerprint core keys))
            (codes "0.0.1"))
          operation)
        status

  pub reply : Keys core → Bytes → ℕ → ℕ × Bytes → Result (QrMessage × ℕ)
  reply keys request operation (status, body) =
      let head = reply_head keys request operation status in
      cbor_bytes lib
        (if status == 0 then head.written ++ body else (Writer.array lib head 0).written)
      >>= λ cbor. ok (record { type = codes "bytes"; cbor = cbor; secret = [] }, status)

  -- `chain_after` is the selected network as it is read again once the command has ended.
  pub handle_qr_request :
      QrMessage → Keys core → QrApproval signer.Review → Bytes → Result (QrMessage × ℕ)
  handle_qr_request message keys approve chain_after = do
    require (text_eq message.type (codes "bytes")) "Expected a Thunder Den QR command"
    raw ← unwrap_bytes message.cbor
    require (leb (length raw) (max_psbt_bytes + 65536)) "Request too large"
    (u, s1) ← Cbor.tuple 5 raw
    (format, s2) ← Cbor.u_int Cbor.uint32_max s1
    require (format == 3) "Unsupported Thunder Den message format"
    (request, s3) ← Cbor.bytes 16 s2
    require (length request == 16) "Invalid request ID"
    (network, s4) ← Cbor.text 16 s3
    (operation, s5) ← Cbor.u_int Cbor.uint32_max s4
    let answer = status_body keys approve network operation s5
    require (text_eq chain_after signer.chain) "Network changed during operation"
    reply keys request operation answer
